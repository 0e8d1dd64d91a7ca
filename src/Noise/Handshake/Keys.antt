-- ===== src/Noise/Handshake/Keys.antt =====
-- The key schedule of the handshake: the steps that the four functions of
-- protocol/boringtun/src/noise/handshake.rs make in the same words.
use xelt_vpn.Prelude.{ℕ, List, [], ◌∷◌, Option, none, some, replicate}
use xelt_vpn.Noise.Crypto.{Crypto, b2s_hash, b2s_hmac, b2s_hmac2}

abbrev pub initial_chain_key : List ℕ
initial_chain_key =
    96 ∷ 226 ∷ 109 ∷ 174 ∷ 243 ∷ 39 ∷ 239 ∷ 192 ∷ 46 ∷ 195 ∷ 53 ∷ 226 ∷ 160 ∷ 37 ∷ 210 ∷ 208 ∷ 22
    ∷ 235 ∷ 66 ∷ 6 ∷ 248 ∷ 114 ∷ 119 ∷ 245 ∷ 45 ∷ 56 ∷ 209 ∷ 152 ∷ 139 ∷ 120 ∷ 205 ∷ 54 ∷ []

abbrev pub initial_chain_hash : List ℕ
initial_chain_hash =
    34 ∷ 17 ∷ 179 ∷ 97 ∷ 8 ∷ 26 ∷ 197 ∷ 102 ∷ 105 ∷ 18 ∷ 67 ∷ 219 ∷ 69 ∷ 138 ∷ 213 ∷ 50 ∷ 45 ∷ 156
    ∷ 108 ∷ 102 ∷ 34 ∷ 147 ∷ 232 ∷ 183 ∷ 14 ∷ 225 ∷ 156 ∷ 101 ∷ 186 ∷ 7 ∷ 158 ∷ 243 ∷ []

-- A chaining key and a hash, as the handshake goes on.
pub record Chain : Type 0 where
  pub chaining_key : List ℕ
  pub hash : List ℕ

-- The keys of a session, named for the initiator.
pub record SessionKeys : Type 0 where
  pub sending_key : List ℕ
  pub receiving_key : List ℕ

abbrev pub psk_or_zero : Option (List ℕ) → List ℕ
psk_or_zero none = replicate 32 0
psk_or_zero (some k) = k

-- The last part: chaining key, the text that goes into the hash, and the key of `encrypted_nothing`.
pub record Last : Type 0 where
  pub chaining_key : List ℕ
  pub temp2 : List ℕ
  pub key : List ℕ

module _ (crypto : Crypto) where
  -- `temp = HMAC(chaining_key, x); chaining_key = HMAC(temp, 0x1)`.
  unfoldable pub mix : List ℕ → List ℕ → List ℕ
  mix chaining_key x = b2s_hmac crypto (b2s_hmac crypto chaining_key x) (0x01 ∷ [])

  -- The same, with `key = HMAC(temp, chaining_key || 0x2)`.
  unfoldable pub mix_key : List ℕ → List ℕ → List ℕ
  mix_key chaining_key x =
      let temp = b2s_hmac crypto chaining_key x in
      b2s_hmac2 crypto temp (b2s_hmac crypto temp (0x01 ∷ [])) (0x02 ∷ [])

  -- From the start to the responder's static key and the initiator's ephemeral one.
  unfoldable pub start_chain : List ℕ → List ℕ → Chain
  unfolding mix
  start_chain responder_static ephemeral_public = record {
    chaining_key = mix initial_chain_key ephemeral_public;
    hash = b2s_hash crypto (b2s_hash crypto initial_chain_hash responder_static) ephemeral_public;
  }

  -- A shared secret into the chaining key, and what was sealed under it into the hash.
  unfoldable pub advance : Chain → List ℕ → List ℕ → Chain
  unfolding mix
  advance c shared sealed = record {
    chaining_key = mix c.chaining_key shared;
    hash = b2s_hash crypto c.hash sealed;
  }

  -- The response: the responder's ephemeral key, and two shared secrets.
  unfoldable pub response_chain : List ℕ → List ℕ → List ℕ → List ℕ → List ℕ
  unfolding mix
  response_chain chaining_key ephemeral_public shared_ephemeral shared_static =
      mix (mix (mix chaining_key ephemeral_public) shared_ephemeral) shared_static

  unfoldable pub last_step : List ℕ → Option (List ℕ) → Last
  last_step chaining_key preshared_key =
      let temp = b2s_hmac crypto chaining_key (psk_or_zero preshared_key) in
      let ck = b2s_hmac crypto temp (0x01 ∷ []) in
      let temp2 = b2s_hmac2 crypto temp ck (0x02 ∷ []) in
      record { chaining_key = ck; temp2 = temp2; key = b2s_hmac2 crypto temp temp2 (0x03 ∷ []) }

  unfoldable pub derive_keys : List ℕ → SessionKeys
  derive_keys chaining_key =
      let temp1 = b2s_hmac crypto chaining_key [] in
      let temp2 = b2s_hmac crypto temp1 (0x01 ∷ []) in
      record { sending_key = temp2; receiving_key = b2s_hmac2 crypto temp1 temp2 (0x02 ∷ []) }
