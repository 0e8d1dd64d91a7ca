-- ===== src/Noise/Crypto.antt =====
-- The primitives of the crates `blake2`, `hmac`, `x25519_dalek` and `chacha20poly1305` that
-- protocol/boringtun/src/noise calls, with the laws that it relies on, and the wrappers of
-- protocol/boringtun/src/noise/handshake.rs. Keys, points and digests are lists of bytes.
pub mod Plain
use xelt_vpn.Prelude.{
  ℕ, ◌≡◌, List, [], ◌∷◌, ◌++◌, Option, none, some, length, ◌==◌, if◌then◌else◌, to_le, replicate,
}
use xelt_vpn.Noise.Aead.{Aead}
use xelt_vpn.Noise.Errors.{Result, ok, err, panic, invalid_aead_tag}

pub record Crypto : Type 0 where
  pub aead : Aead
  -- The hash of a text, and HMAC and the keyed hashes of a key and a text.
  pub blake2s : List ℕ → List ℕ
  pub hmac_blake2s : List ℕ → List ℕ → List ℕ
  pub blake2s_mac_16 : List ℕ → List ℕ → List ℕ
  pub blake2s_mac_24 : List ℕ → List ℕ → List ℕ
  -- `PublicKey::from` and `diffie_hellman`.
  pub public_key : List ℕ → List ℕ
  pub diffie_hellman : List ℕ → List ℕ → List ℕ
  -- XChaCha20-Poly1305: key, nonce, associated data and text.
  pub xseal : List ℕ → List ℕ → List ℕ → List ℕ → Option (List ℕ × List ℕ)
  pub xunseal : List ℕ → List ℕ → List ℕ → List ℕ → Option (List ℕ)
  pub length-blake2s_mac_16 : (k m : List ℕ) → length (blake2s_mac_16 k m) ≡ 16
  pub length-public_key : (k : List ℕ) → length (public_key k) ≡ 32
  pub diffie_hellman_comm :
      (a b : List ℕ) → diffie_hellman a (public_key b) ≡ diffie_hellman b (public_key a)

abbrev pub aead_nonce : ℕ → List ℕ
aead_nonce counter = replicate 4 0 ++ to_le 8 counter

module _ (crypto : Crypto) where
  abbrev pub b2s_hash : List ℕ → List ℕ → List ℕ
  b2s_hash data1 data2 = crypto.blake2s (data1 ++ data2)

  abbrev pub b2s_hmac : List ℕ → List ℕ → List ℕ
  b2s_hmac key data1 = crypto.hmac_blake2s key data1

  abbrev pub b2s_hmac2 : List ℕ → List ℕ → List ℕ → List ℕ
  b2s_hmac2 key data1 data2 = crypto.hmac_blake2s key (data1 ++ data2)

  abbrev pub b2s_keyed_mac_16 : List ℕ → List ℕ → List ℕ
  b2s_keyed_mac_16 key data1 = crypto.blake2s_mac_16 key data1

  abbrev pub b2s_keyed_mac_16_2 : List ℕ → List ℕ → List ℕ → List ℕ
  b2s_keyed_mac_16_2 key data1 data2 = crypto.blake2s_mac_16 key (data1 ++ data2)

  abbrev pub b2s_mac_24 : List ℕ → List ℕ → List ℕ
  b2s_mac_24 key data1 = crypto.blake2s_mac_24 key data1

  -- `.unwrap()` of a seal that fails panics.
  unfoldable pub aead_chacha20_seal : List ℕ → ℕ → List ℕ → List ℕ → Result (List ℕ)
  aead_chacha20_seal key counter text aad =
      elim (crypto.aead.seal key (aead_nonce counter) aad text) [
        | none ↦ panic
        | some (c, tag) ↦ ok (c ++ tag)
      ]

  -- The text must fill the buffer, or `copy_from_slice` panics.
  unfoldable pub aead_chacha20_open : ℕ → List ℕ → ℕ → List ℕ → List ℕ → Result (List ℕ)
  aead_chacha20_open buffer_len key counter sealed aad =
      elim (crypto.aead.unseal key (aead_nonce counter) aad sealed) [
        | none ↦ err invalid_aead_tag
        | some text ↦ if length text == buffer_len then ok text else panic
      ]
