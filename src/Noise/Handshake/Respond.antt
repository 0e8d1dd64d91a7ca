-- ===== src/Noise/Handshake/Respond.antt =====
-- `receive_handshake_initialization`, `format_handshake_response` and `parse_handshake_anon` of
-- protocol/boringtun/src/noise/handshake.rs.
use xelt_vpn.Prelude.{ℕ, not, List, [], ◌∷◌, ltb, if◌then◌else◌, bytes_eq, to_le}
use xelt_vpn.Prelude.Fields.{join}
use xelt_vpn.Noise.Errors.{
  Result, ok, err, panic, ◌>>=◌, destination_buffer_too_small, wrong_key, wrong_tai64n_timestamp,
}
use xelt_vpn.Noise.Crypto.{Crypto, b2s_hash, aead_chacha20_seal, aead_chacha20_open}
use xelt_vpn.Noise.Packet.{HandshakeInit, handshake_resp_type, handshake_resp_sz}
use xelt_vpn.Noise.Session.{Session, new}
use xelt_vpn.Noise.Handshake.Timestamp.{Tai64N, parse, after}
use xelt_vpn.Noise.Handshake.Keys.{
  SessionKeys, start_chain, advance, mix_key, response_chain, last_step, derive_keys,
}
use xelt_vpn.Noise.Handshake.Initiate.{append_mac1_and_mac2}
use xelt_vpn.Noise.Handshake.{
  Env, Handshake, NoiseParams, HandshakeState, InitReceivedState, idle, init_sent, init_received,
  expired, inc_index, key_len, timestamp_len,
}

pub record HalfHandshake : Type 0 where
  pub peer_index : ℕ
  pub peer_static_public : List ℕ

-- What an authentic initiation gives.
pub record OpenedInit : Type 0 where
  pub timestamp : Tai64N
  pub received : InitReceivedState

module _ (crypto : Crypto) where
  -- The static key that an initiation carries, for a key pair.
  unfoldable pub open_static : List ℕ → List ℕ → HandshakeInit → Result (List ℕ)
  open_static static_private static_public packet =
      let c₀ = start_chain crypto static_public packet.unencrypted_ephemeral in
      let shared = crypto.diffie_hellman static_private packet.unencrypted_ephemeral in
      aead_chacha20_open crypto key_len (mix_key crypto c₀.chaining_key shared) 0
        packet.encrypted_static c₀.hash

  unfoldable pub parse_handshake_anon : List ℕ → List ℕ → HandshakeInit → Result HalfHandshake
  unfolding open_static
  parse_handshake_anon static_private static_public packet =
      open_static static_private static_public packet >>= λ peer.
      ok (record { peer_index = packet.sender_idx; peer_static_public = peer })

  -- From the test of the static key on.
  unfoldable pub open_timestamp : NoiseParams → Tai64N → HandshakeInit → Result OpenedInit
  open_timestamp p last packet =
      let shared = crypto.diffie_hellman p.static_private packet.unencrypted_ephemeral in
      let c₁ =
        advance crypto (start_chain crypto p.static_public packet.unencrypted_ephemeral) shared
          packet.encrypted_static in
      aead_chacha20_open crypto timestamp_len (mix_key crypto c₁.chaining_key p.static_shared) 0
        packet.encrypted_timestamp c₁.hash
      >>= λ bytes.
          let c₂ = advance crypto c₁ p.static_shared packet.encrypted_timestamp in
          if not (after (parse bytes) last)
          then err wrong_tai64n_timestamp
          else ok (record {
            timestamp = parse bytes;
            received = record {
              chaining_key = c₂.chaining_key;
              hash = c₂.hash;
              peer_ephemeral_public = packet.unencrypted_ephemeral;
              peer_index = packet.sender_idx;
            };
          })

  unfoldable pub open_init : NoiseParams → Tai64N → HandshakeInit → Result OpenedInit
  unfolding open_static open_timestamp
  open_init p last packet = open_static p.static_private p.static_public packet >>= λ peer.
      if not (bytes_eq p.peer_static_public peer)
      then err wrong_key
      else open_timestamp p last packet

  -- The sealed part of a response, and the keys.
  pub record ResponseSeal : Type 0 where
    pub encrypted_nothing : List ℕ
    pub keys : SessionKeys

  unfoldable pub seal_response : NoiseParams → List ℕ → InitReceivedState → Result ResponseSeal
  seal_response p ephemeral s =
      let e = crypto.public_key ephemeral in
      let ck =
        response_chain crypto s.chaining_key e
          (crypto.diffie_hellman ephemeral s.peer_ephemeral_public)
          (crypto.diffie_hellman ephemeral p.peer_static_public) in
      let l = last_step crypto ck p.preshared_key in
      let hash = b2s_hash crypto (b2s_hash crypto s.hash e) l.temp2 in
      aead_chacha20_seal crypto l.key 0 [] hash >>= λ nothing.
      ok (record { encrypted_nothing = nothing; keys = derive_keys crypto l.chaining_key })

  abbrev pub response_fields : ℕ → ℕ → List ℕ → List ℕ → List (List ℕ)
  response_fields local_index peer_index ephemeral_public nothing =
      to_le 4 handshake_resp_type
      ∷ to_le 4 local_index
      ∷ to_le 4 peer_index
      ∷ ephemeral_public
      ∷ nothing
      ∷ []

  unfoldable pub send_response :
      Handshake
      → Env
      → InitReceivedState
      → Result ResponseSeal
      → Result (List ℕ × Session) × Handshake
  send_response h env s (ok r) =
      let (local_index, h₁) = inc_index h in
      let (bytes, h₂) = append_mac1_and_mac2 crypto h₁ local_index (
        join (
          response_fields local_index s.peer_index (crypto.public_key env.ephemeral)
            r.encrypted_nothing)) in
      (ok (bytes, new local_index s.peer_index r.keys.sending_key r.keys.receiving_key), h₂)
  send_response h env s (err e) = (err e, h)
  send_response h env s panic = (panic, h)

  -- The state is taken, and `None` is left in its place.
  unfoldable pub respond_to :
      Handshake → Env → HandshakeState → Result (List ℕ × Session) × Handshake
  unfolding send_response
  respond_to h env (init_received s) =
      send_response (record h { state = idle }) env s (seal_response h.params env.ephemeral s)
  respond_to h env idle = (panic, h)
  respond_to h env (init_sent s) = (panic, h)
  respond_to h env expired = (panic, h)

  unfoldable pub format_handshake_response :
      Handshake → Env → ℕ → Result (List ℕ × Session) × Handshake
  unfolding respond_to
  format_handshake_response h env dst_len =
      if ltb dst_len handshake_resp_sz
      then (err destination_buffer_too_small, h)
      else respond_to h env h.state

  unfoldable pub accept_init :
      Handshake → Env → ℕ → Result OpenedInit → Result (List ℕ × Session) × Handshake
  unfolding format_handshake_response
  accept_init h env dst_len (ok o) =
      format_handshake_response
        (record h {
          last_handshake_timestamp = o.timestamp;
          previous = h.state;
          state = init_received o.received;
        })
        env dst_len
  accept_init h env dst_len (err e) = (err e, h)
  accept_init h env dst_len panic = (panic, h)

  unfoldable pub receive_handshake_initialization :
      Handshake → Env → HandshakeInit → ℕ → Result (List ℕ × Session) × Handshake
  unfolding accept_init
  receive_handshake_initialization h env packet dst_len =
      accept_init h env dst_len (open_init h.params h.last_handshake_timestamp packet)
