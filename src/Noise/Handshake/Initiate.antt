-- ===== src/Noise/Handshake/Initiate.antt =====
-- `format_handshake_initiation`, `receive_handshake_response` and `append_mac1_and_mac2` of
-- protocol/boringtun/src/noise/handshake.rs.
use xelt_vpn.Prelude.{
  ℕ, ◌-◌, ◌/◌, ◌%◌, ◌^◌, Bool, true, false, List, [], ◌∷◌, ◌++◌, Option, none, some, ltb, ◌==◌,
  if◌then◌else◌, to_le, replicate,
}
use xelt_vpn.Prelude.Fields.{join}
use xelt_vpn.Noise.Errors.{
  Result, ok, err, panic, ◌>>=◌, destination_buffer_too_small, unexpected_packet,
}
use xelt_vpn.Noise.Crypto.{
  Crypto, b2s_hash, b2s_keyed_mac_16, aead_chacha20_seal, aead_chacha20_open,
}
use xelt_vpn.Noise.Packet.{HandshakeResponse, handshake_init_type, handshake_init_sz}
use xelt_vpn.Noise.Session.{Session, new}
use xelt_vpn.Noise.Handshake.Timestamp.{stamp}
use xelt_vpn.Noise.Handshake.Keys.{
  Chain, SessionKeys, start_chain, advance, mix_key, response_chain, last_step, derive_keys,
}
use xelt_vpn.Noise.Handshake.{
  Env, Handshake, NoiseParams, HandshakeState, HandshakeInitSentState, idle, init_sent,
  init_received, expired, inc_index,
}

-- The sealed parts of an initiation, and the chain after them.
pub record InitSeals : Type 0 where
  pub encrypted_static : List ℕ
  pub encrypted_timestamp : List ℕ
  pub chain : Chain

module _ (crypto : Crypto) where
  abbrev pub mac2_of : Option (List ℕ) → List ℕ → List ℕ
  mac2_of none msg = replicate 16 0
  mac2_of (some cookie) msg = b2s_keyed_mac_16 crypto cookie msg

  -- The message as far as `mac1`, with both MACs behind it.
  unfoldable pub append_mac1_and_mac2 : Handshake → ℕ → List ℕ → List ℕ × Handshake
  append_mac1_and_mac2 h local_index msg =
      let mac1 = b2s_keyed_mac_16 crypto h.params.sending_mac1_key msg in
      let mac2 = mac2_of h.cookies.write_cookie (msg ++ mac1) in
      (
        msg ++ (mac1 ++ mac2),
        record h { cookies = record (h.cookies) { index = local_index; last_mac1 = some mac1 } },
      )

  unfoldable pub seal_init : NoiseParams → List ℕ → List ℕ → Result InitSeals
  seal_init p ephemeral timestamp =
      let c₀ = start_chain crypto p.peer_static_public (crypto.public_key ephemeral) in
      let shared = crypto.diffie_hellman ephemeral p.peer_static_public in
      aead_chacha20_seal crypto (mix_key crypto c₀.chaining_key shared) 0 p.static_public c₀.hash
      >>= λ encrypted_static.
          let c₁ = advance crypto c₀ shared encrypted_static in
          aead_chacha20_seal crypto (mix_key crypto c₁.chaining_key p.static_shared) 0 timestamp
            c₁.hash
          >>= λ encrypted_timestamp. ok (record {
            encrypted_static = encrypted_static;
            encrypted_timestamp = encrypted_timestamp;
            chain = advance crypto c₁ p.static_shared encrypted_timestamp;
          })

  abbrev pub init_fields : ℕ → List ℕ → InitSeals → List (List ℕ)
  init_fields local_index ephemeral_public s =
      to_le 4 handshake_init_type
      ∷ to_le 4 local_index
      ∷ ephemeral_public
      ∷ s.encrypted_static
      ∷ s.encrypted_timestamp
      ∷ []

  -- What follows the seals: the new state, and the message.
  unfoldable pub send_init : Handshake → Env → Result InitSeals → Result (List ℕ) × Handshake
  send_init h env (ok s) =
      let (local_index, h₁) = inc_index h in
      let sent : HandshakeInitSentState = record {
        local_index = local_index;
        hash = s.chain.hash;
        chaining_key = s.chain.chaining_key;
        ephemeral_private = env.ephemeral;
        time_sent = env.now;
      } in
      let (bytes, h₂) =
        append_mac1_and_mac2 (record h₁ { previous = h₁.state; state = init_sent sent }) local_index
          (join (init_fields local_index (crypto.public_key env.ephemeral) s)) in
      (ok bytes, h₂)
  send_init h env (err e) = (err e, h)
  send_init h env panic = (panic, h)

  unfoldable pub format_handshake_initiation : Handshake → Env → ℕ → Result (List ℕ) × Handshake
  unfolding send_init
  format_handshake_initiation h env dst_len =
      if ltb dst_len handshake_init_sz
      then (err destination_buffer_too_small, h)
      else send_init h env (seal_init h.params env.ephemeral (stamp h.stamper env.now))

  -- The state that the response answers, and whether it is the previous one.
  abbrev pub matching : HandshakeState → ℕ → Option HandshakeInitSentState
  matching idle idx = none
  matching (init_sent s) idx = if s.local_index == idx then some s else none
  matching (init_received s) idx = none
  matching expired idx = none

  abbrev pub or_previous :
      Option HandshakeInitSentState
      → Option HandshakeInitSentState
      → Option (HandshakeInitSentState × Bool)
  or_previous (some s) o = some (s, false)
  or_previous none (some s) = some (s, true)
  or_previous none none = none

  unfoldable pub awaiting : Handshake → ℕ → Option (HandshakeInitSentState × Bool)
  awaiting h idx = or_previous (matching h.state idx) (matching h.previous idx)

  -- The chain of the response on the initiator's side, and the test of `encrypted_nothing`.
  unfoldable pub open_response :
      NoiseParams → HandshakeInitSentState → HandshakeResponse → Result SessionKeys
  open_response p s packet =
      let e = packet.unencrypted_ephemeral in
      let ck =
        response_chain crypto s.chaining_key e (crypto.diffie_hellman s.ephemeral_private e)
          (crypto.diffie_hellman p.static_private e) in
      let l = last_step crypto ck p.preshared_key in
      let hash = b2s_hash crypto (b2s_hash crypto s.hash e) l.temp2 in
      aead_chacha20_open crypto 0 l.key 0 packet.encrypted_nothing hash >>= λ nothing.
      ok (derive_keys crypto l.chaining_key)

  -- `as_millis() as u32` of the round trip.
  abbrev pub rtt : ℕ → ℕ → ℕ
  rtt now sent = (now - sent) / 1_000_000 % 2 ^ 32

  unfoldable pub finish_response :
      Handshake
      → Env
      → HandshakeResponse
      → HandshakeInitSentState
      → Bool
      → Result SessionKeys
      → Result Session × Handshake
  finish_response h env packet s is_previous (ok k) =
      let h₁ = record h { last_rtt = some (rtt env.now s.time_sent) } in
      (
        ok (new s.local_index packet.sender_idx k.receiving_key k.sending_key),
        if is_previous then record h₁ { previous = idle } else record h₁ { state = idle },
      )
  finish_response h env packet s is_previous (err e) = (err e, h)
  finish_response h env packet s is_previous panic = (panic, h)

  unfoldable pub receive_handshake_response :
      Handshake → Env → HandshakeResponse → Result Session × Handshake
  unfolding finish_response
  receive_handshake_response h env packet = elim (awaiting h packet.receiver_idx) [
    | none ↦ (err unexpected_packet, h)
    | some (s, is_previous) ↦
        finish_response h env packet s is_previous (open_response h.params s packet)
  ]
