-- ===== src/Noise/Handshake/Exchange.antt =====
-- A whole handshake between two ends, from the bytes of the first message to the two sessions.
use xelt_vpn.Prelude.{
  ℕ, ◌^◌, ◌≤◌, ◌<◌, ◌≡◌, refl, ap, ◌∙◌, true, false, List, Option, some, length, eq→==, ge→ltb,
  arith,
}
use xelt_vpn.Prelude.Fields.{join}
use xelt_vpn.Noise.Errors.{ok}
use xelt_vpn.Noise.Crypto.{Crypto}
use xelt_vpn.Noise.Packet.{
  HandshakeInit, HandshakeResponse, handshake_init, handshake_response, parse_incoming_packet,
}
use xelt_vpn.Noise.Session.{Session, new}
use xelt_vpn.Noise.Handshake.Timestamp.{TimeStamper, stamp, parse, after}
use xelt_vpn.Noise.Handshake.Initiate.{
  InitSeals, seal_init, send_init, init_fields, format_handshake_initiation, append_mac1_and_mac2,
  receive_handshake_response, finish_response, open_response, awaiting,
}
use xelt_vpn.Noise.Handshake.Respond.{
  OpenedInit, ResponseSeal, open_init, seal_response, send_response, response_fields, respond_to,
  format_handshake_response, accept_init, receive_handshake_initialization,
}
use xelt_vpn.Noise.Handshake.Wire.{parse-init, parse-response, length-macs}
use xelt_vpn.Noise.Handshake.Agreement.{
  initiator, responder, init_packet, opened, waiting, response_packet, open-seal_init,
  open-seal_response,
}
use xelt_vpn.Noise.Handshake.{
  Env, Handshake, HandshakeInitSentState, idle, init_sent, inc_index, next_of,
}

next_of_small : (i : ℕ) → i < 2 ^ 32 → next_of i < 2 ^ 32
next_of_small i h = omega arith

length-stamp : (t : TimeStamper) (now : ℕ) → length (stamp t now) ≡ 12
unfolding stamp
length-stamp t now = refl

-- Each end sends under the key and to the index that the other receives under.
abbrev pub Crossed : Session → Session → Type 0
Crossed s t =
    (s.sender ≡ t.receiver)
    × (s.receiver ≡ t.sender)
    × (s.sending_index ≡ t.receiving_index)
    × (s.receiving_index ≡ t.sending_index)

module _ (crypto : Crypto) where
  -- The handshake as the initiator leaves it.
  abbrev initiated : Handshake → Env → InitSeals → Handshake
  initiated h env s = record h {
    next_index = next_of h.next_index;
    previous = h.state;
    state = init_sent (record {
      local_index = next_of h.next_index;
      hash = s.chain.hash;
      chaining_key = s.chain.chaining_key;
      ephemeral_private = env.ephemeral;
      time_sent = env.now;
    });
  }

  format_initiation_lem :
      (h : Handshake) (env : Env) (n : ℕ) (s : InitSeals)
      → 148 ≤ n
      → seal_init crypto h.params env.ephemeral (stamp h.stamper env.now) ≡ ok s
      → format_handshake_initiation crypto h env n ≡ (
          let idx = next_of h.next_index in
          let (bytes, h₁) =
            append_mac1_and_mac2 crypto
              (initiated h env s)
              idx
              (join (init_fields crypto idx (crypto.public_key env.ephemeral) s)) in
          (ok bytes, h₁))
  unfolding format_handshake_initiation send_init inc_index
  format_initiation_lem h env n s room e = rw (ge→ltb n 148 room, e) refl

  -- The responder's handshake, when it appends the MACs.
  abbrev answered : Handshake → OpenedInit → Handshake
  answered h o = record h {
    next_index = next_of h.next_index;
    last_handshake_timestamp = o.timestamp;
    previous = h.state;
    state = idle;
  }

  receive_initiation_lem :
      (h : Handshake) (env : Env) (n : ℕ) (p : HandshakeInit) (o : OpenedInit)
      (r : ResponseSeal crypto)
      → 92 ≤ n
      → open_init crypto h.params h.last_handshake_timestamp p ≡ ok o
      → seal_response crypto h.params env.ephemeral o.received ≡ ok r
      → (receive_handshake_initialization crypto h env p n).0 ≡ (
          let idx = next_of h.next_index in
          let (bytes, h₂) = append_mac1_and_mac2 crypto (answered h o) idx (
            join (
              response_fields crypto idx o.received.peer_index
                (crypto.public_key env.ephemeral)
                r.encrypted_nothing)) in
          ok (bytes, new idx o.received.peer_index r.keys.sending_key r.keys.receiving_key))
  unfolding receive_handshake_initialization accept_init format_handshake_response respond_to
      send_response inc_index
  receive_initiation_lem h env n p o r room e q = rw (e, ge→ltb n 92 room, q) refl

  awaiting_lem :
      (h : Handshake) (idx : ℕ) (w : HandshakeInitSentState)
      → h.state ≡ init_sent w
      → w.local_index ≡ idx
      → awaiting crypto h idx ≡ some (w, false)
  unfolding awaiting
  awaiting_lem h idx w q i = rw q (rw (eq→== _ _ i) refl)

  receive_response_lem :
      (h : Handshake) (env : Env) (p : HandshakeResponse) (w : HandshakeInitSentState)
      (r : ResponseSeal crypto)
      → h.state ≡ init_sent w
      → w.local_index ≡ p.receiver_idx
      → open_response crypto h.params w p ≡ ok r.keys
      → (receive_handshake_response crypto h env p).0
        ≡ ok (new w.local_index p.sender_idx r.keys.receiving_key r.keys.sending_key)
  unfolding receive_handshake_response finish_response
  receive_response_lem h env p w r q i e =
      rw (awaiting_lem h p.receiver_idx w q i, receive_handshake_response)
        (rw (e, finish_response) refl)

  -- The initiator `hi` formats a message that is parsed and answered by `hr`, whose answer is parsed and
  -- gives `hi` a session crossed with that of `hr`.
  abbrev pub Agreed : Handshake → Handshake → Env → Env → Env → ℕ → ℕ → Type 0
  Agreed hi hr env_i env_r env len_i len_r =
      (m n : List ℕ) × (p : HandshakeInit) × (q : HandshakeResponse) × (si sr : Session)
      × ((format_handshake_initiation crypto hi env_i len_i).0 ≡ ok m)
      × (parse_incoming_packet m ≡ ok (handshake_init p))
      × ((receive_handshake_initialization crypto hr env_r p len_r).0 ≡ ok (n, sr))
      × (parse_incoming_packet n ≡ ok (handshake_response q))
      × ((receive_handshake_response crypto (format_handshake_initiation crypto hi env_i len_i).1
            env q).0
          ≡ ok si)
      × Crossed si sr

  -- Two ends with each other's public keys and the same preshared key, or none at both, complete a
  -- handshake, whatever else their states hold: the message that one formats is parsed and answered by the other, whose answer is parsed and gives the first a
  -- session; of the two sessions each sends under the key and to the index that the other receives
  -- under. The conditions: the timestamp is later than the last that the responder saw, the buffers
  -- have room, and the counters of indices are 32-bit numbers.
  pub sessions_agree :
      (a b : List ℕ) (psk : Option (List ℕ)) (hi hr : Handshake) (env_i env_r env : Env)
      (len_i len_r : ℕ)
      → hi.params ≡ initiator crypto a b psk
      → hr.params ≡ responder crypto a b psk
      → 148 ≤ len_i
      → 92 ≤ len_r
      → hi.next_index < 2 ^ 32
      → hr.next_index < 2 ^ 32
      → after (parse (stamp hi.stamper env_i.now)) hr.last_handshake_timestamp ≡ true
      → Agreed hi hr env_i env_r env len_i len_r
  unfolding append_mac1_and_mac2 new
  sessions_agree a b psk hi hr env_i env_r env len_i len_r pi pr room_i room_r small_i small_r
        fresh =
      let i = next_of hi.next_index in
      let j = next_of hr.next_index in
      let e = env_i.ephemeral in
      let f = env_r.ephemeral in
      let ts = stamp hi.stamper env_i.now in
      let (s, qs, os, l₁, l₂) =
        open-seal_init crypto a b psk i e ts hr.last_handshake_timestamp
          (length-stamp hi.stamper env_i.now) fresh in
      let (r, qr, or, l₃) = open-seal_response crypto a b psk i env_i.now e f ts s j i in
      let p = init_packet crypto a b psk i e s in
      let q = response_packet crypto a b psk j i f r in
      let e₁ =
        format_initiation_lem hi env_i len_i s room_i (ap (λ x. seal_init crypto x e ts) pi ∙ qs) in
      let e₂ =
        receive_initiation_lem hr env_r len_r p (opened crypto a b psk i e ts s) r room_r
          (ap (λ x. open_init crypto x hr.last_handshake_timestamp p) pr ∙ os)
          (ap (λ x. seal_response crypto x f (opened crypto a b psk i e ts s).received) pr ∙ qr) in
      let (macs, k₁, w₁) =
        length-macs crypto (initiated hi env_i s) i
          (join (init_fields crypto i (crypto.public_key e) s)) in
      let (macs', k₂, w₂) =
        length-macs crypto (answered hr (opened crypto a b psk i e ts s)) j
          (join (response_fields crypto j i (crypto.public_key f) r.encrypted_nothing)) in
      (
        _,
        _,
        p,
        q,
        _,
        _,
        ap (λ x. x.0) e₁,
        ap parse_incoming_packet w₁
            ∙ parse-init crypto i (crypto.public_key e) s macs (next_of_small hi.next_index small_i)
                (crypto.length-public_key e) l₁ l₂ k₁,
        e₂,
        ap parse_incoming_packet w₂
            ∙ parse-response crypto j i (crypto.public_key f) r.encrypted_nothing macs'
                (next_of_small hr.next_index small_r) (next_of_small hi.next_index small_i)
                (crypto.length-public_key f) l₃ k₂,
        ap (λ x. (receive_handshake_response crypto x.1 env q).0) e₁
            ∙ receive_response_lem _ env q (waiting crypto a b psk i e env_i.now s) r refl refl (
                ap (λ x. open_response crypto x (waiting crypto a b psk i e env_i.now s) q) pi
                ∙ or),
        (refl, refl, refl, refl),
      )
