-- ===== src/Noise/Handshake/Agreement.antt =====
-- Two ends with each other's public keys complete a handshake and share its keys.
use xelt_vpn.Prelude.{
  ℕ, ◌+◌, ◌^◌, ◌<◌, ◌≡◌, refl, true, List, [], ◌++◌, Option, length, length-append, bytes_eq_self,
  eq→==, arith,
}
use xelt_vpn.Noise.Errors.{ok}
use xelt_vpn.Noise.Crypto.{Crypto, b2s_hash, aead_nonce, aead_chacha20_seal, aead_chacha20_open}
use xelt_vpn.Noise.Packet.{HandshakeInit, HandshakeResponse}
use xelt_vpn.Noise.Handshake.Timestamp.{Tai64N, parse, after}
use xelt_vpn.Noise.Handshake.Keys.{
  start_chain, advance, mix_key, last_step, response_chain, derive_keys,
}
use xelt_vpn.Noise.Handshake.Initiate.{InitSeals, seal_init, open_response}
use xelt_vpn.Noise.Handshake.Respond.{OpenedInit, ResponseSeal, open_init, seal_response}
use xelt_vpn.Noise.Handshake.{NoiseParams, HandshakeInitSentState, new_params}

module _ (crypto : Crypto) where
  -- What is sealed is opened under the same key, counter and associated data.
  pub open-seal :
      (k : List ℕ) (n : ℕ) (text ad : List ℕ)
      → length text < 2 ^ 32
      → (s : List ℕ) × (aead_chacha20_seal crypto k n text ad ≡ ok s)
        × (aead_chacha20_open crypto (length text) k n s ad ≡ ok text)
        × (length s ≡ length text + 16)
  unfolding aead_chacha20_seal aead_chacha20_open
  open-seal k n text ad h =
      let (c, t, e) = crypto.aead.seal-total k (aead_nonce n) ad text h in
      let l = crypto.aead.length-seal k (aead_nonce n) ad text e in
      (
        c ++ t,
        rw (e, aead_chacha20_seal),
        rw (crypto.aead.unseal-seal k (aead_nonce n) ad text e, aead_chacha20_open)
            (rw (eq→== (length text) (length text) refl)),
        omega (arith, l, length-append c t),
      )

  module _ (a b : List ℕ) (psk : Option (List ℕ)) where
    -- The initiator's parameters and the responder's.
    abbrev pub initiator : NoiseParams
    initiator = new_params crypto a (crypto.public_key a) (crypto.public_key b) psk

    abbrev pub responder : NoiseParams
    responder = new_params crypto b (crypto.public_key b) (crypto.public_key a) psk

    -- What the responder makes of an initiation whose seals are `s`.
    abbrev pub init_packet : ℕ → List ℕ → InitSeals → HandshakeInit
    init_packet idx ephemeral s = record {
      sender_idx = idx;
      unencrypted_ephemeral = crypto.public_key ephemeral;
      encrypted_static = s.encrypted_static;
      encrypted_timestamp = s.encrypted_timestamp;
    }

    abbrev pub opened : ℕ → List ℕ → List ℕ → InitSeals → OpenedInit
    opened idx ephemeral timestamp s = record {
      timestamp = parse timestamp;
      received = record {
        hash = s.chain.hash;
        chaining_key = s.chain.chaining_key;
        peer_ephemeral_public = crypto.public_key ephemeral;
        peer_index = idx;
      };
    }

    pub open-seal_init :
        (idx : ℕ) (ephemeral timestamp : List ℕ) (last : Tai64N)
        → length timestamp ≡ 12
        → after (parse timestamp) last ≡ true
        → (s : InitSeals) × (seal_init crypto initiator ephemeral timestamp ≡ ok s)
          × (open_init crypto responder last (init_packet idx ephemeral s)
              ≡ ok (opened idx ephemeral timestamp s))
          × (length s.encrypted_static ≡ 48)
          × (length s.encrypted_timestamp ≡ 28)
    unfolding seal_init open_init new_params
    open-seal_init idx e ts last len fresh =
        let c₀ = start_chain crypto (crypto.public_key b) (crypto.public_key e) in
        let x = crypto.diffie_hellman e (crypto.public_key b) in
        let pub_len = crypto.length-public_key a in
        let (es, q₁, o₁, l₁) =
          open-seal (mix_key crypto c₀.chaining_key x) 0 (crypto.public_key a) c₀.hash
            (omega arith) in
        let c₁ = advance crypto c₀ x es in
        let y = crypto.diffie_hellman a (crypto.public_key b) in
        let (et, q₂, o₂, l₂) =
          open-seal (mix_key crypto c₁.chaining_key y) 0 ts c₁.hash (omega arith) in
        (
          record {
            encrypted_static = es;
            encrypted_timestamp = et;
            chain = advance crypto c₁ y et;
          },
          rw (q₁, q₂),
          rw (crypto.diffie_hellman_comm b e, ← crypto.diffie_hellman_comm a b)
              (rw (rw pub_len at o₁, bytes_eq_self (crypto.public_key a), rw len at o₂, fresh)),
          omega arith,
          omega arith,
        )

    -- What the initiator keeps while it waits.
    abbrev pub waiting : ℕ → List ℕ → ℕ → InitSeals → HandshakeInitSentState
    waiting idx ephemeral now s = record {
      local_index = idx;
      hash = s.chain.hash;
      chaining_key = s.chain.chaining_key;
      ephemeral_private = ephemeral;
      time_sent = now;
    }

    abbrev pub response_packet : ℕ → ℕ → List ℕ → ResponseSeal crypto → HandshakeResponse
    response_packet sender receiver ephemeral r = record {
      sender_idx = sender;
      receiver_idx = receiver;
      unencrypted_ephemeral = crypto.public_key ephemeral;
      encrypted_nothing = r.encrypted_nothing;
    }

    pub open-seal_response :
        (idx now : ℕ) (e f timestamp : List ℕ) (s : InitSeals) (sender receiver : ℕ)
        → (r : ResponseSeal crypto) × (seal_response crypto responder f
              (opened idx e timestamp s).received
            ≡ ok r)
          × (open_response crypto initiator
                (waiting idx e now s)
                (response_packet sender receiver f r)
              ≡ ok r.keys)
          × (length r.encrypted_nothing ≡ 16)
    unfolding seal_response open_response new_params
    open-seal_response idx now e f ts s sender receiver =
        let g = crypto.public_key f in
        let ck =
          response_chain crypto s.chain.chaining_key g
            (crypto.diffie_hellman f (crypto.public_key e))
            (crypto.diffie_hellman f (crypto.public_key a)) in
        let l = last_step crypto ck psk in
        let hash = b2s_hash crypto (b2s_hash crypto s.chain.hash g) l.temp2 in
        let (n, q, o, len) = open-seal l.key 0 [] hash (omega arith) in
        (
          record { encrypted_nothing = n; keys = derive_keys crypto l.chaining_key },
          rw q,
          rw (crypto.diffie_hellman_comm e f, crypto.diffie_hellman_comm a f) (rw o),
          len,
        )
