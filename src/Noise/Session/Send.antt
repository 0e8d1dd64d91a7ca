-- ===== src/Noise/Session/Send.antt =====
-- `format_packet_data`: the packet that it writes is read back by the parser, and opened by the peer.
use xelt_vpn.Prelude.{
  ℕ, ◌+◌, ◌^◌, ◌≤◌, ◌<◌, ◌≡◌, ap, sym, subst, eq→==, ◌∙◌, inl, inr, true, List, [], ◌++◌, some, ltb,
  length, length-append, from_le-to_le, Option-cases, Bool-cases, ltb→ge, arith,
}
use xelt_vpn.Noise.Errors.{ok}
use xelt_vpn.Noise.Aead.{Aead}
use xelt_vpn.Noise.Packet.{
  PacketData, packet_data, parse_incoming_packet, parse_typed, data_overhead_sz,
}
use xelt_vpn.Noise.Session.Window.{n_bits, u64_mod}
use xelt_vpn.Noise.Session.Window.History.{accepts}
use xelt_vpn.Noise.Session.{
  Session, header, seal_packet, format_packet_data, receive_packet_data, nonce_of,
}
use xelt_vpn.Noise.Session.Receive.{Holds, delivered, receive_refines}

-- The packet that the sender means.
abbrev pub sent : Session → List ℕ → PacketData
sent s body = record {
  receiver_idx = s.sending_index;
  counter = s.sending_key_counter;
  encrypted_encapsulated_packet = body;
}

parse-header :
    (s : Session) (body : List ℕ)
    → s.sending_index < 2 ^ 32
    → s.sending_key_counter < u64_mod
    → 16 ≤ length body
    → parse_incoming_packet (header s ++ body) ≡ ok (packet_data (sent s body))
unfolding parse_incoming_packet parse_typed
parse-header s body hi hc hl = ground (
  arith,
  from_le-to_le 4 s.sending_index (omega arith),
  from_le-to_le 8 s.sending_key_counter (omega arith),
)

ok_injective : {x y : List ℕ} → ok x ≡ ok y → x ≡ y
ok_injective e = cc

module _ (aead : Aead) where
  -- What a packet of `format_packet_data` is made of.
  record Formatted (s : Session) (src : List ℕ) (n : ℕ) (bytes : List ℕ) : Type 0 where
    pub cipher : List ℕ
    pub tag : List ℕ
    pub sealed : aead.seal s.sender (nonce_of s.sending_key_counter) [] src ≡ some (cipher, tag)
    pub layout : bytes ≡ header s ++ (cipher ++ tag)
    pub body_length : length (cipher ++ tag) ≡ length src + 16
    pub room : length bytes ≤ n

  format-Formatted :
      (s : Session) (src : List ℕ) (n : ℕ) {bytes : List ℕ}
      → (format_packet_data aead s src n).0 ≡ ok bytes
      → Formatted s src n bytes
  unfolding format_packet_data seal_packet
  format-Formatted s src n {bytes} e = elim (Bool-cases (ltb n (length src + data_overhead_sz))) [
    | inl short ↦ cc (rw short at e)
    | inr room ↦ elim (Option-cases (aead.seal s.sender (nonce_of s.sending_key_counter) [] src)) [
      | inl q ↦ cc (rw (room, q, seal_packet) at e)
      | inr ((c, t), q) ↦
          let sizes = aead.length-seal s.sender (nonce_of s.sending_key_counter) [] src q in
          let body : length (c ++ t) ≡ length src + 16 = omega (arith, length-append c t, sizes) in
          let written = ok_injective (rw (room, q, seal_packet) at e) in
          record {
            cipher = c;
            tag = t;
            sealed = q;
            layout = sym written;
            body_length = body;
            room = rw (← written) (omega (arith, ltb→ge n _ room));
          }
    ]
  ]

  -- A packet that one end formats is parsed by the other as a data packet and, where the two ends
  -- share the key and the index and the counter is acceptable there, opened to the text that was
  -- sent, in a buffer as long as the packet.
  pub receive-format :
      (a b : Session) (h src : List ℕ) (n m : ℕ) {bytes : List ℕ}
      → a.sender ≡ b.receiver
      → a.sending_index ≡ b.receiving_index
      → a.sending_index < 2 ^ 32
      → a.sending_key_counter + n_bits < u64_mod
      → Holds b h
      → accepts h a.sending_key_counter ≡ true
      → (format_packet_data aead a src n).0 ≡ ok bytes
      → length bytes ≤ m
      → (p : PacketData) × (parse_incoming_packet bytes ≡ ok (packet_data p))
        × (delivered (receive_packet_data aead b p m).0 ≡ some src)
  receive-format a b h src n m {bytes} key index small counter v new e fits =
      let f = format-Formatted a src n e in
      let body = f.cipher ++ f.tag in
      (
        sent a body,
        ap parse_incoming_packet f.layout
            ∙ parse-header a body small (omega arith) (omega (arith, f.body_length)),
        (receive_refines aead b h (sent a body) m v counter
              (omega (arith, f.body_length, ap length f.layout))).0
            ∙ rw (eq→== _ _ index, new)
                (subst (λ k. aead.unseal k (nonce_of a.sending_key_counter) [] body ≡ some src) key
                  (aead.unseal-seal a.sender (nonce_of a.sending_key_counter) [] src f.sealed)),
      )
