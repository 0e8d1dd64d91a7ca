-- ===== src/Noise/Packet/Shape.antt =====
-- What a parsed packet holds.
use xelt_vpn.Prelude.{
  ℕ, ◌+◌, ◌≤◌, ◌-◌, ◌≡◌, refl, subst, ◌&&◌, inl, inr, List, ltb, leb, ◌==◌, length, slice, drop,
  length-drop, length-take, from_le, Bool-cases, arith,
}
use xelt_vpn.Noise.Errors.{Result, ok, err, panic}
use xelt_vpn.Noise.Packet.{
  Packet, handshake_init, handshake_response, packet_cookie_reply, packet_data, parse_typed,
  parse_incoming_packet, handshake_init_sz, handshake_resp_sz, cookie_reply_sz, data_overhead_sz,
  handshake_init_type, handshake_resp_type, cookie_reply_type, data_type,
}

pub length-slice : (a b : ℕ) (xs : List ℕ) → a ≤ b → b ≤ length xs → length (slice a b xs) + a ≡ b
length-slice a b xs h k =
    omega (arith, length-take (b - a) (drop a xs) (omega (arith, length-drop a xs)))

-- The sizes of the fields of a message that is `n` bytes long.
abbrev pub HasShape : ℕ → Packet → Type 0
HasShape n (handshake_init p) =
    (n ≡ handshake_init_sz)
    × (length p.unencrypted_ephemeral ≡ 32)
    × (length p.encrypted_static ≡ 48)
    × (length p.encrypted_timestamp ≡ 28)
HasShape n (handshake_response p) =
    (n ≡ handshake_resp_sz)
    × (length p.unencrypted_ephemeral ≡ 32)
    × (length p.encrypted_nothing ≡ 16)
HasShape n (packet_cookie_reply p) =
    (n ≡ cookie_reply_sz) × (length p.nonce ≡ 24) × (length p.encrypted_cookie ≡ 32)
HasShape n (packet_data p) =
    (data_overhead_sz ≤ n) × (length p.encrypted_encapsulated_packet + 16 ≡ n)

-- The same of a result: an error holds nothing.
abbrev Fits : ℕ → Result Packet → Type 0
Fits n (ok p) = HasShape n p
Fits n (err e) = Unit
Fits n panic = Unit

slice_sized : (a b k : ℕ) (xs : List ℕ) → b ≡ a + k → b ≤ length xs → length (slice a b xs) ≡ k
slice_sized a b k xs e h = omega (arith, length-slice a b xs (omega arith) h)

parse_typed-Fits : (t : ℕ) (src : List ℕ) → Fits (length src) (parse_typed t src)
unfolding parse_typed
parse_typed-Fits t src =
    elim (Bool-cases (t == handshake_init_type && length src == handshake_init_sz)) [
      | inl e ↦
          let n : length src ≡ 148 = ground arith in
          rw (e, parse_typed)
            (
              n,
              slice_sized 8 40 32 src refl (omega arith),
              slice_sized 40 88 48 src refl (omega arith),
              slice_sized 88 116 28 src refl (omega arith),
            )
      | inr e₁ ↦ elim (Bool-cases (t == handshake_resp_type && length src == handshake_resp_sz)) [
        | inl e ↦
            let n : length src ≡ 92 = ground arith in
            rw (e₁, e, parse_typed)
              (
                n,
                slice_sized 12 44 32 src refl (omega arith),
                slice_sized 44 60 16 src refl (omega arith),
              )
        | inr e₂ ↦ elim (Bool-cases (t == cookie_reply_type && length src == cookie_reply_sz)) [
          | inl e ↦
              let n : length src ≡ 64 = ground arith in
              rw (e₁, e₂, e, parse_typed)
                (
                  n,
                  slice_sized 8 32 24 src refl (omega arith),
                  slice_sized 32 64 32 src refl (omega arith),
                )
          | inr e₃ ↦ elim (Bool-cases (t == data_type && leb data_overhead_sz (length src))) [
            | inl e ↦
                let n : 32 ≤ length src = ground arith in
                rw (e₁, e₂, e₃, e, parse_typed) (n, omega (arith, length-drop 16 src))
            | inr e₄ ↦ rw (e₁, e₂, e₃, e₄, parse_typed) tt
          ]
        ]
      ]
    ]

-- A packet that `parse_incoming_packet` accepts has the length of its type, a data packet at least
-- 32 bytes, and every field its fixed size.
parse-HasShape :
    (src : List ℕ) (p : Packet) → parse_incoming_packet src ≡ ok p → HasShape (length src) p
unfolding parse_incoming_packet
parse-HasShape src p e = elim (Bool-cases (ltb (length src) 4)) [
  | inl short ↦ cc
  | inr long ↦
      subst (Fits (length src)) (rw long at e) (parse_typed-Fits (from_le (slice 0 4 src)) src)
]
