-- ===== src/Noise/Tunn/Validate.antt =====
-- What `validate_decapsulated_packet` hands to the tunnel interface.
use xelt_vpn.Prelude.{
  ℕ, zero, suc, ap, inl, inr, ◌+◌, ◌/◌, ◌≤◌, ◌≡◌, ◌≢◌, refl, true, false, ◌&&◌, List, [], ◌∷◌, ◌++◌,
  ltb, leb, ◌==◌, length, take, drop, get_or, slice, from_be, Bool-cases, ltb→ge, arith,
}
use xelt_vpn.Noise.Errors.{invalid_packet}
use xelt_vpn.Noise.Outcome.{
  TunnResult, done, error, write_to_network, write_to_tunnel_v4, write_to_tunnel_v6, panicked,
}
use xelt_vpn.Noise.Tunn.Address.{length_and_source, is_v4, is_v6}
use xelt_vpn.Noise.Tunn.Inbound.{validate_decapsulated_packet}
use xelt_vpn.Noise.Tunn.{Tunn}

-- The bytes are the first part of the packet, as long as its header says.
pub record IsCut (packet bytes : List ℕ) (header_size said : ℕ) : Type 0 where
  pub rest : List ℕ
  pub whole : packet ≡ bytes ++ rest
  pub header_fits : header_size ≤ length packet
  pub length_said : length bytes ≡ said

-- A whole packet of IP version 4 or 6, as its header describes it.
abbrev pub IsWhole4 : List ℕ → Type 0
IsWhole4 packet =
    (get_or packet 0 0 / 16 ≡ 4)
    × (20 ≤ length packet)
    × (from_be (slice 2 4 packet) ≤ length packet)

abbrev pub IsWhole6 : List ℕ → Type 0
IsWhole6 packet =
    (get_or packet 0 0 / 16 ≡ 6)
    × (40 ≤ length packet)
    × (from_be (slice 4 6 packet) + 40 ≤ length packet)

-- What comes out for a packet, apart from the code: nothing for an empty one, an error for one that
-- is whole in neither version, and else a cut with the header's source address.
abbrev pub Faithful : List ℕ → TunnResult → Type 0
Faithful packet done = packet ≡ []
Faithful packet (error e) =
    (e ≡ invalid_packet) × (packet ≢ []) × (¬ (IsWhole4 packet)) × (¬ (IsWhole6 packet))
Faithful packet (write_to_network bytes) = ⊥
Faithful packet (write_to_tunnel_v4 bytes addr) =
    (get_or packet 0 0 / 16 ≡ 4)
    × IsCut packet bytes 20 (from_be (slice 2 4 packet))
    × (addr ≡ slice 12 16 packet)
Faithful packet (write_to_tunnel_v6 bytes addr) =
    (get_or packet 0 0 / 16 ≡ 6)
    × IsCut packet bytes 40 (from_be (slice 4 6 packet) + 40)
    × (addr ≡ slice 8 24 packet)
Faithful packet panicked = ⊥

take-drop : (n : ℕ) (xs : List ℕ) → xs ≡ take n xs ++ drop n xs
take-drop zero xs = refl
take-drop (suc n) [] = refl
take-drop (suc n) (x ∷ xs) = ap (◌∷◌ x) (take-drop n xs)

length-take_le : (n : ℕ) (xs : List ℕ) → n ≤ length xs → length (take n xs) ≡ n
length-take_le zero xs h = refl
length-take_le (suc n) [] h = absurd (omega arith)
length-take_le (suc n) (x ∷ xs) h = ap suc (length-take_le n xs (omega arith))

cut :
    (packet : List ℕ) (n k : ℕ)
    → k ≤ length packet
    → n ≤ length packet
    → IsCut packet (take n packet) k n
cut packet n k h l = record {
  rest = drop n packet;
  whole = take-drop n packet;
  header_fits = h;
  length_said = length-take_le n packet l;
}

is_header : (v k first n : ℕ) → (first / 16 == v && leb k n) ≡ true → (first / 16 ≡ v) × (k ≤ n)
is_header v k first n e = ground arith

no_header : (v k first n : ℕ) → (first / 16 == v && leb k n) ≡ false → (first / 16 ≡ v) → k ≤ n → ⊥
no_header v k first n e = ground arith

too_short : (n said : ℕ) → ltb n said ≡ true → said ≤ n → ⊥
too_short n said e h = ground arith

-- A packet that was decrypted goes to the tunnel interface as its first part, as long as its IP header
-- says, with the header's source address, exactly if the version is 4 or 6 and the header and what it
-- says are within the packet; an empty one gives nothing, and all else is an invalid packet.
pub validate-Faithful :
    (t : Tunn) (packet : List ℕ) → Faithful packet (validate_decapsulated_packet t packet).0
unfolding validate_decapsulated_packet length_and_source
validate-Faithful t [] = refl
validate-Faithful t (b ∷ bs) =
    let packet = b ∷ bs in
    let no4 : is_v4 b packet ≡ false → ¬ (IsWhole4 packet) =
      λ q x. no_header 4 20 b (length packet) q (x.0) (x.1) in
    elim (Bool-cases (is_v4 b packet)) [
      | inl q ↦
          let (v, k) = is_header 4 20 b (length packet) q in
          let n = from_be (slice 2 4 packet) in
          rw q (elim (Bool-cases (ltb (length packet) n)) [
            | inl r ↦ rw r (
              refl,
              (λ e. cc),
              (λ x. too_short (length packet) n r (x.2)),
              λ x. absurd (omega (arith, v, x.0)),
            )
            | inr r ↦ rw r (v, cut packet n 20 k (ltb→ge (length packet) n r), refl)
          ])
      | inr q ↦ elim (Bool-cases (is_v6 b packet)) [
        | inl q' ↦
            let (v, k) = is_header 6 40 b (length packet) q' in
            let n = from_be (slice 4 6 packet) + 40 in
            rw (q, q')
              (elim (Bool-cases (ltb (length packet) n)) [
                | inl r ↦ rw r (refl, (λ e. cc), no4 q, λ x. too_short (length packet) n r (x.2))
                | inr r ↦ rw r (v, cut packet n 40 k (ltb→ge (length packet) n r), refl)
              ])
        | inr q' ↦
            rw (q, q')
              (refl, (λ e. cc), no4 q, λ x. no_header 6 40 b (length packet) q' (x.0) (x.1))
      ]
    ]
