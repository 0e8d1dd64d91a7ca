-- ===== src/Payment/Signal/Checksum.antt =====
-- The IP header checksum.
use xelt_vpn.Prelude.{
  ℕ, ◌+◌, ◌-◌, ◌*◌, ◌/◌, ◌%◌, ◌^◌, ◌<◌, ◌≡◌, refl, ◌∙◌, List, [], ◌∷◌, to_be, arith,
}
use xelt_vpn.Payment.Signal.{sum_words, fold_carries, ip_checksum, ip_header}

-- Three rounds end the loop for any 32-bit sum, with the sum's residue modulo 65535.
pub fold_carries_enough :
    (sum : ℕ)
    → sum < 2 ^ 32
    → (fold_carries 3 sum < 2 ^ 16) × (fold_carries 3 sum % 65535 ≡ sum % 65535)
unfolding fold_carries
fold_carries_enough sum h = ground arith

-- The sum of ten bytes pairs.
fold_carries_complement :
    (sum : ℕ) → 0 < sum → sum < 2 ^ 20 → fold_carries 3 (sum + (65535 - fold_carries 3 sum)) ≡ 65535
unfolding fold_carries
fold_carries_complement sum h k = ground arith

-- The sum without the wrap.
abbrev words : List ℕ → ℕ
words [] = 0
words (a ∷ []) = a * 256
words (a ∷ b ∷ rest) = a * 256 + b + words rest

sum_words-eq-words :
    (sum : ℕ) (xs : List ℕ) → sum + words xs < 2 ^ 32 → sum_words sum xs ≡ sum + words xs
unfolding sum_words
sum_words-eq-words sum [] h = omega arith
sum_words-eq-words sum (a ∷ []) h = omega arith
sum_words-eq-words sum (a ∷ b ∷ rest) h =
    let e : (sum + (a * 256 + b)) % 2 ^ 32 ≡ sum + (a * 256 + b) = omega arith in
    rw e (omega (arith, sum_words-eq-words (sum + (a * 256 + b)) rest (omega arith)))

-- Octets of an IPv4 address.
pub record IsIpv4 (ip : List ℕ) : Type 0 where
  pub octet₀ : ℕ
  pub octet₁ : ℕ
  pub octet₂ : ℕ
  pub octet₃ : ℕ
  pub octets : ip ≡ octet₀ ∷ octet₁ ∷ octet₂ ∷ octet₃ ∷ []
  pub small₀ : octet₀ < 256
  pub small₁ : octet₁ < 256
  pub small₂ : octet₂ < 256
  pub small₃ : octet₃ < 256

module _ (t : ℕ) (src dst : List ℕ) (p : IsIpv4 src) (q : IsIpv4 dst) where
  -- The sum of the header with no checksum in it.
  base : ℕ
  base =
      17664
      + (t / 256 % 256 * 256 + t % 256)
      + 16384
      + 16401
      + (p.octet₀ * 256 + p.octet₁)
      + (p.octet₂ * 256 + p.octet₃)
      + (q.octet₀ * 256 + q.octet₁)
      + (q.octet₂ * 256 + q.octet₃)

  base_bounds : (0 < base) × (base + 65536 < 2 ^ 20)
  unfolding base
  base_bounds =
      omega (arith, p.small₀, p.small₁, p.small₂, p.small₃, q.small₀, q.small₁, q.small₂, q.small₃)

  sum-header :
      (hi lo : ℕ)
      → hi < 256
      → lo < 256
      → sum_words 0 (ip_header t (hi ∷ lo ∷ []) src dst) ≡ base + (hi * 256 + lo)
  unfolding base
  sum-header hi lo h k =
      let w : words (ip_header t (hi ∷ lo ∷ []) src dst) ≡ base + (hi * 256 + lo) =
        rw (p.octets, q.octets) (omega arith) in
      let b = base_bounds in
      sum_words-eq-words 0 (ip_header t (hi ∷ lo ∷ []) src dst) (omega (arith, w, b))
      ∙ omega (arith, w)

  -- A receiver's test of a header that `build_signal_packet` writes: with the checksum in its place,
  -- the checksum of the header comes out as 0.
  pub ip_checksum_valid :
      ip_checksum (ip_header t (to_be 2 (ip_checksum (ip_header t (0 ∷ 0 ∷ []) src dst))) src dst)
      ≡ 0
  unfolding ip_checksum
  ip_checksum_valid =
      let b = base_bounds in
      let e = sum-header 0 0 (omega arith) (omega arith) in
      let z : base + (0 * 256 + 0) ≡ base = omega arith in
      let f = fold_carries_enough base (omega (arith, b)) in
      let ck : ℕ = 65535 - fold_carries 3 base in
      let c = fold_carries_complement base b.0 (omega (arith, b)) in
      let k : 2 ^ 16 - 1 - fold_carries 3 base % 2 ^ 16 ≡ ck = omega (arith, f) in
      let g = sum-header (ck / 256 % 256) (ck % 256) (omega arith) (omega arith) in
      let j : base + (ck / 256 % 256 * 256 + ck % 256) ≡ base + ck = omega arith in
      rw (e, z, k, g, j, c) refl
