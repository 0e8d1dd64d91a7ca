-- ===== src/Device/Index/Range.antt =====
-- The register keeps to 24 bits and off zero, and its step can be undone.
use Prim.Native.Nat.{bit_and, bit_xor}
use xelt_vpn.Prelude.{
  ℕ, ◌+◌, ◌-◌, ◌*◌, ◌/◌, ◌%◌, ◌^◌, ◌≤◌, ◌<◌, ◌≡◌, sym, ap, ◌∙◌, ◌⊎◌, inl, inr, Bool, true, false,
  Option, none, some, ◌==◌, if◌then◌else◌, arith,
}
use xelt_vpn.Prelude.Bits.{bit_and-one}
use xelt_vpn.Prelude.Xor.{bit_xor-lt, le-bit_xor, bit_xor-inj, bit_xor-nothing}
use xelt_vpn.Device.Index.{IndexLfsr, lfsr_poly, shifted, next}

-- A seed of the register.
pub record InRange (x : ℕ) : Type 0 where
  pub positive : 0 < x
  pub small : x < 2 ^ 24

parity : (x : ℕ) → (x % 2 ≡ 0) ⊎ (x % 2 ≡ 1)
parity x = ground arith

abbrev feedback : ℕ → ℕ
feedback low = bit_and ((2 ^ 32 - low) % 2 ^ 32) lfsr_poly

pub shifted-even : (x : ℕ) → x % 2 ≡ 0 → shifted x ≡ x / 2
unfolding shifted
shifted-even x e =
    ap (λ low. bit_xor (x / 2) (feedback low)) (bit_and-one x ∙ e) ∙ bit_xor-nothing (x / 2)

pub shifted-odd : (x : ℕ) → x % 2 ≡ 1 → shifted x ≡ bit_xor (x / 2) lfsr_poly
unfolding shifted
shifted-odd x e = ap (λ low. bit_xor (x / 2) (feedback low)) (bit_and-one x ∙ e)

odd-le : (x : ℕ) → x < 2 ^ 24 → 2 ^ 23 ≤ bit_xor (x / 2) lfsr_poly
odd-le x h = le-bit_xor 23 (x / 2) lfsr_poly (omega arith) (omega arith) (omega arith)

pub shifted-InRange : (x : ℕ) → InRange x → InRange (shifted x)
shifted-InRange x r = elim (parity x) [
  | inl e ↦
      rw (shifted-even x e)
        (record { positive = omega (arith, r.positive); small = omega (arith, r.small) })
  | inr e ↦ rw (shifted-odd x e) (record {
    positive = omega (arith, odd-le x r.small);
    small = bit_xor-lt 24 (x / 2) lfsr_poly (omega (arith, r.small)) (omega arith);
  })
]

-- Different states go to different states.
pub shifted-inj : (x y : ℕ) → InRange x → InRange y → shifted x ≡ shifted y → x ≡ y
shifted-inj x y r s e = elim (parity x) [
  | inl p ↦ elim (parity y) [
    | inl q ↦ omega (arith, p, q, e, shifted-even x p, shifted-even y q)
    | inr q ↦
        absurd (omega (arith, e, shifted-even x p, shifted-odd y q, odd-le y s.small, r.small))
  ]
  | inr p ↦ elim (parity y) [
    | inl q ↦
        absurd (omega (arith, e, shifted-odd x p, shifted-even y q, odd-le x r.small, s.small))
    | inr q ↦
        let same : x / 2 ≡ y / 2 =
          bit_xor-inj (x / 2) (y / 2) lfsr_poly (sym (shifted-odd x p) ∙ e ∙ shifted-odd y q) in
        omega (arith, p, q, same)
  ]
]

-- A generator whose seed, register and mask are of 24 bits.
pub record Seeded (g : IndexLfsr) : Type 0 where
  pub register : InRange g.lfsr
  pub mask_small : g.mask < 2 ^ 24

-- What a call of `next` gives: an index of 24 bits, which fits a 32-bit word with 8 bits to spare, and
-- a generator that is seeded again.
abbrev pub GivesIndex : Option (ℕ × IndexLfsr) → Type 0
GivesIndex none = Unit
GivesIndex (some (index, g)) = (index < 2 ^ 24) × (index * 256 + 255 < 2 ^ 32) × Seeded g

if-GivesIndex :
    (b : Bool) (o : Option (ℕ × IndexLfsr)) → GivesIndex o → GivesIndex (if b then none else o)
if-GivesIndex true o h = tt
if-GivesIndex false o h = h

-- A seeded generator gives indexes of 24 bits only, so an index with the 8 bits of its session fits a
-- `u32`, and it stays seeded.
pub next-GivesIndex : (g : IndexLfsr) → Seeded g → GivesIndex (next g)
unfolding next
next-GivesIndex g s =
    let small = bit_xor-lt 24 (g.lfsr - 1) g.mask (omega (arith, s.register.small)) s.mask_small in
    if-GivesIndex (shifted g.lfsr == g.initial)
      (some (bit_xor (g.lfsr - 1) g.mask, record g { lfsr = shifted g.lfsr }))
      (
        small,
        omega (arith, small),
        record { register = shifted-InRange g.lfsr s.register; mask_small = s.mask_small },
      )
