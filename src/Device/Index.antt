-- ===== src/Device/Index.antt =====
-- `IndexLfsr` of protocol/boringtun/src/device/mod.rs: the indexes of peers.
pub mod Range
pub mod Distinct
mod Tests
use Prim.Native.Nat.{bit_and, bit_xor}
use mathlib.Core.Option.{bind}
use xelt_vpn.Prelude.{
  ℕ, zero, suc, ◌+◌, ◌-◌, ◌/◌, ◌%◌, ◌^◌, Bool, List, [], ◌∷◌, Option, none, some, ◌==◌,
  if◌then◌else◌,
}

pub record IndexLfsr : Type 0 where
  pub initial : ℕ
  pub lfsr : ℕ
  pub mask : ℕ

abbrev pub lfsr_max : ℕ
lfsr_max = 0xffffff

abbrev pub lfsr_poly : ℕ
lfsr_poly = 0xd80000

-- `random_index` draws words until one is not zero in its low 24 bits, on fuel.
unfoldable pub random_index : ℕ → (ℕ → ℕ) → Option ℕ
random_index zero draws = none
random_index (suc fuel) draws =
    let rest = random_index fuel (λ i. draws (i + 1)) in
    let i = bit_and (draws 0) lfsr_max in if i == 0 then rest else some i

abbrev pub default_lfsr : ℕ → ℕ → IndexLfsr
default_lfsr seed mask = record { initial = seed; lfsr = seed; mask = mask }

-- `(self.lfsr >> 1) ^ (0u32.wrapping_sub(self.lfsr & 1) & LFSR_POLY)`.
unfoldable pub shifted : ℕ → ℕ
shifted lfsr = bit_xor (lfsr / 2) (bit_and ((2 ^ 32 - bit_and lfsr 1) % 2 ^ 32) lfsr_poly)

-- `none` is the failed assertion. Once the register is back at its start no index is left.
unfoldable pub next : IndexLfsr → Option (ℕ × IndexLfsr)
next g =
    let value = g.lfsr - 1 in
    let lfsr = shifted g.lfsr in
    if lfsr == g.initial then none else some (bit_xor value g.mask, record g { lfsr = lfsr })

-- The indexes of `n` calls.
unfoldable pub nexts : ℕ → IndexLfsr → Option (List ℕ)
nexts zero g = some []
nexts (suc n) g = bind (next g) (λ r. bind (nexts n r.1) (λ rest. some (r.0 ∷ rest)))
