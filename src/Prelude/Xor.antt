-- ===== src/Prelude/Xor.antt =====
-- `^` on numbers.
use Prim.Native.Nat.{
  ℕ, zero, suc, ◌+◌, ◌*◌, ◌/◌, ◌%◌, ◌^◌, ◌≤◌, ◌<◌, differ, bit_xor, bit_xor-bitwise,
}
use mathlib.Core.Path.{◌≡◌, refl, ap, sym, ◌∙◌}
use native.Mathlib.Nat.{le_refl, pow-succ'}
use native.Mathlib.Omega.{arith}
use xelt_vpn.Prelude.Bits.{digit, digit-lt, digit-zero, digit-digits, by_digits}

differ-lt : (x y : ℕ) → x < 2 → y < 2 → differ x y < 2
differ-lt zero y p q = q
differ-lt (suc zero) zero p q = p
differ-lt (suc zero) (suc y) p q = omega arith
differ-lt (suc (suc x)) y p q = absurd (omega arith)

digit-bit_xor : (k a b : ℕ) → digit k (bit_xor a b) ≡ differ (digit k a) (digit k b)
digit-bit_xor k a b =
    ap (digit k) (bit_xor-bitwise a b)
    ∙ digit-digits (λ y. y) differ (λ k b. refl) differ-lt a k a b (le_refl a)

pub bit_xor-double : (a b : ℕ) → bit_xor a b ≡ bit_xor (a / 2) (b / 2) * 2 + differ (a % 2) (b % 2)
bit_xor-double a b = by_digits _ _ (elim [
  | zero ↦ omega (arith, digit-bit_xor 0 a b, differ-lt (a % 2) (b % 2) (omega arith) (omega arith))
  | suc k ↦
      digit-bit_xor (suc k) a b
      ∙ sym (digit-bit_xor k (a / 2) (b / 2))
      ∙ ap (digit k) (omega (arith, differ-lt (a % 2) (b % 2) (omega arith) (omega arith)))
])

differ-nothing : (x : ℕ) → differ x 0 ≡ x
differ-nothing zero = refl
differ-nothing (suc x) = refl

pub bit_xor-nothing : (a : ℕ) → bit_xor a 0 ≡ a
bit_xor-nothing a =
    by_digits _ _ (λ k.
      digit-bit_xor k a 0 ∙ ap (differ (digit k a)) (digit-zero k) ∙ differ-nothing (digit k a))

pub bit_xor-lt : (n a b : ℕ) → a < 2 ^ n → b < 2 ^ n → bit_xor a b < 2 ^ n
bit_xor-lt zero a b p q = omega (
  arith,
  ap (λ x. bit_xor x b) {x = a} {y = 0} (omega arith),
  ap (bit_xor 0) {x = b} {y = 0} (omega arith),
)
bit_xor-lt (suc n) a b p q =
    let e = pow-succ' 2 n in
    omega (
      arith,
      e,
      bit_xor-double a b,
      differ-lt (a % 2) (b % 2) (omega arith) (omega arith),
      bit_xor-lt n (a / 2) (b / 2) (omega (arith, e)) (omega (arith, e)),
    )

-- The top digit of one side stays.
pub le-bit_xor : (n a b : ℕ) → a < 2 ^ n → 2 ^ n ≤ b → b < 2 ^ suc n → 2 ^ n ≤ bit_xor a b
le-bit_xor zero a b p q r = omega (
  arith,
  pow-succ' 2 0,
  ap (λ x. bit_xor x b) {x = a} {y = 0} (omega arith),
  ap (bit_xor 0) {x = b} {y = 1} (omega (arith, pow-succ' 2 0)),
)
le-bit_xor (suc n) a b p q r =
    let e = pow-succ' 2 n in
    let e' = pow-succ' 2 (suc n) in
    omega (
      arith,
      e,
      e',
      bit_xor-double a b,
      le-bit_xor n (a / 2) (b / 2) (omega (arith, e)) (omega (arith, e)) (omega (arith, e, e')),
    )

differ-twice : (x y : ℕ) → x < 2 → y < 2 → differ (differ x y) y ≡ x
differ-twice zero zero p q = refl
differ-twice zero (suc zero) p q = refl
differ-twice (suc zero) zero p q = refl
differ-twice (suc zero) (suc zero) p q = refl
differ-twice (suc (suc x)) y p q = absurd (omega arith)
differ-twice x (suc (suc y)) p q = absurd (omega arith)

bit_xor-twice : (a b : ℕ) → bit_xor (bit_xor a b) b ≡ a
bit_xor-twice a b = by_digits _ _ (λ k.
    digit-bit_xor k (bit_xor a b) b
    ∙ ap (λ d. differ d (digit k b)) (digit-bit_xor k a b)
    ∙ differ-twice (digit k a) (digit k b) (digit-lt k a) (digit-lt k b))

pub bit_xor-inj : (a b m : ℕ) → bit_xor a m ≡ bit_xor b m → a ≡ b
bit_xor-inj a b m e = sym (bit_xor-twice a m) ∙ ap (λ x. bit_xor x m) e ∙ bit_xor-twice b m
