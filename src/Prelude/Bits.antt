-- ===== src/Prelude/Bits.antt =====
-- The binary digits of a number under `|`, `&`, `>>` and `1 << k`, for 64-bit words.
use Prim.Native.Nat.{
  ℕ, zero, suc, ◌+◌, ◌-◌, ◌*◌, ◌/◌, ◌%◌, ◌^◌, ◌≤◌, ◌<◌, min, max, bit_and, bit_or, digits,
  bit_and-bitwise, bit_or-bitwise,
}
use mathlib.Core.Path.{◌≡◌, refl, ap, sym, ◌∙◌}
use native.Mathlib.Nat.{le_refl, div-div-eq-div-mul, pow-succ', one-le-pow, pow-le-pow_right}
use native.Mathlib.Omega.{arith}
use xelt_vpn.Prelude.Tests.{◌==◌, if◌then◌else◌}

-- The digit of weight `2 ^ k`.
abbrev pub digit : ℕ → ℕ → ℕ
digit zero w = w % 2
digit (suc k) w = digit k (w / 2)

pub digit-shift : (k w : ℕ) → (w / 2 ^ k) % 2 ≡ digit k w
digit-shift zero w = omega arith
digit-shift (suc k) w =
    ap (λ t. t % 2) (ap (λ t. w / t) (pow-succ' 2 k) ∙ sym (div-div-eq-div-mul w 2 (2 ^ k)))
    ∙ digit-shift k (w / 2)

pub digit-lt : (k w : ℕ) → digit k w < 2
digit-lt zero w = omega arith
digit-lt (suc k) w = digit-lt k (w / 2)

pub digit-zero : (k : ℕ) → digit k 0 ≡ 0
digit-zero zero = refl
digit-zero (suc k) = digit-zero k

-- Numbers with the same digits are equal.
same_digits : (n a b : ℕ) → a ≤ n → b ≤ n → ((k : ℕ) → digit k a ≡ digit k b) → a ≡ b
same_digits zero a b p q e = omega arith
same_digits (suc n) a b p q e =
    omega (arith, e 0, same_digits n (a / 2) (b / 2) (omega arith) (omega arith) (λ k. e (suc k)))

-- An operation that works digit by digit, with `z` for what it makes of 0 on the left.
module _ (z : ℕ → ℕ) (f : ℕ → ℕ → ℕ) (z_law : (k b : ℕ) → digit k (z b) ≡ f 0 (digit k b))
    (bound : (x y : ℕ) → x < 2 → y < 2 → f x y < 2) where
  of_zero : (k b : ℕ) → digit k (z b) ≡ f (digit k 0) (digit k b)
  of_zero k b = z_law k b ∙ ap (λ t. f t (digit k b)) (sym (digit-zero k))

  -- With at least as much fuel as the left number.
  pub digit-digits : (n k a b : ℕ) → a ≤ n → digit k (digits z f n a b) ≡ f (digit k a) (digit k b)
  digit-digits zero k zero b h = of_zero k b
  digit-digits zero k (suc a) b h = absurd (omega arith)
  digit-digits (suc n) k zero b h = of_zero k b
  digit-digits (suc n) zero (suc a) b h =
      omega (arith, bound (suc a % 2) (b % 2) (omega arith) (omega arith))
  digit-digits (suc n) (suc k) (suc a) b h =
      let low = bound (suc a % 2) (b % 2) (omega arith) (omega arith) in
      ap (digit k) (omega (arith, low)) ∙ digit-digits n k (suc a / 2) (b / 2) (omega arith)

pub digit-bit_or : (k a b : ℕ) → digit k (bit_or a b) ≡ max (digit k a) (digit k b)
digit-bit_or k a b =
    ap (digit k) (bit_or-bitwise a b)
    ∙ digit-digits (λ y. y) max (λ k b. omega arith) (λ x y p q. omega arith) a k a b (le_refl a)

pub digit-bit_and : (k a b : ℕ) → digit k (bit_and a b) ≡ min (digit k a) (digit k b)
digit-bit_and k a b =
    ap (digit k) (bit_and-bitwise a b)
    ∙ digit-digits (λ y. 0) min (λ k b. omega (arith, digit-zero k)) (λ x y p q. omega arith) a k a
        b (le_refl a)

-- A number from its digits.
pub by_digits : (a b : ℕ) → ((k : ℕ) → digit k a ≡ digit k b) → a ≡ b
by_digits a b = same_digits (a + b) a b (omega arith) (omega arith)

bit_and-double : (a b : ℕ) → bit_and a b ≡ bit_and (a / 2) (b / 2) * 2 + min (a % 2) (b % 2)
bit_and-double a b = by_digits _ _ (elim [
  | zero ↦ omega (arith, digit-bit_and 0 a b)
  | suc k ↦
      digit-bit_and (suc k) a b ∙ sym (digit-bit_and k (a / 2) (b / 2)) ∙ ap (digit k) (omega arith)
])

bit_and-nothing : (a : ℕ) → bit_and a 0 ≡ 0
bit_and-nothing a = by_digits _ _ (λ k. omega (arith, digit-bit_and k a 0, digit-zero k))

pub bit_and-one : (a : ℕ) → bit_and a 1 ≡ a % 2
bit_and-one a = omega (arith, bit_and-double a 1, bit_and-nothing (a / 2))

-- `k` low ones keep a number of at most `k` digits.
bit_and-ones : (k a : ℕ) → a < 2 ^ k → bit_and a (2 ^ k - 1) ≡ a
bit_and-ones zero a h = omega (arith, bit_and-nothing a)
bit_and-ones (suc k) a h =
    let p = pow-succ' 2 k in
    let half : (2 ^ suc k - 1) / 2 ≡ 2 ^ k - 1 = omega (arith, p) in
    bit_and-double a (2 ^ suc k - 1)
    ∙ ap (λ t. bit_and (a / 2) t * 2 + min (a % 2) ((2 ^ suc k - 1) % 2)) half
    ∙ omega (arith, bit_and-ones k (a / 2) (omega (arith, p)), p, one-le-pow k 2)

-- The digits of `1 << b`.
digit-power : (b k : ℕ) → digit k (2 ^ b) ≡ (if k == b then 1 else 0)
digit-power zero zero = refl
digit-power zero (suc k) = digit-zero k ∙ ground arith
digit-power (suc b) zero = ground (arith, pow-succ' 2 b)
digit-power (suc b) (suc k) =
    ap (digit k) (omega (arith, pow-succ' 2 b)) ∙ digit-power b k ∙ ground arith

pub digit-one : (b k : ℕ) → b < 64 → k < 64 → digit k (2 ^ b) ≡ (if k == b then 1 else 0)
digit-one b k hb hk = digit-power b k

digit-ones : (n k : ℕ) → k < n → digit k (2 ^ n - 1) ≡ 1
digit-ones zero k h = absurd (omega arith)
digit-ones (suc n) zero h = omega (arith, pow-succ' 2 n, one-le-pow n 2)
digit-ones (suc n) (suc k) h =
    ap (digit k) (omega (arith, pow-succ' 2 n)) ∙ digit-ones n k (omega arith)

-- The digits of an `n`-bit word with all ones but one.
digit-ones_but :
    (n b k : ℕ) → b < n → k < n → digit k (2 ^ n - 1 - 2 ^ b) ≡ (if k == b then 0 else 1)
digit-ones_but zero b k hb hk = absurd (omega arith)
digit-ones_but (suc n) zero zero hb hk = omega (arith, pow-succ' 2 n, one-le-pow n 2)
digit-ones_but (suc n) zero (suc k) hb hk =
    ap (digit k) (omega (arith, pow-succ' 2 n, one-le-pow n 2))
    ∙ digit-ones n k (omega arith)
    ∙ ground arith
digit-ones_but (suc n) (suc b) zero hb hk =
    let wide = pow-le-pow_right {n = 2} (omega arith) {i = suc b} {j = n} (omega arith) in
    ground (arith, pow-succ' 2 n, pow-succ' 2 b, wide, one-le-pow b 2)
digit-ones_but (suc n) (suc b) (suc k) hb hk =
    ap (digit k) (omega (arith, pow-succ' 2 n, pow-succ' 2 b))
    ∙ digit-ones_but n b k (omega arith) (omega arith)
    ∙ ground arith

-- The digits of `!(1u64 << b)`.
pub digit-not_one :
    (b k : ℕ) → b < 64 → k < 64 → digit k (2 ^ 64 - 1 - 2 ^ b) ≡ (if k == b then 0 else 1)
digit-not_one b k hb hk = digit-ones_but 64 b k hb hk

-- `x & -64` for a 64-bit `x`: down to a multiple of 64.
pub bit_and-align : (x : ℕ) → x < 2 ^ 64 → bit_and x (2 ^ 64 - 64) ≡ x / 64 * 64
bit_and-align x h = omega (
  arith,
  bit_and-double x (2 ^ 64 - 64),
  bit_and-double (x / 2) (2 ^ 63 - 32),
  bit_and-double (x / 2 / 2) (2 ^ 62 - 16),
  bit_and-double (x / 2 / 2 / 2) (2 ^ 61 - 8),
  bit_and-double (x / 2 / 2 / 2 / 2) (2 ^ 60 - 4),
  bit_and-double (x / 2 / 2 / 2 / 2 / 2) (2 ^ 59 - 2),
  bit_and-ones 58 (x / 2 / 2 / 2 / 2 / 2 / 2) (omega arith),
)
