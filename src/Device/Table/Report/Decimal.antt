-- ===== src/Device/Table/Report/Decimal.antt =====
-- A number that is printed is read back.
use mathlib.Core.List.{append_assoc, append-nil}
use native.Mathlib.Nat.{pow-suc}
use xelt_vpn.Prelude.{
  ℕ, zero, suc, ◌+◌, ◌-◌, ◌*◌, ◌/◌, ◌%◌, ◌^◌, ◌<◌, ◌≤◌, ◌≡◌, refl, sym, ap, ◌∙◌, inl, inr, true,
  false, List, [], ◌∷◌, ◌++◌, some, ltb, leb, ◌==◌, Bool-cases, digits, ltb→lt, arith,
}
use xelt_vpn.Device.Api.Key.{parse_uint, parse_digits}

-- One more digit.
next_digit :
    (most a d : ℕ) (rest : List ℕ)
    → d < 10
    → a * 10 + d ≤ most
    → parse_digits most a ((48 + d) ∷ rest) ≡ parse_digits most (a * 10 + d) rest
unfolding parse_digits
next_digit most a d rest lt fits =
    let value : a * 10 + (48 + d - b'0') ≡ a * 10 + d = omega arith in
    let low : leb b'0' (48 + d) ≡ true = ground arith in
    let high : leb (48 + d) b'9' ≡ true = ground (arith, lt) in
    let bound : leb (a * 10 + d) most ≡ true = ground (arith, fits) in
    rw (value, low, high, bound) refl

parse_digits-digits :
    (most n x : ℕ) (rest : List ℕ)
    → x ≤ most
    → x < 10 ^ suc n
    → parse_digits most 0 (digits n x ++ rest) ≡ parse_digits most x rest
unfolding digits
parse_digits-digits most zero x rest fits lt =
    next_digit most 0 (x % 10) rest (omega arith) (omega (arith, lt, fits))
    ∙ ap (λ v. parse_digits most v rest) (omega (arith, lt))
parse_digits-digits most (suc n) x rest fits lt = elim (Bool-cases (ltb x 10)) [
  | inl q ↦ rw q (
      next_digit most 0 x rest (ltb→lt x 10 q) (omega (arith, fits))
      ∙ ap (λ v. parse_digits most v rest) {x = 0 * 10 + x} {y = x} (omega arith))
  | inr q ↦ rw q (
      ap (parse_digits most 0) (append_assoc (digits n (x / 10)) ((48 + x % 10) ∷ []) rest)
      ∙ parse_digits-digits most n (x / 10) ((48 + x % 10) ∷ rest) (omega (arith, fits))
          (omega (arith, lt, pow-suc 10 (suc n)))
      ∙ next_digit most (x / 10) (x % 10) rest (omega arith) (omega (arith, fits))
      ∙ ap (λ v. parse_digits most v rest) {x = x / 10 * 10 + x % 10} {y = x} (omega arith))
]

-- What is printed begins with a digit.
digits-head : (n x : ℕ) → (c : ℕ) × (cs : List ℕ) × (digits n x ≡ c ∷ cs) × (47 < c)
unfolding digits
digits-head zero x = (48 + x % 10, [], refl, omega arith)
digits-head (suc n) x = elim (Bool-cases (ltb x 10)) [
  | inl q ↦ rw q (48 + x, [], refl, omega arith)
  | inr q ↦
      let (c, cs, e, lt) = digits-head n (x / 10) in
      rw q (c, cs ++ ((48 + x % 10) ∷ []), ap (λ xs. xs ++ ((48 + x % 10) ∷ [])) e, lt)
]

unsigned :
    (most c : ℕ) (cs : List ℕ) → 47 < c → parse_uint most (c ∷ cs) ≡ parse_digits most 0 (c ∷ cs)
unsigned most c [] lt = let plain : (c == b'+') ≡ false = ground (arith, lt) in rw plain refl
unsigned most c (d ∷ cs) lt = let plain : (c == b'+') ≡ false = ground (arith, lt) in rw plain refl

pub parse_uint-digits :
    (most n x : ℕ) → x ≤ most → x < 10 ^ suc n → parse_uint most (digits n x) ≡ some x
unfolding parse_digits
parse_uint-digits most n x fits lt =
    let (c, cs, e, first) = digits-head n x in
    ap (parse_uint most) e
    ∙ unsigned most c cs first
    ∙ ap (parse_digits most 0) (sym e ∙ sym (append-nil (digits n x)))
    ∙ parse_digits-digits most n x [] fits lt
