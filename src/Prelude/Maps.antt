-- ===== src/Prelude/Maps.antt =====
-- `HashSet` and `HashMap` as lists: a set holds each element once, a map has one entry for a key.
use Prim.Native.Nat.{ℕ, ◌+◌, ◌≤◌}
use mathlib.Core.Path.{◌≡◌, refl, subst}
use mathlib.Core.Logic.{inl, inr}
use mathlib.Core.Bool.{Bool, true, false, ◌||◌}
use mathlib.Core.List.{List, [], ◌∷◌}
use mathlib.Core.Option.{Option, none, some}
use native.Mathlib.Omega.{arith}
use xelt_vpn.Prelude.Lists.{length}
use xelt_vpn.Prelude.Tests.{◌==◌, if◌then◌else◌, bytes_eq, bytes_eq→eq, bytes_eq_self, Bool-cases}

-- Sets of numbers.
unfoldable pub has_number : ℕ → List ℕ → Bool
has_number n [] = false
has_number n (x ∷ xs) = (x == n) || has_number n xs

unfoldable pub add_number : ℕ → List ℕ → List ℕ
add_number n xs = if has_number n xs then xs else n ∷ xs

unfoldable pub drop_number : ℕ → List ℕ → List ℕ
drop_number n [] = []
drop_number n (x ∷ xs) = let rest = drop_number n xs in if x == n then rest else x ∷ rest

-- Sets of texts.
unfoldable pub has_key : List ℕ → List (List ℕ) → Bool
has_key k [] = false
has_key k (x ∷ xs) = bytes_eq x k || has_key k xs

unfoldable pub add_key : List ℕ → List (List ℕ) → List (List ℕ)
add_key k xs = if has_key k xs then xs else k ∷ xs

unfoldable pub drop_key : List ℕ → List (List ℕ) → List (List ℕ)
drop_key k [] = []
drop_key k (x ∷ xs) = let rest = drop_key k xs in if bytes_eq x k then rest else x ∷ rest

-- Maps from texts.
module _ {ℓ} {V : Type ℓ} where
  unfoldable pub find : List ℕ → List (List ℕ × V) → Option V
  find k [] = none
  find k ((j, v) ∷ m) = if bytes_eq j k then some v else find k m

  unfoldable pub erase : List ℕ → List (List ℕ × V) → List (List ℕ × V)
  erase k [] = []
  erase k ((j, v) ∷ m) = let rest = erase k m in if bytes_eq j k then rest else (j, v) ∷ rest

  unfoldable pub put : List ℕ → V → List (List ℕ × V) → List (List ℕ × V)
  put k v m = (k, v) ∷ erase k m

  abbrev pub is_found : Option V → Bool
  is_found none = false
  is_found (some v) = true

  -- No key has two entries.
  abbrev pub OnePerKey : List (List ℕ × V) → Type ℓ
  OnePerKey [] = Unit {ℓ}
  OnePerKey ((k, v) ∷ m) = (find k m ≡ none) × OnePerKey m

  -- What another key finds.
  pub find-erase :
      (k j : List ℕ) (m : List (List ℕ × V))
      → find j (erase k m) ≡ (if bytes_eq k j then none else find j m)
  unfolding find erase
  find-erase k j [] = elim (Bool-cases (bytes_eq k j)) [ inl q ↦ rw q refl | inr q ↦ rw q refl ]
  find-erase k j ((i, v) ∷ m) = grind (
    arith,
    find-erase k j m,
    bytes_eq→eq k j,
    bytes_eq→eq i k,
    bytes_eq→eq i j,
    bytes_eq_self i,
    bytes_eq_self j,
    bytes_eq_self k,
  )

  pub find-erase_self : (k : List ℕ) (m : List (List ℕ × V)) → find k (erase k m) ≡ none
  find-erase_self k m = rw (find-erase k k m, bytes_eq_self k) refl

  pub find-put :
      (k j : List ℕ) (v : V) (m : List (List ℕ × V))
      → find j (put k v m) ≡ (if bytes_eq k j then some v else find j m)
  unfolding put find
  find-put k j v m = ground (arith, find-erase k j m)

  pub erase_absent : (k : List ℕ) (m : List (List ℕ × V)) → find k m ≡ none → erase k m ≡ m
  unfolding find erase
  erase_absent k [] h = refl
  erase_absent k ((j, v) ∷ m) h = ground (arith, erase_absent k m)

  pub erase-none :
      (k j : List ℕ) (m : List (List ℕ × V)) → find j m ≡ none → find j (erase k m) ≡ none
  erase-none k j m h = elim (Bool-cases (bytes_eq k j)) [
    | inl q ↦ rw (find-erase k j m, q) refl
    | inr q ↦ rw (find-erase k j m, q) h
  ]

  pub erase-OnePerKey : (k : List ℕ) (m : List (List ℕ × V)) → OnePerKey m → OnePerKey (erase k m)
  unfolding erase
  erase-OnePerKey k [] h = h
  erase-OnePerKey k ((j, v) ∷ m) (h, u) = elim (Bool-cases (bytes_eq j k)) [
    | inl q ↦ rw q (erase-OnePerKey k m u)
    | inr q ↦ rw q (erase-none k j m h, erase-OnePerKey k m u)
  ]

  pub put-OnePerKey :
      (k : List ℕ) (v : V) (m : List (List ℕ × V)) → OnePerKey m → OnePerKey (put k v m)
  unfolding put
  put-OnePerKey k v m h = (find-erase_self k m, erase-OnePerKey k m h)

  pub length-erase :
      (k : List ℕ) (m : List (List ℕ × V)) {v : V}
      → OnePerKey m
      → find k m ≡ some v
      → length (erase k m) + 1 ≡ length m
  unfolding find erase
  length-erase k [] u e = cc
  length-erase k ((j, w) ∷ m) {v} (h, u) e = elim (Bool-cases (bytes_eq j k)) [
    | inl q ↦
        let gone : find k m ≡ none = subst (λ x. find x m ≡ none) (bytes_eq→eq j k q) h in
        rw (q, erase_absent k m gone) (omega arith)
    | inr q ↦
        let there : find k m ≡ some v = ground arith in
        rw q (omega (arith, length-erase k m u there))
  ]

pub has_key-add_key :
    (k j : List ℕ) (xs : List (List ℕ)) → has_key j (add_key k xs) ≡ (bytes_eq k j || has_key j xs)
unfolding has_key add_key
has_key-add_key k j xs = grind (arith, bytes_eq→eq k j)

pub has_key-drop_key :
    (k j : List ℕ) (xs : List (List ℕ))
    → has_key j (drop_key k xs) ≡ (if bytes_eq k j then false else has_key j xs)
unfolding has_key drop_key
has_key-drop_key k j [] = elim (Bool-cases (bytes_eq k j)) [ inl q ↦ rw q refl | inr q ↦ rw q refl ]
has_key-drop_key k j (i ∷ xs) = grind (
  arith,
  has_key-drop_key k j xs,
  bytes_eq→eq k j,
  bytes_eq→eq i k,
  bytes_eq→eq i j,
  bytes_eq_self i,
  bytes_eq_self j,
  bytes_eq_self k,
)

-- How often a number stands in a list.
unfoldable pub count : ℕ → List ℕ → ℕ
count n [] = 0
count n (x ∷ xs) = (if x == n then 1 else 0) + count n xs

pub count-drop_number :
    (n v : ℕ) (xs : List ℕ) → count n (drop_number v xs) ≡ (if v == n then 0 else count n xs)
unfolding count drop_number
count-drop_number n v [] = ground arith
count-drop_number n v (x ∷ xs) = ground (arith, count-drop_number n v xs)

pub has_number-count : (n : ℕ) (xs : List ℕ) → has_number n xs ≡ true → 1 ≤ count n xs
unfolding has_number count
has_number-count n [] h = cc
has_number-count n (x ∷ xs) h = ground (arith, has_number-count n xs)

pub count_absent : (n : ℕ) (xs : List ℕ) → has_number n xs ≡ false → count n xs ≡ 0
unfolding has_number count
count_absent n [] h = refl
count_absent n (x ∷ xs) h = ground (arith, count_absent n xs)

pub count-add_number :
    (n v : ℕ) (xs : List ℕ)
    → count v xs ≡ 0
    → count n (add_number v xs) ≡ (if v == n then 1 else 0) + count n xs
unfolding add_number count
count-add_number n v xs h = ground (arith, has_number-count v xs)

pub length-drop_number : (v : ℕ) (xs : List ℕ) → length (drop_number v xs) + count v xs ≡ length xs
unfolding drop_number count
length-drop_number v [] = omega arith
length-drop_number v (x ∷ xs) = ground (arith, length-drop_number v xs)

pub length-add_number :
    (v : ℕ) (xs : List ℕ) → count v xs ≡ 0 → length (add_number v xs) ≡ length xs + 1
unfolding add_number
length-add_number v xs h = ground (arith, has_number-count v xs)
