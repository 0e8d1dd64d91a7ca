-- ===== src/Prelude/Fields.antt =====
-- A message as its fields one after the other, and the slices that give them back.
use Prim.Native.Nat.{ℕ, zero, suc, ◌+◌, ◌-◌, ◌<◌}
use mathlib.Core.Path.{◌≡◌, refl, ap, ◌∙◌}
use mathlib.Core.List.{List, [], ◌∷◌, ◌++◌, append_assoc}
use native.Mathlib.Omega.{arith}
use xelt_vpn.Prelude.Lists.{length, length-append, get_or, slice, slice-skip, slice-first}

unfoldable pub join : List (List ℕ) → List ℕ
join [] = []
join (f ∷ fs) = f ++ join fs

-- Where field `i` begins, and where all end.
abbrev pub start : List ℕ → ℕ → ℕ
start ks zero = 0
start [] (suc i) = 0
start (k ∷ ks) (suc i) = k + start ks i

abbrev pub total : List ℕ → ℕ
total [] = 0
total (k ∷ ks) = k + total ks

abbrev pub Sized : List ℕ → List (List ℕ) → Type 0
Sized [] [] = Unit
Sized [] (f ∷ fs) = ⊥
Sized (k ∷ ks) [] = ⊥
Sized (k ∷ ks) (f ∷ fs) = (length f ≡ k) × Sized ks fs

pub length-join : (ks : List ℕ) (fs : List (List ℕ)) → Sized ks fs → length (join fs) ≡ total ks
unfolding join
length-join [] [] s = refl
length-join [] (f ∷ fs) s = absurd s
length-join (k ∷ ks) [] s = absurd s
length-join (k ∷ ks) (f ∷ fs) s =
    omega (arith, length-append f (join fs), s.0, length-join ks fs s.1)

pub slice-join :
    (i : ℕ) (ks : List ℕ) (fs : List (List ℕ)) (rest : List ℕ)
    → Sized ks fs
    → i < length ks
    → slice (start ks i) (start ks i + get_or ks i 0) (join fs ++ rest) ≡ get_or fs i []
unfolding join
slice-join i [] fs rest s h = absurd (omega arith)
slice-join i (k ∷ ks) [] rest s h = absurd s
slice-join zero (k ∷ ks) (f ∷ fs) rest s h =
    ap (slice 0 (0 + k)) (append_assoc f (join fs) rest)
    ∙ ap (λ n. slice 0 n (f ++ (join fs ++ rest))) (omega arith)
    ∙ slice-first k f (join fs ++ rest) s.0
slice-join (suc i) (k ∷ ks) (f ∷ fs) rest s h =
    ap (slice (k + start ks i) (k + start ks i + get_or ks i 0)) (append_assoc f (join fs) rest)
    ∙ slice-skip k (k + start ks i) (k + start ks i + get_or ks i 0) f (join fs ++ rest) s.0
        (omega arith)
    ∙ ap (λ n. slice n (k + start ks i + get_or ks i 0 - k) (join fs ++ rest)) (omega arith)
    ∙ ap (λ n. slice (start ks i) n (join fs ++ rest)) (omega arith)
    ∙ slice-join i ks fs rest s.1 (omega arith)
