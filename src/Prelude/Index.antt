-- ===== src/Prelude/Index.antt =====
-- `HashMap` with numbers for keys, and a store of shared values.
use Prim.Native.Nat.{ℕ}
use mathlib.Core.Path.{◌≡◌}
use mathlib.Core.Bool.{Bool, false, ◌||◌}
use mathlib.Core.List.{List, [], ◌∷◌}
use mathlib.Core.Option.{Option, none, some}
use native.Mathlib.Omega.{arith}
use xelt_vpn.Prelude.Tests.{◌==◌, if◌then◌else◌}

module _ {ℓ} {V : Type ℓ} where
  unfoldable pub find_at : ℕ → List (ℕ × V) → Option V
  find_at i [] = none
  find_at i ((j, v) ∷ m) = if j == i then some v else find_at i m

  unfoldable pub erase_at : ℕ → List (ℕ × V) → List (ℕ × V)
  erase_at i [] = []
  erase_at i ((j, v) ∷ m) = let rest = erase_at i m in if j == i then rest else (j, v) ∷ rest

  unfoldable pub put_at : ℕ → V → List (ℕ × V) → List (ℕ × V)
  put_at i v m = (i, v) ∷ erase_at i m

  -- What another key finds.
  pub find_at-erase_at :
      (i j : ℕ) (m : List (ℕ × V))
      → find_at j (erase_at i m) ≡ (if i == j then none else find_at j m)
  unfolding find_at erase_at
  find_at-erase_at i j [] = ground arith
  find_at-erase_at i j ((k, v) ∷ m) = ground (arith, find_at-erase_at i j m)

  pub find_at-put_at :
      (i j : ℕ) (v : V) (m : List (ℕ × V))
      → find_at j (put_at i v m) ≡ (if i == j then some v else find_at j m)
  unfolding put_at find_at
  find_at-put_at i j v m = ground (arith, find_at-erase_at i j m)

  -- A cell of the store is written.
  abbrev pub update : (ℕ → Option V) → ℕ → V → ℕ → Option V
  update f p v q = if p == q then some v else f q

-- Whether an entry of a table has a value, and the entries that have another.
module _ {ℓ} {K : Type ℓ} where
  unfoldable pub has_value : ℕ → List (K × ℕ) → Bool
  has_value v [] = false
  has_value v ((k, w) ∷ m) = (w == v) || has_value v m

  unfoldable pub retain_others : ℕ → List (K × ℕ) → List (K × ℕ)
  retain_others v [] = []
  retain_others v ((k, w) ∷ m) =
      let rest = retain_others v m in if w == v then rest else (k, w) ∷ rest

  pub has_value-retain_others :
      (v w : ℕ) (m : List (K × ℕ))
      → has_value w (retain_others v m) ≡ (if v == w then false else has_value w m)
  unfolding has_value retain_others
  has_value-retain_others v w [] = ground arith
  has_value-retain_others v w ((k, u) ∷ m) = ground (arith, has_value-retain_others v w m)
