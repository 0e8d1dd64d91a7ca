-- ===== src/Prelude/Text.antt =====
-- Texts as the list of their codes, which for ASCII are their bytes.
use Prim.Native.Char.{code}
use Prim.Native.Nat.{ℕ, zero, suc, ◌+◌, ◌/◌, ◌%◌}
use Prim.Native.String.{String}
use mathlib.Core.List.{List, [], ◌∷◌, ◌++◌}
use xelt_vpn.Prelude.Tests.{ltb, if◌then◌else◌}

abbrev pub codes : String → List ℕ
codes String.[] = []
codes (String.◌∷◌ c s) = code c ∷ codes s

-- `to_string` of a number with at most `n + 1` digits.
unfoldable pub digits : ℕ → ℕ → List ℕ
digits zero x = (48 + x % 10) ∷ []
digits (suc n) x =
    let front = digits n (x / 10) in
    if ltb x 10 then (48 + x) ∷ [] else front ++ ((48 + x % 10) ∷ [])
