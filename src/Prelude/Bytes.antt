-- ===== src/Prelude/Bytes.antt =====
-- Fixed-width integers as bytes: `to_le_bytes`, `to_be_bytes` and their inverses.
use Prim.Native.Nat.{ℕ, zero, suc, ◌+◌, ◌*◌, ◌/◌, ◌%◌, ◌^◌, ◌<◌}
use mathlib.Core.Path.{◌≡◌, refl, ap, ◌∙◌}
use mathlib.Core.List.{List, [], ◌∷◌, reverse, reverse-reverse}
use native.Mathlib.Nat.{pow-suc}
use native.Mathlib.Omega.{arith}
use xelt_vpn.Prelude.Lists.{length, length-reverse}

abbrev pub to_le : ℕ → ℕ → List ℕ
to_le zero x = []
to_le (suc n) x = (x % 256) ∷ to_le n (x / 256)

abbrev pub from_le : List ℕ → ℕ
from_le [] = 0
from_le (b ∷ bs) = b + 256 * from_le bs

abbrev pub to_be : ℕ → ℕ → List ℕ
to_be n x = reverse (to_le n x)

abbrev pub from_be : List ℕ → ℕ
from_be bs = from_le (reverse bs)

pub length-to_le : (n x : ℕ) → length (to_le n x) ≡ n
length-to_le zero x = refl
length-to_le (suc n) x = ap suc (length-to_le n (x / 256))

pub length-to_be : (n x : ℕ) → length (to_be n x) ≡ n
length-to_be n x = length-reverse (to_le n x) ∙ length-to_le n x

pub from_le-to_le : (n x : ℕ) → x < 256 ^ n → from_le (to_le n x) ≡ x
from_le-to_le zero x h = omega arith
from_le-to_le (suc n) x h = omega (arith, from_le-to_le n (x / 256) (omega (arith, pow-suc 256 n)))

pub from_be-to_be : (n x : ℕ) → x < 256 ^ n → from_be (to_be n x) ≡ x
from_be-to_be n x h = ap from_le (reverse-reverse (to_le n x)) ∙ from_le-to_le n x h
