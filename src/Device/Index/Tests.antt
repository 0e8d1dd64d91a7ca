-- ===== src/Device/Index/Tests.antt =====
-- A generator, and its first indexes.
use mathlib.Core.Option.{bind}
use xelt_vpn.Prelude.{ℕ, ◌≡◌, ◌≢◌, refl, List, [], ◌∷◌, some, get_or, arith}
use xelt_vpn.Device.Index.{IndexLfsr, default_lfsr, shifted, next, nexts}
use xelt_vpn.Device.Index.Range.{Seeded, GivesIndex, next-GivesIndex}
use xelt_vpn.Device.Index.Distinct.{nexts_distinct}

abbrev start : IndexLfsr
start = default_lfsr 5 3

start-Seeded : Seeded start
start-Seeded = record {
  register = record { positive = omega arith; small = omega arith };
  mask_small = omega arith;
}

next-GivesIndex_example : GivesIndex (next start)
next-GivesIndex_example = next-GivesIndex start start-Seeded

abbrev indexes : List ℕ
indexes = 7 ∷ 14155778 ∷ 7077891 ∷ 15597564 ∷ []

four : nexts 4 start ≡ some indexes
unfolding nexts next shifted bind
four = refl

nexts_distinct_example : get_or indexes 1 0 ≢ get_or indexes 3 0
nexts_distinct_example =
    nexts_distinct 4 start start-Seeded refl four 1 3 (omega arith) (omega arith)
