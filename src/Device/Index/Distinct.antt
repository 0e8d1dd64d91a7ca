-- ===== src/Device/Index/Distinct.antt =====
-- No two peers get the same index.
use Prim.Native.Nat.{bit_xor}
use mathlib.Core.Option.{bind-eq-some_iff, some-injective}
use xelt_vpn.Prelude.{
  ℕ, zero, suc, ◌-◌, ◌≤◌, ◌<◌, ◌≡◌, ◌≢◌, refl, sym, ap, ◌∙◌, subst, Bool, true, false, List, ◌∷◌,
  none, some, ◌==◌, ==→ne, if◌then◌else◌, get_or, arith,
}
use xelt_vpn.Prelude.Xor.{bit_xor-inj}
use xelt_vpn.Device.Index.{IndexLfsr, shifted, next, nexts}
use xelt_vpn.Device.Index.Range.{InRange, Seeded, shifted-InRange, shifted-inj}

-- The register after some steps.
unfoldable iterate : ℕ → ℕ → ℕ
iterate zero x = x
iterate (suc n) x = shifted (iterate n x)

iterate-InRange : (n x : ℕ) → InRange x → InRange (iterate n x)
unfolding iterate
iterate-InRange zero x r = r
iterate-InRange (suc n) x r = shifted-InRange (iterate n x) (iterate-InRange n x r)

iterate-shifted : (n x : ℕ) → iterate n (shifted x) ≡ iterate (suc n) x
unfolding iterate
iterate-shifted zero x = refl
iterate-shifted (suc n) x = ap shifted (iterate-shifted n x)

-- A state that comes twice has the start between.
iterate-ne :
    (x n : ℕ)
    → InRange x
    → ((k : ℕ) → 0 < k → k ≤ n → iterate k x ≢ x)
    → (i j : ℕ) → i < j
    → j ≤ n
    → iterate i x ≢ iterate j x
unfolding iterate
iterate-ne x n r fresh zero j h l = λ e. fresh j h l (sym e)
iterate-ne x n r fresh (suc i) zero h l = absurd (omega arith)
iterate-ne x n r fresh (suc i) (suc j) h l = λ e.
    iterate-ne x n r fresh i j (omega arith) (omega arith)
      (shifted-inj (iterate i x) (iterate j x) (iterate-InRange i x r) (iterate-InRange j x r) e)

next-some :
    (g : IndexLfsr) (r : ℕ × IndexLfsr)
    → next g ≡ some r
    → (shifted g.lfsr ≢ g.initial)
      × ((bit_xor (g.lfsr - 1) g.mask, record g { lfsr = shifted g.lfsr }) ≡ r)
unfolding next
next-some g r e = by_test (shifted g.lfsr == g.initial) (==→ne (shifted g.lfsr) g.initial) e
  where
    by_test :
        (b : Bool)
        → (b ≡ false → shifted g.lfsr ≢ g.initial)
        → (if b
            then none
            else some (bit_xor (g.lfsr - 1) g.mask, record g { lfsr = shifted g.lfsr }))
          ≡ some r
        → (shifted g.lfsr ≢ g.initial)
          × ((bit_xor (g.lfsr - 1) g.mask, record g { lfsr = shifted g.lfsr }) ≡ r)
    by_test true f e = cc
    by_test false f e = (f refl, some-injective _ _ e)

-- What the indexes of `n` calls are, and that the register did not come back to the start.
abbrev Told : ℕ → IndexLfsr → List ℕ → Type 0
Told n g vs =
    ((i : ℕ) → i < n → get_or vs i 0 ≡ bit_xor (iterate i g.lfsr - 1) g.mask)
    × ((k : ℕ) → 0 < k → k ≤ n → iterate k g.lfsr ≢ g.initial)

Told-cons :
    (n : ℕ) (g : IndexLfsr) (rest : List ℕ)
    → shifted g.lfsr ≢ g.initial
    → Told n (record g { lfsr = shifted g.lfsr }) rest
    → Told (suc n) g (bit_xor (g.lfsr - 1) g.mask ∷ rest)
unfolding iterate
Told-cons n g rest fresh (told, off) = (
  elim [
    | zero ↦ λ h. refl
    | suc i ↦
        λ h. told i (omega arith) ∙ ap (λ x. bit_xor (x - 1) g.mask) (iterate-shifted i g.lfsr)
  ],
  elim [
    | zero ↦ λ h l. absurd (omega arith)
    | suc zero ↦ λ h l. fresh
    | suc (suc k) ↦
        λ h l e. off (suc k) (omega arith) (omega arith) (iterate-shifted (suc k) g.lfsr ∙ e)
  ],
)

nexts-Told : (n : ℕ) (g : IndexLfsr) (vs : List ℕ) → nexts n g ≡ some vs → Told n g vs
unfolding nexts
nexts-Told zero g vs e = (λ i h. absurd (omega arith), λ k h l. absurd (omega arith))
nexts-Told (suc n) g vs e =
    let (r, er, e₁) = (bind-eq-some_iff (next g) _).0 e in
    let (rest, es, e₂) = (bind-eq-some_iff (nexts n r.1) _).0 e₁ in
    let (fresh, same) = next-some g r er in
    let told = subst (λ q. Told n q.1 rest) (sym same) (nexts-Told n r.1 rest es) in
    subst (Told (suc n) g) (some-injective _ _ e₂)
      (subst (λ q. Told (suc n) g (q.0 ∷ rest)) same (Told-cons n g rest fresh told))

-- From a start whose register and mask are of 24 bits, as many indexes as are given before the
-- assertion fails are all different.
pub nexts_distinct :
    (n : ℕ) (g : IndexLfsr) {vs : List ℕ}
    → Seeded g
    → g.lfsr ≡ g.initial
    → nexts n g ≡ some vs
    → (i j : ℕ) → i < j
    → j < n
    → get_or vs i 0 ≢ get_or vs j 0
nexts_distinct n g {vs} s start e i j h l = λ same.
    let (told, off) = nexts-Told n g vs e in
    let r = s.register in
    let equal : iterate i g.lfsr - 1 ≡ iterate j g.lfsr - 1 =
      bit_xor-inj _ _ g.mask (sym (told i (omega arith)) ∙ same ∙ told j l) in
    iterate-ne g.lfsr n r (λ k p q x. off k p q (x ∙ start)) i j h (omega arith)
      (omega (
        arith,
        equal,
        (iterate-InRange i g.lfsr r).positive,
        (iterate-InRange j g.lfsr r).positive,
      ))
