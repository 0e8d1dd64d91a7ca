-- ===== src/Device/Table/Known.antt =====
-- What the calls of a device keep: the indexes of the peers that are changed, and which indexes were given.
use mathlib.Core.Option.{bind, bind-eq-some_iff}
use mathlib.Core.List.{append_assoc}
use xelt_vpn.Prelude.{
  ℕ, zero, suc, ◌+◌, ◌<◌, ◌≡◌, refl, sym, ap, subst, ◌∙◌, inl, inr, List, [], ◌∷◌, ◌++◌, Option,
  none, some, length, get_or, length-append, Option-cases, arith,
}
use xelt_vpn.Prelude.Index.{find_at}
use xelt_vpn.Noise.Errors.{Result, ok, err, panic}
use xelt_vpn.Noise.Tunn.{Tunn}
use xelt_vpn.Device.Api.{Section}
use xelt_vpn.Device.Index.{IndexLfsr, nexts}
use xelt_vpn.Device.Index
use xelt_vpn.Device.Index.Range.{Seeded}
use xelt_vpn.Device.Index.Distinct.{nexts_distinct}
use xelt_vpn.Device.Payments.{PaymentSide}
use xelt_vpn.Device.Peer.{Peer}
use xelt_vpn.Device.Table.{
  Table, Store, InsertNetwork, new_table, for_each, change_at, tunnel_or_panic, add_peer,
}
use xelt_vpn.Device.Table.Linked.{KeepsIndexes, update-KeepsIndexes, some-inj}
use xelt_vpn.Device.Table.Add.{found_index}

-- Its result, if there is one, has the same index.
abbrev pub SameIndex : (Peer → Option Peer) → Type 0
SameIndex f = (p p' : Peer) → f p ≡ some p' → p'.index ≡ p.index

change_at-KeepsIndexes :
    (f : Peer → Option Peer) (same : SameIndex f) (a : Store) (h : ℕ) (o : Option Peer) {b : Store}
    → a h ≡ o
    → change_at f a h o ≡ some b
    → KeepsIndexes a b
change_at-KeepsIndexes f same a h none at e =
    subst (KeepsIndexes a) (some-inj e) (λ q p atq. (p, atq, refl))
change_at-KeepsIndexes f same a h (some p) at e =
    let (p', changed, e') = (bind-eq-some_iff (f p) _).0 e in
    subst (KeepsIndexes a) (some-inj e') (update-KeepsIndexes a h p p' at (same p p' changed))

pub for_each-KeepsIndexes :
    (f : Peer → Option Peer) (same : SameIndex f) (m : List (List ℕ × ℕ)) (a : Store) {b : Store}
    → for_each f m a ≡ some b
    → KeepsIndexes a b
unfolding for_each
for_each-KeepsIndexes f same [] a e = subst (KeepsIndexes a) (some-inj e) (λ h p at. (p, at, refl))
for_each-KeepsIndexes f same ((k, h) ∷ m) a e =
    let (a', changed, e') = (bind-eq-some_iff (change_at f a h (a h)) _).0 e in
    let first = change_at-KeepsIndexes f same a h (a h) refl changed in
    let rest = for_each-KeepsIndexes f same m a' e' in
    λ q p at.
      let (p₁, at₁, s₁) = first q p at in let (p₂, at₂, s₂) = rest q p₁ at₁ in (p₂, at₂, s₂ ∙ s₁)

pub tunnel-SameIndex :
    (p : Peer) (r : Result Tunn) (p' : Peer) → tunnel_or_panic p r ≡ some p' → p'.index ≡ p.index
tunnel-SameIndex p (ok t) p' e = sym (ap (λ (x : Peer). x.index) (some-inj e))
tunnel-SameIndex p (err x) p' e = cc
tunnel-SameIndex p panic p' e = cc

-- The indexes in the map are among those that the generator gave since it was `g₀`.
pub record Known (g₀ : IndexLfsr) (t : Table) : Type 0 where
  given : List ℕ
  continues :
      (m : ℕ) (vs : List ℕ)
      → nexts m t.next_index ≡ some vs
      → nexts (length given + m) g₀ ≡ some (given ++ vs)
  listed :
      (i h : ℕ)
      → find_at i t.peers_by_idx ≡ some h
      → (k : ℕ) × (k < length given) × (get_or given k 0 ≡ i)

get_or_before : (xs ys : List ℕ) (k : ℕ) → k < length xs → get_or (xs ++ ys) k 0 ≡ get_or xs k 0
get_or_before [] ys k lt = absurd (omega (arith, lt))
get_or_before (x ∷ xs) ys zero lt = refl
get_or_before (x ∷ xs) ys (suc k) lt = get_or_before xs ys k (omega (arith, lt))

get_or_at : (xs ys : List ℕ) (y : ℕ) → get_or (xs ++ (y ∷ ys)) (length xs) 0 ≡ y
get_or_at [] ys y = refl
get_or_at (x ∷ xs) ys y = get_or_at xs ys y

module _ (g₀ : IndexLfsr) where
  pub new-Known : (d : PaymentSide) → Known g₀ (new_table g₀ d)
  unfolding find_at
  new-Known d = record {
    given = [];
    continues = λ m vs e. ap (λ k. nexts k g₀) {x = 0 + m} {y = m} (omega arith) ∙ e;
    listed = λ i h e. cc;
  }

  module _ (t : Table) (k : Known g₀ t) (index : ℕ) (g : IndexLfsr)
      (given_now : Index.next t.next_index ≡ some (index, g)) where
    one_more :
        (m : ℕ) (vs : List ℕ) → nexts m g ≡ some vs → nexts (suc m) t.next_index ≡ some (index ∷ vs)
    unfolding nexts bind
    one_more m vs e = rw (given_now, e) refl

    goes_on :
        (m : ℕ) (vs : List ℕ)
        → nexts m g ≡ some vs
        → nexts (length (k.given ++ (index ∷ [])) + m) g₀ ≡ some ((k.given ++ (index ∷ [])) ++ vs)
    goes_on m vs e =
        ap (λ n. nexts n g₀) {x = length (k.given ++ (index ∷ [])) + m} {y = length k.given + suc m}
          (omega (arith, length-append k.given (index ∷ [])))
        ∙ k.continues (suc m) (index ∷ vs) (one_more m vs e)
        ∙ ap (λ (xs : List ℕ). some xs) (sym (append_assoc k.given (index ∷ []) vs))

    -- No peer has the index that the generator gives.
    pub new_index : Seeded g₀ → g₀.lfsr ≡ g₀.initial → find_at index t.peers_by_idx ≡ none
    unfolding nexts
    new_index seeded start = elim (Option-cases (find_at index t.peers_by_idx)) [
      | inl e ↦ e
      | inr (h, e) ↦
          let (i, lt, at) = k.listed index h e in
          absurd (
            nexts_distinct (length k.given + 1) g₀ seeded start
              (k.continues 1 (index ∷ []) (one_more 0 [] refl)) i (length k.given) lt (omega arith)
              (get_or_before k.given (index ∷ []) i lt ∙ at ∙ sym (get_or_at k.given [] index)))
    ]

    pub added-Known :
        (insert : InsertNetwork) (s : Section) (p : Peer) → Known g₀ (add_peer insert t s index g p)
    added-Known insert s p = record {
      given = k.given ++ (index ∷ []);
      continues = goes_on;
      listed = λ i h e. elim (found_index i h t.next_arc index t.peers_by_idx e) [
        | inl (same, at) ↦ (
          length k.given,
          omega (arith, length-append k.given (index ∷ [])),
          get_or_at k.given [] index ∙ same,
        )
        | inr before ↦
            let (j, lt, at) = k.listed i h before in
            (
              j,
              omega (arith, lt, length-append k.given (index ∷ [])),
              get_or_before k.given (index ∷ []) j lt ∙ at,
            )
      ];
    }

  -- Where the map of indexes loses entries and the generator stays.
  pub fewer-Known :
      (t t' : Table)
      → Known g₀ t
      → t'.next_index ≡ t.next_index
      → ((i h : ℕ) → find_at i t'.peers_by_idx ≡ some h → find_at i t.peers_by_idx ≡ some h)
      → Known g₀ t'
  fewer-Known t t' k same fewer = record {
    given = k.given;
    continues = λ m vs e. k.continues m vs (ap (nexts m) (sym same) ∙ e);
    listed = λ i h e. k.listed i h (fewer i h e);
  }
