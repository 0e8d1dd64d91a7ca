-- ===== src/Noise/Session/Window/Refine.antt =====
-- The window implements the contract of `History`, call by call and over every run.
use xelt_vpn.Prelude.{
  ℕ, ◌+◌, ◌≤◌, ◌<◌, ◌≡◌, refl, ◌∙◌, ◌⊎◌, inl, inr, true, false, List, [], ◌∷◌, ltb, leb, ◌==◌,
  if◌then◌else◌, Bool-cases, arith,
}
use xelt_vpn.Noise.Errors.{ok, err, invalid_counter, duplicate_counter}
use xelt_vpn.Noise.Session.Window.{
  ReceivingKeyCounterValidator, fresh, n_bits, u64_mod, add_u64, check_bit, set_bit, skip,
  will_accept, mark_did_receive,
}
use xelt_vpn.Noise.Session.Window.Bitmap.{check_bit-set_bit, length-set_bit}
use xelt_vpn.Noise.Session.Window.Clear.{Cleared, skip-Cleared}
use xelt_vpn.Noise.Session.Window.History.{
  top, seen, accepts, extend, extend_all, Stands, seen-lt-top,
}

pub fresh-Stands : Stands fresh []
unfolding top seen
fresh-Stands = record { len = refl; next_top = refl; bits = λ j h lt. absurd (omega arith) }

-- `will_accept` says yes to exactly the counters that the contract accepts, and tells a duplicate from
-- one that is too old, where the counter and the 1024 of the window add up to less than 2^64.
pub will_accept_refines :
    (w : ReceivingKeyCounterValidator) (h : List ℕ) (c : ℕ)
    → Stands w h
    → c + n_bits < u64_mod
    → will_accept w c ≡ (
        if accepts h c
        then ok tt
        else if leb (top h) (c + n_bits)
        then err duplicate_counter
        else err invalid_counter)
unfolding will_accept accepts
will_accept_refines w h c s small = ground (arith, s.next_top, s.bits c, seen-lt-top h c)

module _ (w : ReceivingKeyCounterValidator) (h : List ℕ) (c : ℕ) (s : Stands w h)
    (small : c + n_bits < u64_mod) where
  -- A counter from the top on, over a bitmap cleared up to it.
  advance-Stands :
      (bm : List ℕ) (n : ℕ)
      → Cleared w.bitmap (top h) c bm c
      → n ≡ c + 1
      → Stands (record w { bitmap = set_bit bm c; next = n }) (c ∷ h)
  unfolding top seen
  advance-Stands bm n k e = record {
    len = length-set_bit bm c ∙ k.len;
    next_top = omega (arith, k.low);
    bits = λ j hj lt.
        rw (check_bit-set_bit bm c j k.len)
          (ground (arith, k.low, k.bits j, s.bits j, seen-lt-top h j));
  }

  -- A new counter below the top.
  fill-Stands :
      c < top h → top h ≤ c + n_bits → Stands (record w { bitmap = set_bit w.bitmap c }) (c ∷ h)
  unfolding top seen
  fill-Stands lt reach = record {
    len = length-set_bit w.bitmap c ∙ s.len;
    next_top = omega (arith, s.next_top);
    bits = λ j hj below. rw (check_bit-set_bit w.bitmap c j s.len) (ground (arith, s.bits j));
  }

  -- No counter lies between the top and the counter itself.
  none_skipped : c ≡ top h → Cleared w.bitmap (top h) c w.bitmap c
  none_skipped e = record {
    len = s.len;
    low = omega arith;
    high = omega arith;
    bits = λ j hj lt. ground arith;
  }

  skipped : top h ≤ c → Cleared w.bitmap (top h) c (skip w.bitmap w.next c) c
  skipped le = rw s.next_top (skip-Cleared w.bitmap (top h) c small s.len le)

  accepted : top h ≤ c + n_bits → seen h c ≡ false → accepts h c ≡ true
  unfolding accepts
  accepted r n = ground arith

  refused : (c + n_bits < top h) ⊎ (seen h c ≡ true) → accepts h c ≡ false
  unfolding accepts
  refused r = ground arith

  -- `mark_did_receive` accepts exactly the counters that the contract accepts, refuses any other with
  -- `InvalidCounter`, and leaves a window that stands for the longer history, where the counter and the
  -- 1024 of the window add up to less than 2^64.
  pub mark_refines :
      ((mark_did_receive w c).0 ≡ (if accepts h c then ok tt else err invalid_counter))
      × Stands (mark_did_receive w c).1 (extend h c)
  unfolding mark_did_receive extend
  mark_refines = elim (Bool-cases (ltb (add_u64 c n_bits) w.next)) [
    | inl old ↦ rw (old, refused (ground (arith, s.next_top))) (refl, s)
    | inr reach ↦ elim (Bool-cases (c == w.next)) [
      | inl at_next ↦
          rw
            (
              reach,
              at_next,
              accepted (ground (arith, s.next_top)) (ground (arith, s.next_top, seen-lt-top h c)),
            )
            (
              refl,
              advance-Stands w.bitmap _ (none_skipped (ground (arith, s.next_top))) (ground arith),
            )
      | inr off ↦ elim (Bool-cases (ltb c w.next)) [
        | inl below ↦ elim (Bool-cases (check_bit w.bitmap c)) [
          | inl dup ↦
              rw (reach, off, below, dup, refused (ground (arith, s.next_top, s.bits c))) (refl, s)
          | inr new ↦
              rw
                (
                  reach,
                  off,
                  below,
                  new,
                  accepted (ground (arith, s.next_top)) (ground (arith, s.next_top, s.bits c)),
                )
                (refl, fill-Stands (ground (arith, s.next_top)) (ground (arith, s.next_top)))
        ]
        | inr above ↦
            rw
              (
                reach,
                off,
                above,
                accepted (ground (arith, s.next_top)) (ground (arith, s.next_top, seen-lt-top h c)),
              )
              (refl, advance-Stands _ _ (skipped (ground (arith, s.next_top))) (ground arith))
      ]
    ]
  ]

-- The results of a run of calls, and the window that it leaves.
unfoldable pub mark_all : ReceivingKeyCounterValidator → List ℕ → ReceivingKeyCounterValidator
mark_all w [] = w
mark_all w (c ∷ cs) = mark_all (mark_did_receive w c).1 cs

abbrev pub AllSmall : List ℕ → Type 0
AllSmall [] = Unit
AllSmall (c ∷ cs) = (c + n_bits < u64_mod) × AllSmall cs

pub mark_all-Stands :
    (w : ReceivingKeyCounterValidator) (h cs : List ℕ)
    → Stands w h
    → AllSmall cs
    → Stands (mark_all w cs) (extend_all h cs)
unfolding mark_all extend_all
mark_all-Stands w h [] s a = s
mark_all-Stands w h (c ∷ cs) s a =
    mark_all-Stands (mark_did_receive w c).1 (extend h c) cs (mark_refines w h c s a.0).1 a.1
