-- ===== src/Noise/Session/Window/Replay.antt =====
-- Replays against the window over whole runs, and what the wrap of `u64` does at the last counters.
use xelt_vpn.Prelude.{ℕ, ◌+◌, ◌-◌, ◌<◌, ◌≡◌, true, false, List, [], if◌then◌else◌, arith}
use xelt_vpn.Noise.Errors.{Result, ok, err, invalid_counter}
use xelt_vpn.Noise.Session.Window.{
  ReceivingKeyCounterValidator, fresh, n_bits, u64_mod, mark_did_receive,
}
use xelt_vpn.Noise.Session.Window.History.{
  accepts, extend, extend_all, seen, Stands, seen-extend_all,
}
use xelt_vpn.Noise.Session.Window.Refine.{
  mark_all, AllSmall, mark_all-Stands, mark_refines, fresh-Stands,
}

accepts-refused : (h : List ℕ) (c : ℕ) → seen h c ≡ true → accepts h c ≡ false
unfolding accepts
accepts-refused h c e = rw e

seen-extend_self : (h : List ℕ) (c : ℕ) → accepts h c ≡ true → seen (extend h c) c ≡ true
unfolding extend seen
seen-extend_self h c e = rw e (ground arith)

accepts_of_ok :
    (h : List ℕ) (c : ℕ) (r : Result (Unit {0}))
    → r ≡ (if accepts h c then ok tt else err invalid_counter)
    → r ≡ ok tt
    → accepts h c ≡ true
accepts_of_ok h c r e o = ground arith

-- Over a window that stands for any history: once `mark_did_receive` has accepted a counter, it
-- refuses that counter after whatever calls follow.
pub marked_once :
    (w : ReceivingKeyCounterValidator) (h ds : List ℕ) (c : ℕ)
    → Stands w h
    → c + n_bits < u64_mod
    → AllSmall ds
    → (mark_did_receive w c).0 ≡ ok tt
    → (mark_did_receive (mark_all (mark_did_receive w c).1 ds) c).0 ≡ err invalid_counter
marked_once w h ds c s small a e =
    let first = mark_refines w h c s small in
    let yes_c = accepts_of_ok h c _ first.0 e in
    let later = mark_all-Stands _ (extend h c) ds first.1 a in
    let again = mark_refines _ (extend_all (extend h c) ds) c later small in
    rw (
      again.0,
      accepts-refused _ c (seen-extend_all (extend h c) ds c (seen-extend_self h c yes_c)),
    )

-- From a new session on, no run of calls has `mark_did_receive` accept a counter twice, for counters
-- at least 1024 below `2 ^ 64`.
no_replay :
    (cs ds : List ℕ) (c : ℕ)
    → AllSmall cs
    → AllSmall ds
    → c + n_bits < u64_mod
    → (mark_did_receive (mark_all fresh cs) c).0 ≡ ok tt
    → (mark_did_receive (mark_all (mark_did_receive (mark_all fresh cs) c).1 ds) c).0
      ≡ err invalid_counter
no_replay cs ds c a b small e =
    marked_once (mark_all fresh cs) (extend_all [] cs) ds c
      (mark_all-Stands fresh [] cs fresh-Stands a) small b e

-- The bound is needed: over any window whose `next` is below 1024, the counter `2 ^ 64 - 1` is
-- accepted, `next` wraps to 0, and the same counter is accepted again.
pub wrap_reopens :
    (w : ReceivingKeyCounterValidator)
    → w.next < n_bits
    → let last = u64_mod - 1 in
      let w' = (mark_did_receive w last).1 in
      ((mark_did_receive w last).0 ≡ ok tt) × (w'.next ≡ 0) × ((mark_did_receive w' last).0 ≡ ok tt)
unfolding mark_did_receive
wrap_reopens w h = ground arith
