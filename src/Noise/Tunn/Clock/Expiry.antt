-- ===== src/Noise/Tunn/Clock/Expiry.antt =====
-- Sessions and the connection expire on time.
use xelt_vpn.Prelude.{
  ℕ, zero, suc, ◌-◌, ◌≤◌, ◌<◌, ◌≡◌, refl, Bool, inl, inr, List, [], ◌∷◌, Option, none, ltb,
  if◌then◌else◌, length, get_or, Bool-cases, ge→ltb, arith,
}
use xelt_vpn.Noise.Errors.{ok}
use xelt_vpn.Noise.Session.{Session}
use xelt_vpn.Noise.Timers.{sub_duration, reject_after_time}
use xelt_vpn.Noise.Tunn.Clock.{expire_sessions}

abbrev pub AllBefore : ℕ → List ℕ → Type 0
AllBefore now [] = Unit
AllBefore now (t ∷ ts) = (t ≤ now) × AllBefore now ts

-- Older than `REJECT_AFTER_TIME`.
abbrev pub too_old : ℕ → ℕ → Bool
too_old now t = ltb reject_after_time (now - t)

-- `expire_sessions` gives timers and sessions that differ at the old ones alone.
abbrev pub ExpiresOld : ℕ → List ℕ → List (Option Session) → Type 0
ExpiresOld now ts ss =
    (ts' : List ℕ) × (ss' : List (Option Session)) × (expire_sessions now ts ss ≡ ok (ts', ss'))
    × ((i : ℕ)
        → i < length ts
        → (get_or ss' i none ≡ (if too_old now (get_or ts i 0) then none else get_or ss i none))
          × (get_or ts' i 0 ≡ (if too_old now (get_or ts i 0) then now else get_or ts i 0)))

-- With as many sessions as timers and no timer ahead of the clock, `update_session_timers` goes through:
-- it drops exactly the sessions whose timer is more than `REJECT_AFTER_TIME` old and starts their timers
-- anew, and leaves all others.
pub expire_sessions_lem :
    (now : ℕ) (ts : List ℕ) (ss : List (Option Session))
    → length ts ≡ length ss
    → AllBefore now ts
    → ExpiresOld now ts ss
unfolding expire_sessions sub_duration
expire_sessions_lem now [] ss e a = ([], ss, refl, λ i h. absurd (omega arith))
expire_sessions_lem now (t ∷ ts) [] e a = absurd (omega arith)
expire_sessions_lem now (t ∷ ts) (s ∷ ss) e a =
    let (ts', ss', q, each) = expire_sessions_lem now ts ss (omega arith) a.1 in
    elim (Bool-cases (too_old now t)) [
      | inl old ↦ (
        now ∷ ts',
        none ∷ ss',
        rw (ge→ltb now t a.0, q, old) refl,
        elim [ zero ↦ λ h. rw old (refl, refl) | suc i ↦ λ h. each i (omega arith) ],
      )
      | inr young ↦ (
        t ∷ ts',
        s ∷ ss',
        rw (ge→ltb now t a.0, q, young) refl,
        elim [ zero ↦ λ h. rw young (refl, refl) | suc i ↦ λ h. each i (omega arith) ],
      )
    ]
