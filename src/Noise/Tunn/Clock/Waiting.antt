-- ===== src/Noise/Tunn/Clock/Waiting.antt =====
-- The timers leave the queue of waiting packets within its bound.
use xelt_vpn.Prelude.{
  ℕ, ◌+◌, ◌-◌, ◌*◌, Bool, true, false, ◌||◌, [], Option, none, some, ltb, leb, if◌then◌else◌,
  Bool-cases, inl, inr, arith,
}
use xelt_vpn.Noise.Errors.{Result, ok, err, panic, ◌>>=◌}
use xelt_vpn.Noise.Crypto.{Crypto}
use xelt_vpn.Noise.Outcome.{TunnResult}
use xelt_vpn.Noise.Handshake.{Env, timer, has_cookie}
use xelt_vpn.Noise.Timers.{
  sub_duration, get_timer, secs, keepalive_timeout, time_last_packet_received,
  time_last_packet_sent, time_last_data_packet_received, time_last_data_packet_sent,
  time_session_established, time_last_handshake_started, time_cookie_received,
  time_persistent_keepalive, rekey_attempt_time, rekey_timeout, reject_after_time,
  cookie_expiration_time,
}
use xelt_vpn.Noise.Tunn.Queue.{Bounded, initiation-Bounded, encapsulate-Bounded}
use xelt_vpn.Noise.Tunn.Clock.{
  act, at_time, by_timer, check_timers, clear_all, clear_old_cookie, due, expire_connection,
  expire_sessions, idle_checks, keepalive_due, no_answer, or_panicked, persistent_due, rekey_due,
  retry_checks, update_session_timers, update_timers,
}
use xelt_vpn.Noise.Tunn.{Tunn, tunn_is_expired}

-- What holds of the value of a result, if there is one.
abbrev IfOk {ℓ} : {A : Type ℓ} → (A → Type 0) → Result A → Type 0
IfOk P (ok a) = P a
IfOk P (err e) = Unit
IfOk P panic = Unit

IfOk-bind {ℓ κ} :
    {A : Type ℓ} {B : Type κ} (Q : A → Type 0) (P : B → Type 0) (r : Result A) (f : A → Result B)
    → IfOk Q r
    → ((a : A) → Q a → IfOk P (f a))
    → IfOk P (r >>= f)
IfOk-bind Q P (ok a) f q p = p a q
IfOk-bind Q P (err e) f q p = tt
IfOk-bind Q P panic f q p = tt

-- A result whose value does not matter.
IfOk-any {ℓ} : {A : Type ℓ} (r : Result A) → IfOk (λ a. Unit) r
IfOk-any (ok a) = tt
IfOk-any (err e) = tt
IfOk-any panic = tt

IfOk-then {ℓ κ} :
    {A : Type ℓ} {B : Type κ} (P : B → Type 0) (r : Result A) (f : A → Result B)
    → ((a : A) → IfOk P (f a))
    → IfOk P (r >>= f)
IfOk-then P r f p = IfOk-bind (λ a. Unit) P r f (IfOk-any r) (λ a u. p a)

either : (b : Bool) (t u : Tunn) → Bounded t → Bounded u → Bounded (if b then t else u)
either true t u h k = h
either false t u h k = k

either_result :
    (b : Bool) (q r : TunnResult × Tunn)
    → Bounded q.1
    → Bounded r.1
    → Bounded (if b then q else r).1
either_result true q r h k = h
either_result false q r h k = k

abbrev Left : TunnResult × Tunn → Type 0
Left q = Bounded q.1

abbrev Flagged : Bool × Tunn → Type 0
Flagged q = Bounded q.1

sessions-Bounded : (t : Tunn) (now : ℕ) → Bounded t → IfOk Bounded (update_session_timers t now)
unfolding update_session_timers
sessions-Bounded t now h =
    IfOk-then Bounded (expire_sessions now t.timers.session_timers t.sessions) _ (λ rest. h)

cookie-Bounded : (t : Tunn) (now : ℕ) → Bounded t → IfOk Bounded (clear_old_cookie t now)
unfolding clear_old_cookie
cookie-Bounded t now h =
    IfOk-then Bounded
      (due (has_cookie t.handshake) now (get_timer t.timers time_cookie_received)
        cookie_expiration_time)
      _ (λ old. either old _ t h h)

expire-Bounded : (t : Tunn) (now : ℕ) → Bounded (expire_connection t now).1
unfolding expire_connection clear_all
expire-Bounded t now = omega arith

no_answer-Flagged : (t : Tunn) (now : ℕ) → Bounded t → IfOk Flagged (no_answer t now)
unfolding no_answer
no_answer-Flagged t now h =
    let received = get_timer t.timers time_last_packet_received in
    IfOk-then Flagged
      (due (ltb received (get_timer t.timers time_last_data_packet_sent)) now received
        (keepalive_timeout + rekey_timeout))
      _ (λ silent. either silent _ t h h)

keepalive-Flagged : (t : Tunn) (now : ℕ) → Bounded t → IfOk Flagged (keepalive_due t now)
unfolding keepalive_due
keepalive-Flagged t now h =
    let sent = get_timer t.timers time_last_packet_sent in
    IfOk-then Flagged
      (due (ltb sent (get_timer t.timers time_last_data_packet_received)) now sent
        keepalive_timeout)
      _ (λ silent. either silent _ t h h)

persistent-Flagged : (t : Tunn) (now : ℕ) → Bounded t → IfOk Flagged (persistent_due t now)
unfolding persistent_due
persistent-Flagged t now h =
    IfOk-then Flagged
      (due (ltb 0 t.timers.persistent_keepalive) now (get_timer t.timers time_persistent_keepalive)
        (secs t.timers.persistent_keepalive))
      _ (λ d. either d _ t h h)

module _ (crypto : Crypto) (env : Env) (now n : ℕ) where
  act-Bounded : (t : Tunn) (i k : Bool) → Bounded t → Bounded (act crypto t env n i k).1
  act-Bounded t true k h = initiation-Bounded crypto t env n true h
  act-Bounded t false true h = encapsulate-Bounded crypto t env [] n h
  act-Bounded t false false h = h

  quiet-Left :
      (t : Tunn)
      → Bounded t
      → IfOk Left (
          keepalive_due t now >>= λ (keepalive, t₂). persistent_due t₂ now >>= λ (persistent, t₃).
          ok (act crypto t₃ env n false (keepalive || persistent)))
  quiet-Left t h =
      IfOk-bind Flagged Left (keepalive_due t now) _ (keepalive-Flagged t now h) (λ a p.
        IfOk-bind Flagged Left (persistent_due a.1 now) _ (persistent-Flagged a.1 now p)
          (λ b q. act-Bounded b.1 false (a.0 || b.0) q))

  idle-Left : (t : Tunn) → Bounded t → IfOk Left (idle_checks crypto t env now n)
  unfolding idle_checks
  idle-Left t h = IfOk-then Left (rekey_due t now) _ (λ rekey.
      IfOk-bind Flagged Left (no_answer t now) _ (no_answer-Flagged t now h) (λ a p.
        elim (Bool-cases (rekey || a.0)) [
          | inl q ↦ rw q (act-Bounded a.1 true false p)
          | inr q ↦ rw q (quiet-Left a.1 p)
        ]))

  retry-Left : (t : Tunn) (sent : ℕ) → Bounded t → IfOk Left (retry_checks crypto t env now n sent)
  unfolding retry_checks
  retry-Left t sent h =
      IfOk-then Left (sub_duration now (get_timer t.timers time_last_handshake_started)) _
        (λ trying.
          either_result (leb rekey_attempt_time trying) (expire_connection t env.now)
            (act crypto t env n (leb rekey_timeout (env.now - sent)) false)
            (expire-Bounded t env.now) (act-Bounded t (leb rekey_timeout (env.now - sent)) false h))

  by_timer-Left : (o : Option ℕ) (t : Tunn) → Bounded t → IfOk Left (by_timer crypto o t env now n)
  by_timer-Left none t h = idle-Left t h
  by_timer-Left (some sent) t h = retry-Left t sent h

  check-Left : (t : Tunn) → Bounded t → IfOk Left (check_timers crypto t env now n)
  unfolding check_timers
  check-Left t h = elim (Bool-cases (tunn_is_expired t)) [
    | inl q ↦ rw q h
    | inr q ↦ rw q (
        IfOk-bind Bounded Left (clear_old_cookie t now) _ (cookie-Bounded t now h) (λ t₁ p.
          IfOk-then Left (sub_duration now (get_timer t₁.timers time_session_established)) _ (λ age.
            elim (Bool-cases (leb (reject_after_time * 3) age)) [
              | inl r ↦ rw r (expire-Bounded t₁ env.now)
              | inr r ↦ rw r (by_timer-Left (timer t₁.handshake) t₁ p)
            ])))
  ]

or_panicked-Bounded :
    (crypto : Crypto) (t : Tunn) (r : Result (TunnResult × Tunn))
    → Bounded t
    → IfOk Left r
    → Bounded (or_panicked crypto t r).1
or_panicked-Bounded crypto t (ok q) h p = p
or_panicked-Bounded crypto t (err e) h p = h
or_panicked-Bounded crypto t panic h p = h

-- Whatever the clock and the timers show, `update_timers` keeps the queue of waiting packets within its
-- bound.
update_timers-Bounded :
    (crypto : Crypto) (t : Tunn) (env : Env) (n : ℕ)
    → Bounded t
    → Bounded (update_timers crypto t env n).1
unfolding update_timers at_time
update_timers-Bounded crypto t env n h = or_panicked-Bounded crypto t _ h (
    IfOk-bind Bounded Left
      (update_session_timers (at_time crypto t env) (env.now - t.timers.time_started)) _
      (sessions-Bounded (at_time crypto t env) (env.now - t.timers.time_started) h)
      (λ t₁ p. check-Left crypto env (env.now - t.timers.time_started) n t₁ p))
