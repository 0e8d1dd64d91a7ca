-- ===== src/Noise/Tunn/Clock.antt =====
-- `update_timers` of protocol/boringtun/src/noise/timers.rs, and the methods of `Tunn` that it calls.
-- One call reads the clock once.
pub mod Expiry
pub mod Waiting
use xelt_vpn.Prelude.{
  ℕ, ◌+◌, ◌-◌, ◌*◌, ◌%◌, Bool, true, false, ◌&&◌, ◌||◌, List, [], ◌∷◌, Option, none, some, ltb, leb,
  if◌then◌else◌,
}
use xelt_vpn.Noise.Errors.{Result, ok, err, panic, ◌>>=◌, connection_expired}
use xelt_vpn.Noise.Crypto.{Crypto}
use xelt_vpn.Noise.Outcome.{TunnResult, done, error, panicked}
use xelt_vpn.Noise.RateLimiter.{reset_count}
use xelt_vpn.Noise.Session.{Session}
use xelt_vpn.Noise.Handshake.{Env, Handshake, timer, set_expired, has_cookie, clear_cookie}
use xelt_vpn.Noise.Timers.{
  Timers, clear, get_timer, set_timer, sub_duration, persistent_keepalive_of, secs,
  rekey_after_time, reject_after_time, rekey_attempt_time, rekey_timeout, keepalive_timeout,
  cookie_expiration_time, time_current, time_session_established, time_last_handshake_started,
  time_last_packet_received, time_last_packet_sent, time_last_data_packet_received,
  time_last_data_packet_sent, time_cookie_received, time_persistent_keepalive,
}
use xelt_vpn.Noise.Tunn.{
  Tunn, no_sessions, session_at, tick, tunn_is_expired, tunn_format_handshake_initiation,
  encapsulate,
}

unfoldable pub clear_all : Tunn → ℕ → Tunn
clear_all t now = record t {
  sessions = no_sessions;
  packet_queue = [];
  timers = clear t.timers now;
}

-- A session older than `REJECT_AFTER_TIME` goes, and its timer starts anew.
unfoldable pub expire_sessions :
    ℕ → List ℕ → List (Option Session) → Result (List ℕ × List (Option Session))
expire_sessions now [] sessions = ok ([], sessions)
expire_sessions now (t ∷ ts) [] = panic
expire_sessions now (t ∷ ts) (s ∷ sessions) = sub_duration now t >>= λ age.
    expire_sessions now ts sessions >>= λ rest.
    ok (
      if ltb reject_after_time age then (now ∷ rest.0, none ∷ rest.1) else (t ∷ rest.0, s ∷ rest.1))

unfoldable pub update_session_timers : Tunn → ℕ → Result Tunn
update_session_timers t time_now =
    expire_sessions time_now t.timers.session_timers t.sessions >>= λ rest.
    ok (record t { timers = record (t.timers) { session_timers = rest.0 }; sessions = rest.1 })

-- `guard && now - earlier >= limit`, where a false guard skips the subtraction.
unfoldable pub due : Bool → ℕ → ℕ → ℕ → Result Bool
due guard now earlier limit =
    if guard then (sub_duration now earlier >>= λ age. ok (leb limit age)) else ok false

unfoldable pub clear_old_cookie : Tunn → ℕ → Result Tunn
clear_old_cookie t now =
    due (has_cookie t.handshake) now (get_timer t.timers time_cookie_received)
      cookie_expiration_time
    >>= λ old. ok (if old then record t { handshake = clear_cookie t.handshake } else t)

unfoldable pub expire_connection : Tunn → ℕ → TunnResult × Tunn
unfolding clear_all
expire_connection t now =
    (error connection_expired, clear_all (record t { handshake = set_expired t.handshake }) now)

-- The two reasons for a new handshake that only the initiator of the last one has.
unfoldable pub rekey_due : Tunn → ℕ → Result Bool
unfolding due
rekey_due t now =
    let established = get_timer t.timers time_session_established in
    due (t.timers.is_initiator && ltb established (get_timer t.timers time_last_data_packet_sent))
      now established rekey_after_time
    >>= λ on_send.
        due
          (t.timers.is_initiator
            && ltb established (get_timer t.timers time_last_data_packet_received))
          now established (reject_after_time - keepalive_timeout - rekey_timeout)
        >>= λ on_receive. ok (on_send || on_receive)

-- Nothing was heard back after a data packet; `mem::replace` takes the flag.
unfoldable pub no_answer : Tunn → ℕ → Result (Bool × Tunn)
unfolding due
no_answer t now =
    let received = get_timer t.timers time_last_packet_received in
    due (ltb received (get_timer t.timers time_last_data_packet_sent)) now received
      (keepalive_timeout + rekey_timeout)
    >>= λ silent. ok (
      silent && t.timers.want_handshake,
      if silent then record t { timers = record (t.timers) { want_handshake = false } } else t,
    )

unfoldable pub keepalive_due : Tunn → ℕ → Result (Bool × Tunn)
unfolding due
keepalive_due t now =
    let sent = get_timer t.timers time_last_packet_sent in
    due (ltb sent (get_timer t.timers time_last_data_packet_received)) now sent keepalive_timeout
    >>= λ silent. ok (
      silent && t.timers.want_keepalive,
      if silent then record t { timers = record (t.timers) { want_keepalive = false } } else t,
    )

unfoldable pub persistent_due : Tunn → ℕ → Result (Bool × Tunn)
unfolding due
persistent_due t now =
    due (ltb 0 t.timers.persistent_keepalive) now (get_timer t.timers time_persistent_keepalive)
      (secs t.timers.persistent_keepalive)
    >>= λ d. ok (d, if d then tick time_persistent_keepalive t else t)

module _ (crypto : Crypto) where
  -- What the two flags ask for.
  abbrev pub act : Tunn → Env → ℕ → Bool → Bool → TunnResult × Tunn
  act t env dst_len handshake_initiation_required keepalive_required =
      if handshake_initiation_required
      then tunn_format_handshake_initiation crypto t env dst_len true
      else if keepalive_required
      then encapsulate crypto t env [] dst_len
      else (done, t)

  -- No handshake is under way.
  unfoldable pub idle_checks : Tunn → Env → ℕ → ℕ → Result (TunnResult × Tunn)
  unfolding rekey_due no_answer keepalive_due persistent_due
  idle_checks t env now dst_len = rekey_due t now >>= λ rekey.
      no_answer t now >>= λ (unanswered, t₁).
      if rekey || unanswered
      then ok (act t₁ env dst_len true false)
      else keepalive_due t₁ now >>= λ (keepalive, t₂). persistent_due t₂ now >>= λ (persistent, t₃).
          ok (act t₃ env dst_len false (keepalive || persistent))

  -- An initiation was sent at `time_init_sent`.
  unfoldable pub retry_checks : Tunn → Env → ℕ → ℕ → ℕ → Result (TunnResult × Tunn)
  retry_checks t env now dst_len time_init_sent =
      sub_duration now (get_timer t.timers time_last_handshake_started) >>= λ trying. ok (
        if leb rekey_attempt_time trying
        then expire_connection t env.now
        else act t env dst_len (leb rekey_timeout (env.now - time_init_sent)) false)

  abbrev pub by_timer : Option ℕ → Tunn → Env → ℕ → ℕ → Result (TunnResult × Tunn)
  by_timer none t env now dst_len = idle_checks t env now dst_len
  by_timer (some time_init_sent) t env now dst_len = retry_checks t env now dst_len time_init_sent

  unfoldable pub check_timers : Tunn → Env → ℕ → ℕ → Result (TunnResult × Tunn)
  unfolding idle_checks retry_checks
  check_timers t env now dst_len =
      if tunn_is_expired t
      then ok (error connection_expired, t)
      else clear_old_cookie t now >>= λ t₁.
          sub_duration now (get_timer t₁.timers time_session_established) >>= λ age.
          if leb (reject_after_time * 3) age
          then ok (expire_connection t₁ env.now)
          else by_timer (timer t₁.handshake) t₁ env now dst_len

  -- The limiter and the current time come first.
  unfoldable pub at_time : Tunn → Env → Tunn
  at_time t env =
      let limiter =
        if t.timers.should_reset_rr then reset_count t.rate_limiter env.now else t.rate_limiter in
      record t {
        rate_limiter = limiter;
        timers = set_timer t.timers time_current (env.now - t.timers.time_started);
      }

  abbrev pub or_panicked : Tunn → Result (TunnResult × Tunn) → TunnResult × Tunn
  or_panicked t (ok r) = r
  or_panicked t (err e) = (error e, t)
  or_panicked t panic = (panicked, t)

  unfoldable pub update_timers : Tunn → Env → ℕ → TunnResult × Tunn
  unfolding check_timers at_time
  update_timers t env dst_len =
      let now = env.now - t.timers.time_started in
      or_panicked t
        (update_session_timers (at_time t env) now >>= λ t₁. check_timers t₁ env now dst_len)

unfoldable pub time_since_last_handshake : Tunn → ℕ → Result (Option ℕ)
time_since_last_handshake t now = elim (session_at t t.current) [
  | none ↦ ok none
  | some s ↦
      sub_duration (now - t.timers.time_started) (get_timer t.timers time_session_established)
      >>= λ d. ok (some d)
]
