-- ===== src/Noise/Timers.antt =====
-- `Timers` of protocol/boringtun/src/noise/timers.rs. A duration is a number of nanoseconds since
-- `time_started`.
use xelt_vpn.Prelude.{
  ℕ, zero, suc, ◌-◌, ◌*◌, ◌%◌, ◌^◌, Bool, true, false, List, Option, none, some, ltb, if◌then◌else◌,
  get_or, set, replicate,
}
use xelt_vpn.Noise.Errors.{Result, ok, panic}
use xelt_vpn.Noise.Handshake.Timestamp.{nanos_per_sec}

abbrev pub secs : ℕ → ℕ
secs s = s * nanos_per_sec

abbrev pub rekey_after_time : ℕ
rekey_after_time = secs 120

abbrev pub reject_after_time : ℕ
reject_after_time = secs 180

abbrev pub rekey_attempt_time : ℕ
rekey_attempt_time = secs 90

abbrev pub rekey_timeout : ℕ
rekey_timeout = secs 5

abbrev pub keepalive_timeout : ℕ
keepalive_timeout = secs 10

abbrev pub cookie_expiration_time : ℕ
cookie_expiration_time = secs 120

abbrev pub n_sessions : ℕ
n_sessions = 8

pub data TimerName : Type 0 where
  time_current time_session_established time_last_handshake_started : TimerName
  time_last_packet_received time_last_packet_sent : TimerName
  time_last_data_packet_received time_last_data_packet_sent : TimerName
  time_cookie_received time_persistent_keepalive : TimerName

-- `as usize`.
abbrev pub slot : TimerName → ℕ
slot time_current = 0
slot time_session_established = 1
slot time_last_handshake_started = 2
slot time_last_packet_received = 3
slot time_last_packet_sent = 4
slot time_last_data_packet_received = 5
slot time_last_data_packet_sent = 6
slot time_cookie_received = 7
slot time_persistent_keepalive = 8

abbrev pub timer_count : ℕ
timer_count = 9

pub record Timers : Type 0 where
  pub is_initiator : Bool
  pub time_started : ℕ
  pub timers : List ℕ
  pub session_timers : List ℕ
  pub want_keepalive : Bool
  pub want_handshake : Bool
  pub persistent_keepalive : ℕ
  pub should_reset_rr : Bool

abbrev pub or_zero : Option ℕ → ℕ
or_zero none = 0
or_zero (some n) = n

unfoldable pub new_timers : Option ℕ → Bool → ℕ → Timers
new_timers persistent_keepalive reset_rr now = record {
  is_initiator = false;
  time_started = now;
  timers = replicate timer_count 0;
  session_timers = replicate n_sessions 0;
  want_keepalive = false;
  want_handshake = false;
  persistent_keepalive = or_zero persistent_keepalive;
  should_reset_rr = reset_rr;
}

-- Every timer at the current time; an earlier clock gives 0.
unfoldable pub clear : Timers → ℕ → Timers
clear t now = record t {
  timers = replicate timer_count (now - t.time_started);
  want_handshake = false;
  want_keepalive = false;
}

abbrev pub get_timer : Timers → TimerName → ℕ
get_timer t name = get_or t.timers (slot name) 0

abbrev pub set_timer : Timers → TimerName → ℕ → Timers
set_timer t name time = record t { timers = set t.timers (slot name) time }

-- The flags that a tick of `name` leaves.
abbrev pub tick_flags : TimerName → Timers → Timers
tick_flags time_last_packet_received t = record t { want_keepalive = true; want_handshake = false }
tick_flags time_last_packet_sent t = record t { want_handshake = true; want_keepalive = false }
tick_flags time_current t = t
tick_flags time_session_established t = t
tick_flags time_last_handshake_started t = t
tick_flags time_last_data_packet_received t = t
tick_flags time_last_data_packet_sent t = t
tick_flags time_cookie_received t = t
tick_flags time_persistent_keepalive t = t

-- `Tunn::timer_tick`.
unfoldable pub timer_tick : Timers → TimerName → Timers
timer_tick t name = set_timer (tick_flags name t) name (get_timer t time_current)

-- `Duration - Duration` panics below zero.
unfoldable pub sub_duration : ℕ → ℕ → Result ℕ
sub_duration now earlier = if ltb now earlier then panic else ok (now - earlier)

-- `Timers::persistent_keepalive` as `Tunn::persistent_keepalive` returns it.
abbrev pub keepalive_option : ℕ → Option ℕ
keepalive_option zero = none
keepalive_option (suc n) = some (suc n % 2 ^ 16)

unfoldable pub persistent_keepalive_of : Timers → Option ℕ
persistent_keepalive_of t = keepalive_option t.persistent_keepalive
