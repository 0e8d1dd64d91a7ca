-- ===== src/Noise/Tunn.antt =====
-- `Tunn` of protocol/boringtun/src/noise/mod.rs: one tunnel to one peer. A method takes the buffer `dst`
-- by its length and returns its result with the tunnel that it leaves. The limiter that a device shares
-- between tunnels is part of the state here.
pub mod Inbound
pub mod Clock
pub mod Address
pub mod Validate
pub mod Queue
mod Tests
use xelt_vpn.Prelude.{
  ℕ, ◌+◌, ◌*◌, ◌%◌, ◌^◌, Bool, true, false, not, ◌&&◌, ◌||◌, List, [], ◌∷◌, ◌++◌, Option, none,
  some, ltb, leb, ◌==◌, if◌then◌else◌, length, get_or, set, replicate,
}
use xelt_vpn.Noise.Errors.{Result, ok, err, panic}
use xelt_vpn.Noise.Crypto.{Crypto}
use xelt_vpn.Noise.Outcome.{
  TunnResult, done, error, write_to_network, write_to_tunnel_v4, write_to_tunnel_v6, panicked,
  to_network,
}
use xelt_vpn.Noise.RateLimiter.{RateLimiter, new_limiter}
use xelt_vpn.Noise.Session.{Session, format_packet_data}
use xelt_vpn.Noise.Session.Window.{add_u64}
use xelt_vpn.Noise.Handshake.{
  Handshake, Env, new_handshake, set_static_private, is_in_progress, is_expired,
}
use xelt_vpn.Noise.Handshake.Timestamp.{TimeStamper}
use xelt_vpn.Noise.Handshake.Initiate.{format_handshake_initiation}
use xelt_vpn.Noise.Timers.{
  Timers, TimerName, new_timers, clear, get_timer, timer_tick, n_sessions, time_current,
  time_session_established, time_last_handshake_started, time_last_packet_sent,
  time_last_data_packet_sent,
}

abbrev pub max_queue_depth : ℕ
max_queue_depth = 256

abbrev pub peer_handshake_rate_limit : ℕ
peer_handshake_rate_limit = 10

pub record Tunn : Type 0 where
  pub handshake : Handshake
  pub sessions : List (Option Session)
  pub current : ℕ
  pub packet_queue : List (List ℕ)
  pub timers : Timers
  pub tx_bytes : ℕ
  pub rx_bytes : ℕ
  pub rate_limiter : RateLimiter

abbrev pub no_sessions : List (Option Session)
no_sessions = replicate n_sessions none

abbrev pub tunn_is_expired : Tunn → Bool
tunn_is_expired t = is_expired t.handshake

-- The entry of the ring for an index, and the ring with another session there.
abbrev pub session_at : Tunn → ℕ → Option Session
session_at t i = get_or t.sessions (i % n_sessions) none

abbrev pub put_session : Tunn → ℕ → Session → Tunn
put_session t i s = record t { sessions = set t.sessions (i % n_sessions) (some s) }

abbrev pub tick : TimerName → Tunn → Tunn
tick name t = record t { timers = timer_tick t.timers name }

unfoldable pub timer_tick_session_established : Tunn → Bool → ℕ → Tunn
timer_tick_session_established t is_initiator session_idx =
    let t₁ = tick time_session_established t in
    record t₁ {
      timers = record (t₁.timers) {
        session_timers =
            set t₁.timers.session_timers (session_idx % n_sessions)
              (get_timer t₁.timers time_current);
        is_initiator = is_initiator;
      };
    }

-- A full queue drops the packet.
unfoldable pub queue_packet : Tunn → List ℕ → Tunn
queue_packet t packet =
    if ltb (length t.packet_queue) max_queue_depth
    then record t { packet_queue = t.packet_queue ++ (packet ∷ []) }
    else t

unfoldable pub requeue_packet : Tunn → List ℕ → Tunn
requeue_packet t packet =
    if ltb (length t.packet_queue) max_queue_depth
    then record t { packet_queue = packet ∷ t.packet_queue }
    else t

abbrev pub pop_front : Tunn → List (List ℕ) → Option (List ℕ × Tunn)
pop_front t [] = none
pop_front t (packet ∷ rest) = some (packet, record t { packet_queue = rest })

unfoldable pub dequeue_packet : Tunn → Option (List ℕ × Tunn)
dequeue_packet t = pop_front t t.packet_queue

-- Stay with the current session unless it is gone or older than the new one.
unfoldable pub set_current_session : Tunn → ℕ → Tunn
set_current_session t new_idx =
    if t.current == new_idx
    then t
    else if is_none (session_at t t.current)
        || leb (get_or t.timers.session_timers (t.current % n_sessions) 0)
            (get_or t.timers.session_timers (new_idx % n_sessions) 0)
    then record t { current = new_idx }
    else t
  where
    is_none : Option Session → Bool
    is_none none = true
    is_none (some s) = false

-- A limiter of one's own if none is given, with the random keys that it draws.
abbrev pub or_own : Crypto → Option RateLimiter → List ℕ → List ℕ → List ℕ → ℕ → RateLimiter
or_own crypto (some shared) nonce_key secret_key static_public now = shared
or_own crypto none nonce_key secret_key static_public now =
    new_limiter crypto nonce_key secret_key static_public peer_handshake_rate_limit now

abbrev pub none_given : Option RateLimiter → Bool
none_given none = true
none_given (some r) = false

module _ (crypto : Crypto) where
  unfoldable pub new_tunn :
      List ℕ
      → List ℕ
      → Option (List ℕ)
      → Option ℕ
      → ℕ
      → Option RateLimiter
      → List ℕ
      → List ℕ
      → TimeStamper
      → ℕ
      → Tunn
  new_tunn static_private peer_static_public preshared_key persistent_keepalive index rate_limiter
        nonce_key secret_key stamper now =
      record {
        handshake =
            new_handshake crypto static_private (crypto.public_key static_private)
              peer_static_public (index * 256 % 2 ^ 32) preshared_key stamper;
        sessions = no_sessions;
        current = 0;
        tx_bytes = 0;
        rx_bytes = 0;
        packet_queue = [];
        timers = new_timers persistent_keepalive (none_given rate_limiter) now;
        rate_limiter =
            or_own crypto rate_limiter nonce_key secret_key (crypto.public_key static_private) now;
      }

  -- The private key and the limiter change, and the sessions go.
  abbrev pub with_key :
      Tunn → Option RateLimiter → List ℕ → List ℕ → List ℕ → ℕ → Result Handshake → Result Tunn
  with_key t rate_limiter nonce_key secret_key static_public now (ok h) = ok (record t {
    timers = record (t.timers) { should_reset_rr = none_given rate_limiter };
    rate_limiter = or_own crypto rate_limiter nonce_key secret_key static_public now;
    handshake = h;
    sessions = no_sessions;
  })
  with_key t rate_limiter nonce_key secret_key static_public now (err e) = err e
  with_key t rate_limiter nonce_key secret_key static_public now panic = panic

  unfoldable pub tunn_set_static_private :
      Tunn → List ℕ → List ℕ → Option RateLimiter → List ℕ → List ℕ → ℕ → Result Tunn
  tunn_set_static_private t static_private static_public rate_limiter nonce_key secret_key now =
      with_key t rate_limiter nonce_key secret_key static_public now
        (set_static_private crypto t.handshake static_private static_public)

  -- The timers that a message that was formatted ticks.
  abbrev pub initiation_sent : Bool → Result (List ℕ) → Tunn → Tunn
  initiation_sent starting (ok packet) t =
      tick time_last_packet_sent (if starting then tick time_last_handshake_started t else t)
  initiation_sent starting (err e) t = t
  initiation_sent starting panic t = t

  unfoldable pub tunn_format_handshake_initiation : Tunn → Env → ℕ → Bool → TunnResult × Tunn
  tunn_format_handshake_initiation t env dst_len force_resend =
      if is_in_progress t.handshake && not force_resend
      then (done, t)
      else let t₁ =
          if is_expired t.handshake then record t { timers = clear t.timers env.now } else t in
        let starting = not (is_in_progress t.handshake) in
        let (r, h) = format_handshake_initiation crypto t.handshake env dst_len in
        (to_network r, initiation_sent starting r (record t₁ { handshake = h }))

  abbrev pub is_empty : List ℕ → Bool
  is_empty [] = true
  is_empty (b ∷ bs) = false

  -- After a data packet left: the timers, and the count of bytes.
  abbrev pub data_sent : List ℕ → Result (List ℕ) → Tunn → Tunn
  data_sent src (ok packet) t =
      let t₁ = tick time_last_packet_sent t in
      let t₂ = if is_empty src then t₁ else tick time_last_data_packet_sent t₁ in
      record t₂ { tx_bytes = add_u64 t₂.tx_bytes (length src) }
  data_sent src (err e) t = t
  data_sent src panic t = t

  abbrev pub encapsulate_by : Option Session → Tunn → Env → List ℕ → ℕ → TunnResult × Tunn
  encapsulate_by (some session) t env src dst_len =
      let (r, s) = format_packet_data crypto.aead session src dst_len in
      (to_network r, data_sent src r (put_session t t.current s))
  encapsulate_by none t env src dst_len =
      tunn_format_handshake_initiation (queue_packet t src) env dst_len false

  unfoldable pub encapsulate : Tunn → Env → List ℕ → ℕ → TunnResult × Tunn
  encapsulate t env src dst_len = encapsulate_by (session_at t t.current) t env src dst_len

  -- An error puts the packet back in front.
  abbrev pub back_on_error : List ℕ → TunnResult × Tunn → TunnResult × Tunn
  back_on_error packet (error e, t) = (done, requeue_packet t packet)
  back_on_error packet (done, t) = (done, t)
  back_on_error packet (write_to_network bytes, t) = (write_to_network bytes, t)
  back_on_error packet (write_to_tunnel_v4 bytes addr, t) = (write_to_tunnel_v4 bytes addr, t)
  back_on_error packet (write_to_tunnel_v6 bytes addr, t) = (write_to_tunnel_v6 bytes addr, t)
  back_on_error packet (panicked, t) = (panicked, t)

  unfoldable pub send_queued_packet : Tunn → Env → ℕ → TunnResult × Tunn
  send_queued_packet t env dst_len = elim (dequeue_packet t) [
    | none ↦ (done, t)
    | some (packet, t₁) ↦ back_on_error packet (encapsulate t₁ env packet dst_len)
  ]
