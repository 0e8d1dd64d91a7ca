-- ===== src/Noise/Tunn/Queue.antt =====
-- The queue of packets that wait for a session keeps its bound.
pub mod Arrivals
pub mod Requeue
use xelt_vpn.Prelude.{
  ℕ, ◌+◌, ◌≤◌, ◌<◌, ◌≡◌, refl, ap, sym, ◌∙◌, inl, inr, Bool, true, false, not, ◌&&◌, ◌||◌, List, [],
  ◌∷◌, ◌++◌, Option, none, some, ltb, leb, ◌==◌, if◌then◌else◌, length, length-append, Bool-cases,
  arith,
}
use xelt_vpn.Noise.Errors.{Result, ok, err, panic}
use xelt_vpn.Noise.Crypto.{Crypto}
use xelt_vpn.Noise.Packet.{
  Packet, HandshakeInit, HandshakeResponse, PacketCookieReply, PacketData, handshake_init,
  handshake_response, packet_cookie_reply, packet_data, cookie_reply_sz,
}
use xelt_vpn.Noise.Outcome.{
  IpAddr, TunnResult, done, error, write_to_network, write_to_tunnel_v4, write_to_tunnel_v6,
  panicked,
}
use xelt_vpn.Noise.RateLimiter.{Verdict, pass, refuse, verify_packet}
use xelt_vpn.Noise.Session.{Session, format_packet_data, receive_packet_data}
use xelt_vpn.Noise.Handshake.{Handshake, Env, is_in_progress, is_expired}
use xelt_vpn.Noise.Handshake.Initiate.{format_handshake_initiation, receive_handshake_response}
use xelt_vpn.Noise.Handshake.Respond.{receive_handshake_initialization}
use xelt_vpn.Noise.Handshake.Cookie.{receive_cookie_reply}
use xelt_vpn.Noise.Timers.{Timers, clear, timer_tick, time_last_packet_received}
use xelt_vpn.Noise.Tunn.Address.{length_and_source}
use xelt_vpn.Noise.Tunn.Inbound.{
  validate_decapsulated_packet, cut_packet, init_handled, cookie_handled, data_opened,
  keepalive_sent, response_handled, data_by, handle_handshake_init, handle_handshake_response,
  handle_cookie_reply, handle_data, dispatch, handle_verified_packet, on_verdict, decapsulate,
  with_handshake,
}
use xelt_vpn.Noise.Tunn.{
  Tunn, session_at, put_session, tick, queue_packet, requeue_packet, dequeue_packet, pop_front,
  set_current_session, timer_tick_session_established, initiation_sent, data_sent,
  tunn_format_handshake_initiation, encapsulate_by, encapsulate, back_on_error, send_queued_packet,
  max_queue_depth,
}

-- At most `max_queue_depth` packets wait.
abbrev pub Bounded : Tunn → Type 0
Bounded t = length t.packet_queue ≤ max_queue_depth

queue_packet-Bounded : (t : Tunn) (p : List ℕ) → Bounded t → Bounded (queue_packet t p)
unfolding queue_packet
queue_packet-Bounded t p h = ground (arith, length-append t.packet_queue (p ∷ []))

requeue_packet-Bounded : (t : Tunn) (p : List ℕ) → Bounded t → Bounded (requeue_packet t p)
unfolding requeue_packet
requeue_packet-Bounded t p h = ground arith

pub set_current-Bounded : (t : Tunn) (i : ℕ) → Bounded t → Bounded (set_current_session t i)
unfolding set_current_session
set_current-Bounded t i h = ground arith

module _ (crypto : Crypto) where
  initiation_sent-Bounded :
      (starting : Bool) (r : Result (List ℕ)) (t : Tunn)
      → Bounded t
      → Bounded (initiation_sent crypto starting r t)
  initiation_sent-Bounded true (ok p) t h = h
  initiation_sent-Bounded false (ok p) t h = h
  initiation_sent-Bounded starting (err e) t h = h
  initiation_sent-Bounded starting panic t h = h

  cleared-Bounded :
      (b : Bool) (t : Tunn) (v : Timers)
      → Bounded t
      → Bounded (if b then record t { timers = v } else t)
  cleared-Bounded true t v h = h
  cleared-Bounded false t v h = h

  pub initiation-Bounded :
      (t : Tunn) (env : Env) (n : ℕ) (force : Bool)
      → Bounded t
      → Bounded (tunn_format_handshake_initiation crypto t env n force).1
  unfolding tunn_format_handshake_initiation
  initiation-Bounded t env n force h = elim (Bool-cases (is_in_progress t.handshake && not force)) [
    | inl q ↦ rw q h
    | inr q ↦ rw q (
        initiation_sent-Bounded (not (is_in_progress t.handshake))
          (format_handshake_initiation crypto t.handshake env n).0 _
          (cleared-Bounded (is_expired t.handshake) t (clear t.timers env.now) h))
  ]

  data_sent-Bounded :
      (t : Tunn) (src : List ℕ) (r : Result (List ℕ))
      → Bounded t
      → Bounded (data_sent crypto src r t)
  data_sent-Bounded t [] (ok p) h = h
  data_sent-Bounded t (b ∷ bs) (ok p) h = h
  data_sent-Bounded t src (err e) h = h
  data_sent-Bounded t src panic h = h

  encapsulate_by-Bounded :
      (s : Option Session) (t : Tunn) (env : Env) (src : List ℕ) (n : ℕ)
      → Bounded t
      → Bounded (encapsulate_by crypto s t env src n).1
  encapsulate_by-Bounded none t env src n h =
      initiation-Bounded (queue_packet t src) env n false (queue_packet-Bounded t src h)
  encapsulate_by-Bounded (some s) t env src n h =
      let (r, s') = format_packet_data crypto.aead s src n in
      data_sent-Bounded (put_session t t.current s') src r h

  -- `encapsulate` keeps the queue of waiting packets within its bound.
  pub encapsulate-Bounded :
      (t : Tunn) (env : Env) (src : List ℕ) (n : ℕ)
      → Bounded t
      → Bounded (encapsulate crypto t env src n).1
  unfolding encapsulate
  encapsulate-Bounded t env src n h = encapsulate_by-Bounded (session_at t t.current) t env src n h

  back_on_error-Bounded :
      (p : List ℕ) (q : TunnResult × Tunn) → Bounded q.1 → Bounded (back_on_error crypto p q).1
  back_on_error-Bounded p (error e, t) h = requeue_packet-Bounded t p h
  back_on_error-Bounded p (done, t) h = h
  back_on_error-Bounded p (write_to_network b, t) h = h
  back_on_error-Bounded p (write_to_tunnel_v4 b a, t) h = h
  back_on_error-Bounded p (write_to_tunnel_v6 b a, t) h = h
  back_on_error-Bounded p (panicked, t) h = h

  pub send_queued-Bounded :
      (t : Tunn) (q : List (List ℕ)) (env : Env) (n : ℕ)
      → t.packet_queue ≡ q
      → Bounded t
      → Bounded (send_queued_packet crypto t env n).1
  unfolding send_queued_packet dequeue_packet
  send_queued-Bounded t [] env n e h = rw e (omega arith)
  send_queued-Bounded t (p ∷ ps) env n e h =
      let t₁ : Tunn = record t { packet_queue = ps } in
      rw e (
        back_on_error-Bounded p (encapsulate crypto t₁ env p n)
          (encapsulate-Bounded t₁ env p n (omega (arith, ap length e))))
