-- ===== src/Noise/Tunn/Queue/Arrivals.antt =====
-- What arrives leaves the queue within its bound.
use xelt_vpn.Prelude.{ℕ, refl, inl, inr, List, [], ◌∷◌, Option, none, some, ltb, length, Bool-cases}
use xelt_vpn.Noise.Errors.{Result, ok, err, panic}
use xelt_vpn.Noise.Crypto.{Crypto}
use xelt_vpn.Noise.Packet.{
  Packet, PacketData, handshake_init, handshake_response, packet_cookie_reply, packet_data,
  cookie_reply_sz,
}
use xelt_vpn.Noise.Outcome.{
  IpAddr, done, error, write_to_network, write_to_tunnel_v4, write_to_tunnel_v6, panicked,
}
use xelt_vpn.Noise.RateLimiter.{Verdict, pass, refuse, verify_packet}
use xelt_vpn.Noise.Session.{Session, format_packet_data, receive_packet_data}
use xelt_vpn.Noise.Handshake.{Env}
use xelt_vpn.Noise.Handshake.Initiate.{receive_handshake_response}
use xelt_vpn.Noise.Handshake.Respond.{receive_handshake_initialization}
use xelt_vpn.Noise.Handshake.Cookie.{receive_cookie_reply}
use xelt_vpn.Noise.Timers.{time_last_packet_received}
use xelt_vpn.Noise.Tunn.Address.{length_and_source}
use xelt_vpn.Noise.Tunn.Inbound.{
  validate_decapsulated_packet, cut_packet, init_handled, cookie_handled, data_opened,
  keepalive_sent, response_handled, data_by, handle_handshake_init, handle_handshake_response,
  handle_cookie_reply, handle_data, dispatch, handle_verified_packet, on_verdict, decapsulate,
  with_handshake,
}
use xelt_vpn.Noise.Tunn.{
  Tunn, session_at, put_session, tick, set_current_session, timer_tick_session_established,
}
use xelt_vpn.Noise.Tunn.Queue.{Bounded, set_current-Bounded, send_queued-Bounded}

module _ (crypto : Crypto) where
  cut-Bounded :
      (t : Tunn) (packet : List ℕ) (c : Option (ℕ × IpAddr))
      → Bounded t
      → Bounded (cut_packet t packet c).1
  cut-Bounded t packet none h = h
  cut-Bounded t packet (some (n, a)) h = elim (Bool-cases (ltb (length packet) n)) [
    | inl q ↦ rw q h
    | inr q ↦ rw q h
  ]

  validate-Bounded :
      (t : Tunn) (packet : List ℕ) → Bounded t → Bounded (validate_decapsulated_packet t packet).1
  unfolding validate_decapsulated_packet
  validate-Bounded t [] h = h
  validate-Bounded t (b ∷ bs) h = cut-Bounded t (b ∷ bs) (length_and_source b (b ∷ bs)) h

  init-Bounded :
      (t : Tunn) (r : Result (List ℕ × Session)) → Bounded t → Bounded (init_handled t r).1
  unfolding timer_tick_session_established
  init-Bounded t (ok (p, s)) h = h
  init-Bounded t (err e) h = h
  init-Bounded t panic h = h

  cookie-Bounded : (t : Tunn) (r : Result (Unit {0})) → Bounded t → Bounded (cookie_handled t r).1
  cookie-Bounded t (ok _) h = h
  cookie-Bounded t (err e) h = h
  cookie-Bounded t panic h = h

  opened-Bounded :
      (t : Tunn) (i : ℕ) (r : Result (List ℕ)) → Bounded t → Bounded (data_opened t i r).1
  opened-Bounded t i (ok p) h =
      validate-Bounded (tick time_last_packet_received (set_current_session t i)) p
        (set_current-Bounded t i h)
  opened-Bounded t i (err e) h = h
  opened-Bounded t i panic h = h

  keepalive-Bounded :
      (t : Tunn) (r : Result (List ℕ)) (s : Session) → Bounded t → Bounded (keepalive_sent t r s).1
  unfolding timer_tick_session_established
  keepalive-Bounded t (ok p) s h = set_current-Bounded _ _ h
  keepalive-Bounded t (err e) s h = h
  keepalive-Bounded t panic s h = h

  response-Bounded :
      (t : Tunn) (n : ℕ) (r : Result Session)
      → Bounded t
      → Bounded (response_handled crypto t n r).1
  response-Bounded t n (ok s) h =
      let (r, s') = format_packet_data crypto.aead s [] n in keepalive-Bounded t r s' h
  response-Bounded t n (err e) h = h
  response-Bounded t n panic h = h

  data_by-Bounded :
      (s : Option Session) (t : Tunn) (p : PacketData) (n : ℕ)
      → Bounded t
      → Bounded (data_by crypto s t p n).1
  data_by-Bounded none t p n h = h
  data_by-Bounded (some s) t p n h =
      let (r, s') = receive_packet_data crypto.aead s p n in
      opened-Bounded (put_session t p.receiver_idx s') p.receiver_idx r h

  dispatch-Bounded :
      (t : Tunn) (env : Env) (p : Packet) (n : ℕ)
      → Bounded t
      → Bounded (dispatch crypto t env p n).1
  unfolding handle_handshake_init handle_handshake_response handle_cookie_reply handle_data
  dispatch-Bounded t env (handshake_init p) n h =
      let (r, k) = receive_handshake_initialization crypto t.handshake env p n in
      init-Bounded (with_handshake t k) r h
  dispatch-Bounded t env (handshake_response p) n h =
      let (r, k) = receive_handshake_response crypto t.handshake env p in
      response-Bounded (with_handshake t k) n r h
  dispatch-Bounded t env (packet_cookie_reply p) n h =
      let (r, k) = receive_cookie_reply crypto t.handshake p in
      cookie-Bounded (with_handshake t k) r h
  dispatch-Bounded t env (packet_data p) n h = data_by-Bounded (session_at t p.receiver_idx) t p n h

  verdict-Bounded :
      (t : Tunn) (env : Env) (n : ℕ) (v : Verdict)
      → Bounded t
      → Bounded (on_verdict crypto t env n v).1
  unfolding handle_verified_packet
  verdict-Bounded t env n (pass p) h = dispatch-Bounded t env p n h
  verdict-Bounded t env n (refuse (write_to_network c)) h = elim (Bool-cases (ltb n (length c))) [
    | inl q ↦ rw q h
    | inr q ↦ rw q h
  ]
  verdict-Bounded t env n (refuse (error e)) h = h
  verdict-Bounded t env n (refuse done) h = h
  verdict-Bounded t env n (refuse (write_to_tunnel_v4 b a)) h = h
  verdict-Bounded t env n (refuse (write_to_tunnel_v6 b a)) h = h
  verdict-Bounded t env n (refuse panicked) h = h

  -- Whatever datagram comes in, `decapsulate` keeps the queue of waiting packets within its bound.
  pub decapsulate-Bounded :
      (t : Tunn) (env : Env) (addr : Option IpAddr) (datagram : List ℕ) (n : ℕ)
      → Bounded t
      → Bounded (decapsulate crypto t env addr datagram n).1
  unfolding decapsulate
  decapsulate-Bounded t env addr [] n h = send_queued-Bounded crypto t t.packet_queue env n refl h
  decapsulate-Bounded t env addr (b ∷ bs) n h =
      let (v, limiter) =
        verify_packet crypto t.rate_limiter env.now addr (b ∷ bs) cookie_reply_sz in
      verdict-Bounded (record t { rate_limiter = limiter }) env n v h
