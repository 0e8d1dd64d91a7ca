-- ===== src/Noise/Tunn/Inbound.antt =====
-- A datagram that arrives: `decapsulate` of protocol/boringtun/src/noise/mod.rs and the handlers it
-- calls.
use xelt_vpn.Prelude.{
  ℕ, ◌%◌, true, false, List, [], ◌∷◌, Option, none, some, ltb, if◌then◌else◌, length, take,
}
use xelt_vpn.Noise.Errors.{Result, ok, err, panic, invalid_packet, no_current_session}
use xelt_vpn.Noise.Crypto.{Crypto}
use xelt_vpn.Noise.Packet.{
  Packet, HandshakeInit, HandshakeResponse, PacketCookieReply, PacketData, handshake_init,
  handshake_response, packet_cookie_reply, packet_data, cookie_reply_sz,
}
use xelt_vpn.Noise.Outcome.{
  IpAddr, v4, v6, TunnResult, done, error, write_to_network, write_to_tunnel_v4, write_to_tunnel_v6,
  panicked, unwrap_or_from,
}
use xelt_vpn.Noise.RateLimiter.{Verdict, pass, refuse, verify_packet}
use xelt_vpn.Noise.Session.{Session, local_index, format_packet_data, receive_packet_data}
use xelt_vpn.Noise.Session.Window.{add_u64}
use xelt_vpn.Noise.Handshake.{Handshake, Env}
use xelt_vpn.Noise.Handshake.Initiate.{receive_handshake_response}
use xelt_vpn.Noise.Handshake.Respond.{receive_handshake_initialization}
use xelt_vpn.Noise.Handshake.Cookie.{receive_cookie_reply}
use xelt_vpn.Noise.Timers.{
  n_sessions, time_last_packet_received, time_last_packet_sent, time_last_data_packet_received,
  time_cookie_received,
}
use xelt_vpn.Noise.Tunn.Address.{length_and_source}
use xelt_vpn.Noise.Tunn.{
  Tunn, session_at, put_session, tick, timer_tick_session_established, set_current_session,
  send_queued_packet,
}

-- The packet cut to its length, with its source.
abbrev pub to_tunnel : List ℕ → IpAddr → TunnResult
to_tunnel bytes (v4 addr) = write_to_tunnel_v4 bytes addr
to_tunnel bytes (v6 addr) = write_to_tunnel_v6 bytes addr

abbrev pub cut_packet : Tunn → List ℕ → Option (ℕ × IpAddr) → TunnResult × Tunn
cut_packet t packet none = (error invalid_packet, t)
cut_packet t packet (some (computed_len, src)) =
    if ltb (length packet) computed_len
    then (error invalid_packet, t)
    else let t₁ = tick time_last_data_packet_received t in
      (
        to_tunnel (take computed_len packet) src,
        record t₁ { rx_bytes = add_u64 t₁.rx_bytes computed_len },
      )

-- An empty packet is a keepalive.
unfoldable pub validate_decapsulated_packet : Tunn → List ℕ → TunnResult × Tunn
validate_decapsulated_packet t [] = (done, t)
validate_decapsulated_packet t (first ∷ rest) =
    cut_packet t (first ∷ rest) (length_and_source first (first ∷ rest))

-- `?` on the result of a method of the handshake.
abbrev pub with_handshake : Tunn → Handshake → Tunn
with_handshake t h = record t { handshake = h }

abbrev pub init_handled : Tunn → Result (List ℕ × Session) → Result TunnResult × Tunn
init_handled t (ok (packet, session)) =
    let index = local_index session in
    (
      ok (write_to_network packet),
      timer_tick_session_established
          (tick time_last_packet_sent
            (tick time_last_packet_received (put_session t index session)))
          false index,
    )
init_handled t (err e) = (err e, t)
init_handled t panic = (panic, t)

abbrev pub cookie_handled : Tunn → Result (Unit {0}) → Result TunnResult × Tunn
cookie_handled t (ok _) = (ok done, tick time_cookie_received (tick time_last_packet_received t))
cookie_handled t (err e) = (err e, t)
cookie_handled t panic = (panic, t)

-- What follows the decryption.
abbrev pub data_opened : Tunn → ℕ → Result (List ℕ) → Result TunnResult × Tunn
data_opened t r_idx (ok packet) =
    let (r, t₁) =
      validate_decapsulated_packet (tick time_last_packet_received (set_current_session t r_idx))
        packet in
    (ok r, t₁)
data_opened t r_idx (err e) = (err e, t)
data_opened t r_idx panic = (panic, t)

-- The keepalive that answers a handshake response, and the session that sent it.
abbrev pub keepalive_sent : Tunn → Result (List ℕ) → Session → Result TunnResult × Tunn
keepalive_sent t (ok packet) session =
    let l_idx = local_index session in
    let t₁ = tick time_last_packet_received (put_session t l_idx session) in
    (
      ok (write_to_network packet),
      set_current_session (timer_tick_session_established t₁ true (l_idx % n_sessions)) l_idx,
    )
keepalive_sent t (err e) session = (err e, t)
keepalive_sent t panic session = (panic, t)

module _ (crypto : Crypto) where
  unfoldable pub handle_handshake_init : Tunn → Env → HandshakeInit → ℕ → Result TunnResult × Tunn
  handle_handshake_init t env p dst_len =
      let (r, h) = receive_handshake_initialization crypto t.handshake env p dst_len in
      init_handled (with_handshake t h) r

  abbrev pub response_handled : Tunn → ℕ → Result Session → Result TunnResult × Tunn
  response_handled t dst_len (ok session) =
      let (r, s) = format_packet_data crypto.aead session [] dst_len in keepalive_sent t r s
  response_handled t dst_len (err e) = (err e, t)
  response_handled t dst_len panic = (panic, t)

  unfoldable pub handle_handshake_response :
      Tunn → Env → HandshakeResponse → ℕ → Result TunnResult × Tunn
  handle_handshake_response t env p dst_len =
      let (r, h) = receive_handshake_response crypto t.handshake env p in
      response_handled (with_handshake t h) dst_len r

  unfoldable pub handle_cookie_reply : Tunn → PacketCookieReply → Result TunnResult × Tunn
  handle_cookie_reply t p =
      let (r, h) = receive_cookie_reply crypto t.handshake p in
      cookie_handled (with_handshake t h) r

  abbrev pub data_by : Option Session → Tunn → PacketData → ℕ → Result TunnResult × Tunn
  data_by none t p dst_len = (err no_current_session, t)
  data_by (some session) t p dst_len =
      let (r, s) = receive_packet_data crypto.aead session p dst_len in
      data_opened (put_session t p.receiver_idx s) p.receiver_idx r

  unfoldable pub handle_data : Tunn → PacketData → ℕ → Result TunnResult × Tunn
  handle_data t p dst_len = data_by (session_at t p.receiver_idx) t p dst_len

  abbrev pub dispatch : Tunn → Env → Packet → ℕ → Result TunnResult × Tunn
  dispatch t env (handshake_init p) dst_len = handle_handshake_init t env p dst_len
  dispatch t env (handshake_response p) dst_len = handle_handshake_response t env p dst_len
  dispatch t env (packet_cookie_reply p) dst_len = handle_cookie_reply t p
  dispatch t env (packet_data p) dst_len = handle_data t p dst_len

  unfoldable pub handle_verified_packet : Tunn → Env → Packet → ℕ → TunnResult × Tunn
  handle_verified_packet t env packet dst_len =
      let (r, t₁) = dispatch t env packet dst_len in (unwrap_or_from r, t₁)

  -- A cookie reply is copied into `dst`, which must have room; any other refusal but an error is
  -- unreachable.
  abbrev pub on_verdict : Tunn → Env → ℕ → Verdict → TunnResult × Tunn
  on_verdict t env dst_len (pass packet) = handle_verified_packet t env packet dst_len
  on_verdict t env dst_len (refuse (write_to_network cookie)) =
      if ltb dst_len (length cookie) then (panicked, t) else (write_to_network cookie, t)
  on_verdict t env dst_len (refuse (error e)) = (error e, t)
  on_verdict t env dst_len (refuse done) = (panicked, t)
  on_verdict t env dst_len (refuse (write_to_tunnel_v4 bytes addr)) = (panicked, t)
  on_verdict t env dst_len (refuse (write_to_tunnel_v6 bytes addr)) = (panicked, t)
  on_verdict t env dst_len (refuse panicked) = (panicked, t)

  -- An empty datagram asks for what is queued.
  unfoldable pub decapsulate : Tunn → Env → Option IpAddr → List ℕ → ℕ → TunnResult × Tunn
  decapsulate t env src_addr [] dst_len = send_queued_packet crypto t env dst_len
  decapsulate t env src_addr (b ∷ bs) dst_len =
      let (v, limiter) =
        verify_packet crypto t.rate_limiter env.now src_addr (b ∷ bs) cookie_reply_sz in
      on_verdict (record t { rate_limiter = limiter }) env dst_len v
