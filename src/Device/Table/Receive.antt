-- ===== src/Device/Table/Receive.antt =====
-- Datagrams of anonymous senders, `register_udp_handler` of protocol/boringtun/src/device/mod.rs: the
-- limiter, the peer that a packet is for, and the loop. The sender's socket that is connected afterwards
-- is left out.
pub mod Routed
pub mod Kept
use xelt_vpn.Prelude.{
  ℕ, zero, suc, ◌-◌, ◌/◌, Bool, true, false, List, [], ◌∷◌, ◌++◌, Option, none, some, if◌then◌else◌,
  ◌==◌, ◌||◌,
}
use xelt_vpn.Prelude.Index.{find_at, update}
use xelt_vpn.Prelude.Maps.{find}
use xelt_vpn.Noise.Crypto.{Crypto}
use xelt_vpn.Noise.Errors.{Result, ok, err, panic}
use xelt_vpn.Noise.Handshake.{Env}
use xelt_vpn.Noise.Handshake.Respond.{HalfHandshake, parse_handshake_anon}
use xelt_vpn.Noise.Outcome.{
  IpAddr, TunnResult, done, error, write_to_network, write_to_tunnel_v4, write_to_tunnel_v6,
  panicked,
}
use xelt_vpn.Noise.Packet.{
  Packet, handshake_init, handshake_response, packet_cookie_reply, packet_data,
}
use xelt_vpn.Noise.RateLimiter.{RateLimiter, Verdict, pass, refuse, verify_packet}
use xelt_vpn.Noise.Tunn.{Tunn}
use xelt_vpn.Noise.Tunn.Inbound.{handle_verified_packet}
use xelt_vpn.Payment.Wallet.{Secp}
use xelt_vpn.Device.Gate.{Handled, udp_result, remember_sender}
use xelt_vpn.Device.Payments.{Moment, Out, send_udp, write4, write6, panics, with_tunnel}
use xelt_vpn.Device.Peer.{Peer, AllowedIp, SocketAddr, Shutdown}
use xelt_vpn.Device.Table.{Table}

abbrev pub max_udp_size : ℕ
max_udp_size = 65535

abbrev pub max_itr : ℕ
max_itr = 100

-- A datagram with its sender, which sockets shut down, and what is read of clocks and keys while it is handled.
pub record Datagram : Type 0 where
  pub packet : List ℕ
  pub sender : SocketAddr
  pub shuts : Shutdown
  pub at : Moment
  pub envs : ℕ → Env

-- What is done, the device that is left, and whether the datagram was in order.
abbrev pub Received : Type 0
Received = List Out × Table × Bool

abbrev pub nothing : Table → Received
nothing t = ([], t, false)

abbrev pub panicking : Table → Received
panicking t = (panics ∷ [], t, false)

abbrev pub with_peer : Table → ℕ → Peer → Table
with_peer t h p = record t { arcs = update t.arcs h p }

-- Whether the handler goes on to the sender.
abbrev pub in_order : Handled → Bool
in_order (r, goes_on) = goes_on

abbrev pub left : Table → ℕ → List Out × Peer → Bool → Received
left t h (outs, p) goes_on = (outs, with_peer t h p, goes_on)

-- The peer of an anonymous initiation is known by the static key in it.
abbrev pub peer_of_static : Table → Result HalfHandshake → Result (Option ℕ)
peer_of_static t (ok hh) = ok (find hh.peer_static_public t.peers)
peer_of_static t (err e) = ok none
peer_of_static t panic = panic

abbrev pub peer_of_index : Table → ℕ → Result (Option ℕ)
peer_of_index t receiver_idx = ok (find_at (receiver_idx / 256) t.peers_by_idx)

module _ (crypto : Crypto) (secp : Secp) (hex_encode : List ℕ → List ℕ)
    (allowed : List AllowedIp → IpAddr → Bool) where
  unfoldable pub peer_of : Table → List ℕ × List ℕ → Packet → Result (Option ℕ)
  peer_of t (private, public) (handshake_init p) =
      peer_of_static t (parse_handshake_anon crypto private public p)
  peer_of t keys (handshake_response p) = peer_of_index t p.receiver_idx
  peer_of t keys (packet_cookie_reply p) = peer_of_index t p.receiver_idx
  peer_of t keys (packet_data p) = peer_of_index t p.receiver_idx

  abbrev pub handle_at : Table → Datagram → Packet → ℕ → Option Peer → Received
  handle_at t d packet h none = nothing t
  handle_at t d packet h (some p) =
      let (r, tunnel) = handle_verified_packet crypto p.tunnel d.at.env packet max_udp_size in
      let handled =
        udp_result crypto secp hex_encode allowed t.payment (with_tunnel p tunnel) d.at d.envs
          max_udp_size r in
      left t h (remember_sender crypto secp hex_encode d.shuts d.sender handled) (in_order handled)

  abbrev pub handle_for : Table → Datagram → Packet → Result (Option ℕ) → Received
  handle_for t d packet (ok none) = nothing t
  handle_for t d packet (ok (some h)) = handle_at t d packet h (t.arcs h)
  handle_for t d packet (err e) = nothing t
  handle_for t d packet panic = panicking t

  -- A cookie is sent back; any other refusal drops the datagram.
  abbrev pub handle_verdict : Table → List ℕ × List ℕ → Datagram → Verdict → Received
  handle_verdict t keys d (pass packet) = handle_for t d packet (peer_of t keys packet)
  handle_verdict t keys d (refuse (write_to_network cookie)) = (send_udp cookie ∷ [], t, false)
  handle_verdict t keys d (refuse done) = nothing t
  handle_verdict t keys d (refuse (error e)) = nothing t
  handle_verdict t keys d (refuse (write_to_tunnel_v4 bytes addr)) = nothing t
  handle_verdict t keys d (refuse (write_to_tunnel_v6 bytes addr)) = nothing t
  handle_verdict t keys d (refuse panicked) = panicking t

  abbrev pub receive_by :
      Table → Option (List ℕ × List ℕ) → Option RateLimiter → Datagram → Received
  receive_by t none limiter d = panicking t
  receive_by t (some keys) none d = panicking t
  receive_by t (some keys) (some limiter) d =
      let (v, limiter') =
        verify_packet crypto limiter d.at.env.now (some d.sender.ip) d.packet max_udp_size in
      handle_verdict (record t { rate_limiter = some limiter' }) keys d v

  unfoldable pub receive : Table → Datagram → Received
  receive t d = receive_by t t.key_pair t.rate_limiter d

  -- A datagram that is not in order does not count.
  abbrev pub rounds_left : ℕ → Bool → ℕ
  rounds_left iter true = iter - 1
  rounds_left iter false = iter

  abbrev pub and_first :
      List Out → List Out × Table × List Datagram → List Out × Table × List Datagram
  and_first outs (more, t, rest) = (outs ++ more, t, rest)

  abbrev pub has_panic : List Out → Bool
  has_panic [] = false
  has_panic (panics ∷ outs) = true
  has_panic (send_udp bytes ∷ outs) = has_panic outs
  has_panic (write4 bytes ∷ outs) = has_panic outs
  has_panic (write6 bytes ∷ outs) = has_panic outs

  -- The loop over what is on the socket, and what it leaves there; a panic ends it.
  unfoldable pub receive_all : ℕ → Table → List Datagram → List Out × Table × List Datagram
  receive_all iter t [] = ([], t, [])
  receive_all iter t (d ∷ ds) =
      let (outs, t', counts) = receive t d in
      let iter' = rounds_left iter counts in
      let rest = receive_all iter' t' ds in
      if has_panic outs || (iter' == 0) then (outs, t', ds) else and_first outs rest
