-- ===== src/Device/Gate.antt =====
-- One packet through the handlers of protocol/boringtun/src/device/mod.rs, for the peer that it belongs
-- to: what `register_udp_handler` and `register_conn_handler` do with the result of the tunnel, and
-- what `register_iface_handler` does with a packet of the interface.
pub mod Paid
pub mod Flush
mod Tests
use xelt_vpn.Prelude.{
  ℕ, suc, zero, ◌+◌, Bool, true, false, List, [], ◌∷◌, ◌++◌, Option, none, some, if◌then◌else◌,
  length, bytes_eq,
}
use xelt_vpn.Noise.Crypto.{Crypto}
use xelt_vpn.Noise.Handshake.{Env}
use xelt_vpn.Noise.Outcome.{
  IpAddr, v4, v6, TunnResult, done, error, write_to_network, write_to_tunnel_v4, write_to_tunnel_v6,
  panicked,
}
use xelt_vpn.Noise.Tunn.{Tunn, encapsulate}
use xelt_vpn.Noise.Tunn.Inbound.{decapsulate}
use xelt_vpn.Payment.Quota.{BandwidthQuota, consume}
use xelt_vpn.Payment.Signal.{
  is_payment_signal, extract_signal_payload, src_ipv4, dst_ipv4, payment_gateway_ip,
}
use xelt_vpn.Payment.Wallet.{Secp}
use xelt_vpn.Device.Peer.{Peer, AllowedIp, SocketAddr, Endpoint, Shutdown, set_endpoint}
use xelt_vpn.Device.Payments.{
  PaymentSide, Moment, Out, send_udp, write4, write6, panics, with_tunnel, send_payment_required,
  handle_payment_submit, handle_payment_signal_client,
}

-- What the quota says to a packet.
pub data Charge : Type 0 where
  passes : Option BandwidthQuota → Charge
  refused : Charge
  exhausted : BandwidthQuota → Charge

abbrev pub charge_by : Bool × BandwidthQuota → Charge
charge_by (true, q) = passes (some q)
charge_by (false, q) = exhausted q

-- Only a server charges, and only a peer that has a quota; a blocked quota is not asked.
unfoldable pub charge : Bool → Option BandwidthQuota → ℕ → Charge
charge false quota bytes = passes quota
charge true none bytes = passes none
charge true (some q) bytes = if q.blocked then refused else charge_by (consume q bytes)

abbrev pub with_quota : Peer → Option BandwidthQuota → Peer
with_quota p quota = record p { quota = quota }

-- What is done, the peer that is left, and whether the handler goes on with the datagram's sender
-- rather than `continue`.
abbrev pub Handled : Type 0
Handled = (List Out × Peer) × Bool

module _ (crypto : Crypto) (secp : Secp) (hex_encode : List ℕ → List ℕ) where
  abbrev pub signal_from : PaymentSide → Peer → Moment → List ℕ → Option (List ℕ) → List Out × Peer
  signal_from d p at payload none = ([], p)
  signal_from d p at payload (some src) =
      if bytes_eq src payment_gateway_ip
      then handle_payment_signal_client crypto secp d p at payload
      else ([], p)

  -- A payload to the gateway is a submitted payment, one from it a signal to the client.
  abbrev pub signal_by :
      PaymentSide
      → Peer
      → Moment
      → Option (List ℕ)
      → Option (List ℕ)
      → Option (List ℕ)
      → List Out × Peer
  signal_by d p at none dst src = ([], p)
  signal_by d p at (some payload) none src = ([], p)
  signal_by d p at (some payload) (some dst) src =
      if bytes_eq dst payment_gateway_ip
      then handle_payment_submit crypto secp hex_encode d p at.env payload
      else signal_from d p at payload src

  unfoldable pub handle_signal : PaymentSide → Peer → Moment → List ℕ → List Out × Peer
  handle_signal d p at packet =
      signal_by d p at (extract_signal_payload packet) (dst_ipv4 packet) (src_ipv4 packet)

  abbrev pub deliver4 : PaymentSide → Peer → Moment → List ℕ → Charge → Handled
  deliver4 d p at packet (passes quota) = ((write4 packet ∷ [], with_quota p quota), true)
  deliver4 d p at packet refused = (([], p), false)
  deliver4 d p at packet (exhausted q) =
      (send_payment_required crypto d (with_quota p (some q)) at, false)

  -- Nobody is told that the quota is gone.
  abbrev pub deliver6 : Peer → List ℕ → Charge → Handled
  deliver6 p packet (passes quota) = ((write6 packet ∷ [], with_quota p quota), true)
  deliver6 p packet refused = (([], p), false)
  deliver6 p packet (exhausted q) = (([], with_quota p (some q)), false)

  abbrev pub charge_peer : PaymentSide → Peer → List ℕ → Charge
  charge_peer d p packet = charge d.payment_config.is_server p.quota (length packet)

  -- `allowed` is the search in the peer's table.
  unfoldable pub inbound_v4 : PaymentSide → Peer → Moment → Bool → List ℕ → Handled
  inbound_v4 d p at allowed packet =
      if is_payment_signal packet
      then (handle_signal d p at packet, false)
      else if allowed
      then deliver4 d p at packet (charge_peer d p packet)
      else (([], p), true)

  unfoldable pub inbound_v6 : PaymentSide → Peer → Bool → List ℕ → Handled
  inbound_v6 d p allowed packet =
      if allowed then deliver6 p packet (charge_peer d p packet) else (([], p), true)

  -- After a round: any other result ends the loop.
  abbrev pub flush_next : TunnResult → Tunn → List Out × (Tunn × Bool) → List Out × (Tunn × Bool)
  flush_next (write_to_network packet) t (outs, rest) = (send_udp packet ∷ outs, rest)
  flush_next done t rest = ([], (t, true))
  flush_next (error e) t rest = ([], (t, true))
  flush_next (write_to_tunnel_v4 bytes addr) t rest = ([], (t, true))
  flush_next (write_to_tunnel_v6 bytes addr) t rest = ([], (t, true))
  flush_next panicked t rest = (panics ∷ [], (t, true))

  -- `while let WriteToNetwork(packet) = decapsulate(None, &[], dst)` on fuel: what is sent, the tunnel
  -- that is left, and whether the loop ended. `envs` has the clock and key of each round.
  unfoldable pub flush : ℕ → (ℕ → Env) → Tunn → ℕ → List Out × (Tunn × Bool)
  flush zero envs t dst_len = ([], (t, false))
  flush (suc fuel) envs t dst_len =
      let (r, t₁) = decapsulate crypto t (envs 0) none [] dst_len in
      flush_next r t₁ (flush fuel (λ i. envs (i + 1)) t₁ dst_len)

  -- Enough fuel for the queue.
  abbrev pub flush_all : (ℕ → Env) → Tunn → ℕ → List Out × (Tunn × Bool)
  flush_all envs t dst_len = flush (length t.packet_queue + 2) envs t dst_len

  abbrev pub flushed : Peer → (ℕ → Env) → ℕ → List ℕ → Handled
  flushed p envs dst_len packet =
      let (outs, (t, ended)) = flush_all envs p.tunnel dst_len in
      ((send_udp packet ∷ outs, with_tunnel p t), true)

  -- The result of `handle_verified_packet`, for the udp handler; `allowed` searches the peer's table.
  unfoldable pub udp_result :
      (List AllowedIp → IpAddr → Bool)
      → PaymentSide
      → Peer
      → Moment
      → (ℕ → Env)
      → ℕ
      → TunnResult
      → Handled
  udp_result allowed d p at envs dst_len done = (([], p), true)
  udp_result allowed d p at envs dst_len (error e) = (([], p), false)
  udp_result allowed d p at envs dst_len (write_to_network packet) = flushed p envs dst_len packet
  udp_result allowed d p at envs dst_len (write_to_tunnel_v4 packet src) =
      inbound_v4 d p at (allowed p.allowed_ips (v4 src)) packet
  udp_result allowed d p at envs dst_len (write_to_tunnel_v6 packet src) =
      inbound_v6 d p (allowed p.allowed_ips (v6 src)) packet
  udp_result allowed d p at envs dst_len panicked = ((panics ∷ [], p), false)

  -- The handler of a connected socket only logs an error.
  unfoldable pub conn_result :
      (List AllowedIp → IpAddr → Bool)
      → PaymentSide
      → Peer
      → Moment
      → (ℕ → Env)
      → ℕ
      → TunnResult
      → Handled
  conn_result allowed d p at envs dst_len done = (([], p), true)
  conn_result allowed d p at envs dst_len (error e) = (([], p), true)
  conn_result allowed d p at envs dst_len (write_to_network packet) = flushed p envs dst_len packet
  conn_result allowed d p at envs dst_len (write_to_tunnel_v4 packet src) =
      inbound_v4 d p at (allowed p.allowed_ips (v4 src)) packet
  conn_result allowed d p at envs dst_len (write_to_tunnel_v6 packet src) =
      inbound_v6 d p (allowed p.allowed_ips (v6 src)) packet
  conn_result allowed d p at envs dst_len panicked = ((panics ∷ [], p), false)

  -- The sender of a datagram that was in order becomes the peer's endpoint.
  abbrev pub remembered : List Out → Peer → Option Peer → List Out × Peer
  remembered outs p none = (outs ++ (panics ∷ []), p)
  remembered outs p (some p') = (outs, p')

  abbrev pub remember_sender : Shutdown → SocketAddr → Handled → List Out × Peer
  remember_sender shuts addr ((outs, p), true) = remembered outs p (set_endpoint shuts p addr)
  remember_sender shuts addr ((outs, p), false) = (outs, p)

  -- Through the connected socket, or to the address; else the packet is dropped.
  abbrev pub send_by : Endpoint → List ℕ → List Out
  send_by e packet = elim e.conn [
    | some sock ↦ send_udp packet ∷ []
    | none ↦ elim e.addr [ some addr ↦ send_udp packet ∷ [] | none ↦ [] ]
  ]

  abbrev pub outbound_sent : Peer → TunnResult → List Out
  outbound_sent p done = []
  outbound_sent p (error e) = []
  outbound_sent p (write_to_network packet) = send_by p.endpoint packet
  outbound_sent p (write_to_tunnel_v4 bytes addr) = panics ∷ []
  outbound_sent p (write_to_tunnel_v6 bytes addr) = panics ∷ []
  outbound_sent p panicked = panics ∷ []

  abbrev pub told_at : PaymentSide → Peer → Moment → Option SocketAddr → List Out × Peer
  told_at d p at none = ([], p)
  told_at d p at (some addr) = send_payment_required crypto d p at

  abbrev pub tunnelled : Peer → TunnResult × Tunn → List Out × Peer
  tunnelled p (r, t) = (outbound_sent p r, with_tunnel p t)

  abbrev pub outbound_by : PaymentSide → Peer → Moment → List ℕ → ℕ → Charge → List Out × Peer
  outbound_by d p at src dst_len (passes quota) =
      tunnelled (with_quota p quota) (encapsulate crypto p.tunnel at.env src dst_len)
  outbound_by d p at src dst_len refused = ([], p)
  outbound_by d p at src dst_len (exhausted q) =
      told_at d (with_quota p (some q)) at p.endpoint.addr

  unfoldable pub outbound : PaymentSide → Peer → Moment → List ℕ → ℕ → List Out × Peer
  outbound d p at src dst_len = outbound_by d p at src dst_len (charge_peer d p src)
