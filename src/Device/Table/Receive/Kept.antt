-- ===== src/Device/Table/Receive/Kept.antt =====
-- Datagrams leave the maps in agreement.
use xelt_vpn.Prelude.{
  ℕ, ◌≡◌, refl, sym, ap, ◌∙◌, inl, inr, Bool, true, false, List, [], ◌∷◌, Option, none, some,
  if◌then◌else◌, Option-cases, ne→==, ◌≢◌,
}
use xelt_vpn.Prelude.Index.{update}
use xelt_vpn.Noise.Crypto.{Crypto}
use xelt_vpn.Noise.Errors.{Result, ok, err, panic}
use xelt_vpn.Noise.Handshake.{Env}
use xelt_vpn.Noise.Outcome.{
  IpAddr, v4, v6, TunnResult, done, error, write_to_network, write_to_tunnel_v4, write_to_tunnel_v6,
  panicked,
}
use xelt_vpn.Noise.Packet.{Packet}
use xelt_vpn.Noise.RateLimiter.{RateLimiter, Verdict, pass, refuse, verify_packet}
use xelt_vpn.Noise.Tunn.Inbound.{handle_verified_packet}
use xelt_vpn.Payment.Signal.{is_payment_signal}
use xelt_vpn.Payment.Wallet.{Secp}
use xelt_vpn.Device.Gate.{
  Handled, Charge, passes, refused, exhausted, with_quota, deliver4, deliver6, charge_peer,
  inbound_v4, inbound_v6, udp_result, remember_sender,
}
use xelt_vpn.Device.Gate.Paid.Quiet.{required-Quiet, signal-Quiet}
use xelt_vpn.Device.Payments.{PaymentSide, Moment, Out, with_tunnel}
use xelt_vpn.Device.Peer.{Peer, AllowedIp, SocketAddr, Shutdown, is_shut, set_endpoint, is_addr}
use xelt_vpn.Device.Table.{Table}
use xelt_vpn.Device.Table.Linked.{Linked, with_arcs-Linked, update-KeepsIndexes, some-inj, if-inv}
use xelt_vpn.Device.Table.Receive.{
  Datagram, peer_of, handle_at, handle_for, handle_verdict, receive_by, receive, max_udp_size,
  rounds_left, receive_all,
}

-- The peer that is left has the index of the one before.
abbrev Keeps : Peer → Handled → Type 0
Keeps p ((outs, p'), goes_on) = p'.index ≡ p.index

if-Keeps :
    (p : Peer) (b : Bool) (x y : Handled) → Keeps p x → Keeps p y → Keeps p (if b then x else y)
if-Keeps p true x y h k = h
if-Keeps p false x y h k = k

set_endpoint-index :
    (shuts : Shutdown) (p : Peer) (addr : SocketAddr) {p' : Peer}
    → set_endpoint shuts p addr ≡ some p'
    → p'.index ≡ p.index
unfolding set_endpoint
set_endpoint-index shuts p addr e = elim (if-inv (is_addr p.endpoint.addr addr) _ _ _ e) [
  | inl same ↦ ap (λ (x : Peer). x.index) (sym (some-inj same))
  | inr (other, e') ↦ elim (if-inv (is_shut shuts p.endpoint.conn) _ _ _ e') [
    | inl shut ↦ ap (λ (x : Peer). x.index) (sym (some-inj shut))
    | inr (stuck, e'') ↦ cc
  ]
]

module _ (crypto : Crypto) (secp : Secp) (hex_encode : List ℕ → List ℕ)
    (allowed : List AllowedIp → IpAddr → Bool) where
  module _ (d : PaymentSide) where
    deliver4-Keeps :
        (p : Peer) (at : Moment) (packet : List ℕ) (c : Charge)
        → Keeps p (deliver4 crypto secp hex_encode d p at packet c)
    deliver4-Keeps p at packet (passes quota) = refl
    deliver4-Keeps p at packet refused = refl
    deliver4-Keeps p at packet (exhausted q) =
        (required-Quiet crypto d (with_quota p (some q)) at).1

    deliver6-Keeps :
        (p : Peer) (packet : List ℕ) (c : Charge)
        → Keeps p (deliver6 crypto secp hex_encode p packet c)
    deliver6-Keeps p packet (passes quota) = refl
    deliver6-Keeps p packet refused = refl
    deliver6-Keeps p packet (exhausted q) = refl

    inbound_v4-Keeps :
        (p : Peer) (at : Moment) (ok_ip : Bool) (packet : List ℕ)
        → Keeps p (inbound_v4 crypto secp hex_encode d p at ok_ip packet)
    unfolding inbound_v4
    inbound_v4-Keeps p at ok_ip packet =
        if-Keeps p (is_payment_signal packet) _ _
          (signal-Quiet crypto secp hex_encode d p at packet).1
          (if-Keeps p ok_ip _ _
            (deliver4-Keeps p at packet (charge_peer crypto secp hex_encode d p packet)) refl)

    inbound_v6-Keeps :
        (p : Peer) (ok_ip : Bool) (packet : List ℕ)
        → Keeps p (inbound_v6 crypto secp hex_encode d p ok_ip packet)
    unfolding inbound_v6
    inbound_v6-Keeps p ok_ip packet =
        if-Keeps p ok_ip _ _
          (deliver6-Keeps p packet (charge_peer crypto secp hex_encode d p packet)) refl

    udp_result-Keeps :
        (p : Peer) (at : Moment) (envs : ℕ → Env) (n : ℕ) (r : TunnResult)
        → Keeps p (udp_result crypto secp hex_encode allowed d p at envs n r)
    unfolding udp_result
    udp_result-Keeps p at envs n done = refl
    udp_result-Keeps p at envs n (error e) = refl
    udp_result-Keeps p at envs n (write_to_network packet) = refl
    udp_result-Keeps p at envs n (write_to_tunnel_v4 packet src) =
        inbound_v4-Keeps p at (allowed p.allowed_ips (v4 src)) packet
    udp_result-Keeps p at envs n (write_to_tunnel_v6 packet src) =
        inbound_v6-Keeps p (allowed p.allowed_ips (v6 src)) packet
    udp_result-Keeps p at envs n panicked = refl

  remembered-Keeps :
      (p : Peer) (shuts : Shutdown) (addr : SocketAddr) (x : Handled)
      → Keeps p x
      → (remember_sender crypto secp hex_encode shuts addr x).1.index ≡ p.index
  remembered-Keeps p shuts addr ((outs, p'), true) h =
      elim (Option-cases (set_endpoint shuts p' addr)) [
        | inl stuck ↦ rw stuck h
        | inr (p'', set) ↦ rw set (set_endpoint-index shuts p' addr set ∙ h)
      ]
  remembered-Keeps p shuts addr ((outs, p'), false) h = h

  -- The maps and the generator are as they were, the maps agree, and the peers but one are as they were.
  abbrev pub OneTouched : Table → Table → Type 0
  OneTouched t t' =
      Linked t'
      × (t'.peers ≡ t.peers)
      × (t'.peers_by_idx ≡ t.peers_by_idx)
      × (t'.peers_by_ip ≡ t.peers_by_ip)
      × (t'.next_index ≡ t.next_index)
      × (h : ℕ) × ((q : ℕ) → h ≢ q → t'.arcs q ≡ t.arcs q)

  handle_at-OneTouched :
      (t : Table) (d : Datagram) (packet : Packet) (h : ℕ) (o : Option Peer)
      → Linked t
      → t.arcs h ≡ o
      → OneTouched t (handle_at crypto secp hex_encode allowed t d packet h o).1
  handle_at-OneTouched t d packet h none l at = (l, refl, refl, refl, refl, 0, λ q ne. refl)
  handle_at-OneTouched t d packet h (some p) l at =
      let (r, tunnel) = handle_verified_packet crypto p.tunnel d.at.env packet max_udp_size in
      let handled =
        udp_result crypto secp hex_encode allowed t.payment (with_tunnel p tunnel) d.at d.envs
          max_udp_size r in
      let after = (remember_sender crypto secp hex_encode d.shuts d.sender handled).1 in
      let same : after.index ≡ p.index =
        remembered-Keeps p d.shuts d.sender handled
          (udp_result-Keeps t.payment (with_tunnel p tunnel) d.at d.envs max_udp_size r) in
      (
        with_arcs-Linked t (update t.arcs h after) l (update-KeepsIndexes t.arcs h p after at same),
        refl,
        refl,
        refl,
        refl,
        h,
        λ q ne. ap (λ b. if b then some after else t.arcs q) (ne→== h q ne),
      )

  handle_for-OneTouched :
      (t : Table) (d : Datagram) (packet : Packet) (r : Result (Option ℕ))
      → Linked t
      → OneTouched t (handle_for crypto secp hex_encode allowed t d packet r).1
  handle_for-OneTouched t d packet (ok none) l = (l, refl, refl, refl, refl, 0, λ q ne. refl)
  handle_for-OneTouched t d packet (ok (some h)) l =
      handle_at-OneTouched t d packet h (t.arcs h) l refl
  handle_for-OneTouched t d packet (err e) l = (l, refl, refl, refl, refl, 0, λ q ne. refl)
  handle_for-OneTouched t d packet panic l = (l, refl, refl, refl, refl, 0, λ q ne. refl)

  verdict-OneTouched :
      (t : Table) (keys : List ℕ × List ℕ) (d : Datagram) (v : Verdict)
      → Linked t
      → OneTouched t (handle_verdict crypto secp hex_encode allowed t keys d v).1
  verdict-OneTouched t keys d (pass packet) l =
      handle_for-OneTouched t d packet (peer_of crypto secp hex_encode allowed t keys packet) l
  verdict-OneTouched t keys d (refuse (write_to_network cookie)) l =
      (l, refl, refl, refl, refl, 0, λ q ne. refl)
  verdict-OneTouched t keys d (refuse done) l = (l, refl, refl, refl, refl, 0, λ q ne. refl)
  verdict-OneTouched t keys d (refuse (error e)) l = (l, refl, refl, refl, refl, 0, λ q ne. refl)
  verdict-OneTouched t keys d (refuse (write_to_tunnel_v4 b a)) l =
      (l, refl, refl, refl, refl, 0, λ q ne. refl)
  verdict-OneTouched t keys d (refuse (write_to_tunnel_v6 b a)) l =
      (l, refl, refl, refl, refl, 0, λ q ne. refl)
  verdict-OneTouched t keys d (refuse panicked) l = (l, refl, refl, refl, refl, 0, λ q ne. refl)

  limited-Linked :
      (t : Table) (r : Option RateLimiter) → Linked t → Linked (record t { rate_limiter = r })
  limited-Linked t r l = record {
    by_key = l.by_key;
    by_idx = l.by_idx;
    by_ip = l.by_ip;
    one_key = l.one_key;
    made = l.made;
  }

  receive_by-OneTouched :
      (t : Table) (keys : Option (List ℕ × List ℕ)) (limiter : Option RateLimiter) (d : Datagram)
      → Linked t
      → OneTouched t (receive_by crypto secp hex_encode allowed t keys limiter d).1
  receive_by-OneTouched t none limiter d l = (l, refl, refl, refl, refl, 0, λ q ne. refl)
  receive_by-OneTouched t (some keys) none d l = (l, refl, refl, refl, refl, 0, λ q ne. refl)
  receive_by-OneTouched t (some keys) (some limiter) d l =
      let (v, limiter') =
        verify_packet crypto limiter d.at.env.now (some d.sender.ip) d.packet max_udp_size in
      let t₀ : Table = record t { rate_limiter = some limiter' } in
      verdict-OneTouched t₀ keys d v (limited-Linked t (some limiter') l)

  -- Where the maps agree, a datagram of whatever sender leaves them as they are, and the generator of
  -- indexes, and all peers but one at most.
  pub receive-OneTouched :
      (t : Table) (d : Datagram)
      → Linked t
      → OneTouched t (receive crypto secp hex_encode allowed t d).1
  unfolding receive
  receive-OneTouched t d l = receive_by-OneTouched t t.key_pair t.rate_limiter d l

  if-Linked :
      (b : Bool) (x y : List Out × Table × List Datagram)
      → Linked x.1
      → Linked y.1
      → Linked (if b then x else y).1
  if-Linked true x y h k = h
  if-Linked false x y h k = k

  -- So do all the datagrams on a socket.
  pub receive_all-Linked :
      (iter : ℕ) (t : Table) (ds : List Datagram)
      → Linked t
      → Linked (receive_all crypto secp hex_encode allowed iter t ds).1
  unfolding receive_all
  receive_all-Linked iter t [] l = l
  receive_all-Linked iter t (d ∷ ds) l =
      let (outs, t', counts) = receive crypto secp hex_encode allowed t d in
      let l' = (receive-OneTouched t d l).0 in
      if-Linked _ _ _ l'
        (receive_all-Linked (rounds_left crypto secp hex_encode allowed iter counts) t' ds l')
