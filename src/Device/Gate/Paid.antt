-- ===== src/Device/Gate/Paid.antt =====
-- A server forwards to and from a peer no more than the peer's quota and payments give.
pub mod Quiet
pub mod Step
pub mod Run
use xelt_vpn.Prelude.{
  ℕ, ◌+◌, ◌*◌, ◌-◌, ◌^◌, ◌≤◌, ◌<◌, ◌≡◌, refl, Bool, true, false, List, [], ◌∷◌, ◌++◌, ◌⊎◌, Option,
  none, some, length, arith,
}
use xelt_vpn.Noise.Crypto.{Crypto}
use xelt_vpn.Payment.Quota.{BandwidthQuota, u64_mod, was_used}
use xelt_vpn.Payment.Quota.Ledger.{account}
use xelt_vpn.Payment.Wallet.{Secp}
use xelt_vpn.Device.Peer.{Peer}
use xelt_vpn.Device.Payments.{PaymentSide, Moment, Out, send_udp, write4, write6, panics}
use xelt_vpn.Device.Gate.{
  Charge, passes, refused, exhausted, charge_peer, inbound_v4, inbound_v6, outbound, with_quota,
  told_at, tunnelled,
}
use xelt_vpn.Noise.Tunn.{encapsulate}

-- A packet of the peer from its tunnel, with what the table of addresses says of it, or one of the
-- interface to the peer.
pub data Event : Type 0 where
  arrives4 arrives6 : Bool → List ℕ → Event
  leaves : List ℕ → ℕ → Event

-- Bytes that are written to the interface.
abbrev pub written : List Out → ℕ
written [] = 0
written (write4 bytes ∷ outs) = length bytes + written outs
written (write6 bytes ∷ outs) = length bytes + written outs
written (send_udp bytes ∷ outs) = written outs
written (panics ∷ outs) = written outs

-- Bytes that a charge hands to the tunnel.
abbrev pub handed : List ℕ → Charge → ℕ
handed src (passes quota) = length src
handed src refused = 0
handed src (exhausted q) = 0

module _ (crypto : Crypto) (secp : Secp) (hex_encode : List ℕ → List ℕ) (d : PaymentSide) where
  unfoldable pub event_step : Peer → Moment → Event → List Out × Peer
  event_step p at (arrives4 ok packet) = (inbound_v4 crypto secp hex_encode d p at ok packet).0
  event_step p at (arrives6 ok packet) = (inbound_v6 crypto secp hex_encode d p ok packet).0
  event_step p at (leaves src dst_len) = outbound crypto secp hex_encode d p at src dst_len

  unfoldable pub moved : Peer → Moment → Event → ℕ
  moved p at (arrives4 ok packet) = written (event_step p at (arrives4 ok packet)).0
  moved p at (arrives6 ok packet) = written (event_step p at (arrives6 ok packet)).0
  moved p at (leaves src dst_len) = handed src (charge_peer crypto secp hex_encode d p src)

  unfoldable pub run_events : Peer → List (Moment × Event) → Peer
  run_events p [] = p
  run_events p ((at, e) ∷ es) = run_events (event_step p at e).1 es

  unfoldable pub forwarded : Peer → List (Moment × Event) → ℕ
  forwarded p [] = 0
  forwarded p ((at, e) ∷ es) = moved p at e + forwarded (event_step p at e).1 es

module _ (crypto : Crypto) (secp : Secp) (hex_encode : List ℕ → List ℕ) (d : PaymentSide) where
  -- The tunnel does not get the packet: nothing is done, or the peer is told of a quota that is left.
  abbrev pub Refuses : Peer → Moment → List Out × Peer → Type 0
  Refuses p at r =
      (r ≡ ([], p))
      ⊎ ((q : BandwidthQuota) × (r
            ≡ told_at crypto secp hex_encode d (with_quota p (some q)) at p.endpoint.addr))

  -- The tunnel gets the packet, and what it makes of it is sent.
  abbrev pub Hands : Peer → Moment → List ℕ → ℕ → List Out × Peer → Type 0
  Hands p at src dst_len r =
      (quota : Option BandwidthQuota) × (r
        ≡ tunnelled crypto secp hex_encode (with_quota p quota)
            (encapsulate crypto p.tunnel at.env src dst_len))

  -- What is seen of an event that moves `n` bytes.
  abbrev pub Moves : Peer → Moment → Event → ℕ → List Out × Peer → Type 0
  Moves p at (arrives4 ok packet) n r = n ≡ written r.0
  Moves p at (arrives6 ok packet) n r = n ≡ written r.0
  Moves p at (leaves src dst_len) n r =
      (Hands p at src dst_len r × (n ≡ length src)) ⊎ (Refuses p at r × (n ≡ 0))

  -- The same of a run, for all events together.
  unfoldable pub MovesInAll : Peer → List (Moment × Event) → ℕ → Type 0
  MovesInAll p [] n = n ≡ 0
  MovesInAll p ((at, e) ∷ es) n =
      let r = event_step crypto secp hex_encode d p at e in
      (first : ℕ) × (rest : ℕ) × (n ≡ first + rest) × Moves p at e first r × MovesInAll r.1 es rest

-- No nonce twice.
unfoldable pub AllDiffer : List (List ℕ) → Type 0
AllDiffer [] = Unit
AllDiffer (n ∷ ns) = (was_used ns n ≡ false) × AllDiffer ns

-- Between two states of a quota, `n` bytes moved, and the payments, at most `most`, have
-- given `price` bytes each; there are at least as many nonces that were recorded, and if no nonce was
-- recorded twice before, none is after.
pub record Balanced (price most : ℕ) (q : BandwidthQuota) (n : ℕ) (q' : BandwidthQuota)
    : Type 0 where
  pub paid : ℕ
  pub at_most : paid ≤ most
  pub counted : q'.payment_count ≡ q.payment_count + paid
  pub bytes : n + q'.remaining_bytes ≤ q.remaining_bytes + price * paid
  pub kept : account q' ≤ account q + price * paid
  pub recorded : List (List ℕ)
  pub used : q'.used_nonces ≡ recorded ++ q.used_nonces
  pub nonces : paid ≤ length recorded
  pub differ : AllDiffer q.used_nonces → AllDiffer q'.used_nonces
