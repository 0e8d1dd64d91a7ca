-- ===== src/Device/Table/Ticks.antt =====
-- The periodic events of a device, `register_timers` of protocol/boringtun/src/device/mod.rs.
use xelt_vpn.Prelude.{
  ℕ, List, [], ◌∷◌, ◌++◌, Option, none, some, ◌≡◌, refl, sym, ap, ◌∙◌, arith, if◌then◌else◌,
}
use xelt_vpn.Prelude.Index.{update}
use xelt_vpn.Noise.Crypto.{Crypto}
use xelt_vpn.Noise.Errors.{WireGuardError, connection_expired}
use xelt_vpn.Noise.Handshake.{Env}
use xelt_vpn.Noise.Outcome.{
  TunnResult, done, error, write_to_network, write_to_tunnel_v4, write_to_tunnel_v6, panicked,
}
use xelt_vpn.Noise.RateLimiter.{RateLimiter, reset_count}
use xelt_vpn.Noise.Tunn.Clock.{update_timers}
use xelt_vpn.Device.Payments.{Out, send_udp, panics, with_tunnel}
use xelt_vpn.Device.Peer.{Peer, SocketAddr, Shutdown, shutdown_endpoint}
use xelt_vpn.Device.Table.{Table, Store, with_arcs}
use xelt_vpn.Device.Table.Linked.{KeepsIndexes, update-KeepsIndexes, shutdown_endpoint_lem}
use xelt_vpn.Device.Table.Receive.{max_udp_size}

abbrev pub reset_by : Option RateLimiter → ℕ → Option RateLimiter
reset_by none now = none
reset_by (some r) now = some (reset_count r now)

-- Once in a second.
unfoldable pub reset_limiter : Table → ℕ → Table
reset_limiter t now = record t { rate_limiter = reset_by t.rate_limiter now }

abbrev pub closed_or_panics : Peer → Option Peer → List Out × Peer
closed_or_panics p none = (panics ∷ [], p)
closed_or_panics p (some p') = ([], p')

abbrev pub on_error : Shutdown → Peer → WireGuardError → List Out × Peer
on_error shuts p e = elim e [
  | connection_expired ↦ closed_or_panics p (shutdown_endpoint shuts p)
  | _ ↦ ([], p)
]

-- A connection that expired closes its socket; any other error is only logged.
abbrev pub tick_result : Shutdown → Peer → TunnResult → List Out × Peer
tick_result shuts p done = ([], p)
tick_result shuts p (error e) = on_error shuts p e
tick_result shuts p (write_to_network packet) = (send_udp packet ∷ [], p)
tick_result shuts p (write_to_tunnel_v4 bytes addr) = (panics ∷ [], p)
tick_result shuts p (write_to_tunnel_v6 bytes addr) = (panics ∷ [], p)
tick_result shuts p panicked = (panics ∷ [], p)

-- `shuts` says which sockets shut down.
module _ (crypto : Crypto) (shuts : Shutdown) where
  -- A peer with no address is passed over.
  abbrev pub tick_peer : Env → Peer → Option SocketAddr → List Out × Peer
  tick_peer env p none = ([], p)
  tick_peer env p (some addr) =
      let (r, tunnel) = update_timers crypto p.tunnel env max_udp_size in
      tick_result shuts (with_tunnel p tunnel) r

  abbrev pub tick_at : Env → Store → ℕ → Option Peer → List Out × Store
  tick_at env arcs h none = ([], arcs)
  tick_at env arcs h (some p) =
      let (outs, p') = tick_peer env p p.endpoint.addr in (outs, update arcs h p')

  -- `envs` has the clock and key of each peer's turn.
  unfoldable pub tick_each : (ℕ → Env) → List (List ℕ × ℕ) → Store → List Out × Store
  tick_each envs [] arcs = ([], arcs)
  tick_each envs ((k, h) ∷ m) arcs =
      let (outs, arcs') = tick_at (envs h) arcs h (arcs h) in
      let (more, arcs'') = tick_each envs m arcs' in (outs ++ more, arcs'')

  abbrev pub ticked : Table → List Out × Store → List Out × Table
  ticked t (outs, arcs) = (outs, with_arcs t arcs)

  -- Four times in a second, where the sockets are open.
  unfoldable pub run_timers : Table → (ℕ → Env) → List Out × Table
  run_timers t envs = if t.sockets then ticked t (tick_each envs t.peers t.arcs) else ([], t)

  closed-index :
      (p : Peer) (o : Option Peer)
      → shutdown_endpoint shuts p ≡ o
      → (closed_or_panics p o).1.index ≡ p.index
  closed-index p none e = refl
  closed-index p (some p') e = ap (λ (x : Peer). x.index) (sym (shutdown_endpoint_lem shuts p e))

  on_error-index : (p : Peer) (e : WireGuardError) → (on_error shuts p e).1.index ≡ p.index
  on_error-index p e =
      let same = closed-index p (shutdown_endpoint shuts p) refl in ground (arith, same)

  tick_result-index : (p : Peer) (r : TunnResult) → (tick_result shuts p r).1.index ≡ p.index
  tick_result-index p done = refl
  tick_result-index p (error e) = on_error-index p e
  tick_result-index p (write_to_network packet) = refl
  tick_result-index p (write_to_tunnel_v4 bytes addr) = refl
  tick_result-index p (write_to_tunnel_v6 bytes addr) = refl
  tick_result-index p panicked = refl

  tick_peer-index :
      (env : Env) (p : Peer) (a : Option SocketAddr) → (tick_peer env p a).1.index ≡ p.index
  tick_peer-index env p none = refl
  tick_peer-index env p (some addr) =
      let (r, tunnel) = update_timers crypto p.tunnel env max_udp_size in
      tick_result-index (with_tunnel p tunnel) r

  tick_at-KeepsIndexes :
      (env : Env) (a : Store) (h : ℕ) (o : Option Peer)
      → a h ≡ o
      → KeepsIndexes a (tick_at env a h o).1
  tick_at-KeepsIndexes env a h none at = λ q p e. (p, e, refl)
  tick_at-KeepsIndexes env a h (some p) at =
      update-KeepsIndexes a h p _ at (tick_peer-index env p p.endpoint.addr)

  pub tick_each-KeepsIndexes :
      (envs : ℕ → Env) (m : List (List ℕ × ℕ)) (a : Store) → KeepsIndexes a (tick_each envs m a).1
  unfolding tick_each
  tick_each-KeepsIndexes envs [] a = λ q p e. (p, e, refl)
  tick_each-KeepsIndexes envs ((k, h) ∷ m) a =
      let first = tick_at-KeepsIndexes (envs h) a h (a h) refl in
      let rest = tick_each-KeepsIndexes envs m (tick_at (envs h) a h (a h)).1 in
      λ q p e.
        let (p₁, e₁, s₁) = first q p e in let (p₂, e₂, s₂) = rest q p₁ e₁ in (p₂, e₂, s₂ ∙ s₁)
