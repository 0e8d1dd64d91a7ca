-- ===== src/Device/Table/Run.antt =====
-- A device's life: its configuration, what comes to it, and time.
use mathlib.Core.Option.{bind, bind-eq-some_iff}
use xelt_vpn.Prelude.{
  ℕ, ◌≡◌, refl, sym, ap, subst, ◌∙◌, inl, inr, Bool, true, false, List, [], ◌∷◌, Option, none, some,
  if◌then◌else◌, Bool-cases,
}
use xelt_vpn.Prelude.Index.{find_at, has_value}
use xelt_vpn.Prelude.Maps.{find}
use xelt_vpn.Noise.Crypto.{Crypto}
use xelt_vpn.Noise.Handshake.{Env}
use xelt_vpn.Noise.Outcome.{IpAddr}
use xelt_vpn.Payment.Wallet.{Secp}
use xelt_vpn.Device.Api.{DeviceCall}
use xelt_vpn.Device.Index.{IndexLfsr}
use xelt_vpn.Device.Index.Range.{Seeded}
use xelt_vpn.Device.Payments.{PaymentSide, Out}
use xelt_vpn.Device.Peer.{Shutdown, AllowedIp}
use xelt_vpn.Device.Table.{Table, World, InsertNetwork, new_table, perform}
use xelt_vpn.Device.Table.Add.{AddsOne}
use xelt_vpn.Device.Table.Calls.{Sound, perform-Sound}
use xelt_vpn.Device.Table.Known.{new-Known, fewer-Known}
use xelt_vpn.Device.Table.Linked.{Linked, with_arcs-Linked, some-inj}
use xelt_vpn.Device.Table.Receive.{Datagram, has_panic, receive}
use xelt_vpn.Device.Table.Receive.Kept.{receive-OneTouched}
use xelt_vpn.Device.Table.Ticks.{
  reset_limiter, run_timers, ticked, tick_each, tick_each-KeepsIndexes,
}

-- A call that configures, a datagram, and the two periodic events.
pub data Event : Type 0 where
  configured : World → DeviceCall → Event
  arrived : Datagram → Event
  second_passed : ℕ → Event
  timers_ran : Shutdown → (ℕ → Env) → Event

module _ (crypto : Crypto) (secp : Secp) (hex_encode : List ℕ → List ℕ)
    (allowed : List AllowedIp → IpAddr → Bool) (insert : InsertNetwork) where
  abbrev pub unless_panic : List Out → Table → Option Table
  unless_panic outs t = if has_panic crypto secp hex_encode allowed outs then none else some t

  abbrev pub event_step : Table → Event → Option Table
  event_step t (configured w call) = perform crypto secp insert w t call
  event_step t (arrived d) =
      let (outs, t', counts) = receive crypto secp hex_encode allowed t d in unless_panic outs t'
  event_step t (second_passed now) = some (reset_limiter t now)
  event_step t (timers_ran shuts envs) =
      let (outs, t') = run_timers crypto shuts t envs in unless_panic outs t'

  -- What is left of a device after some events, unless one of them was a panic.
  unfoldable pub run_events : Table → List Event → Option Table
  run_events t [] = some t
  run_events t (e ∷ es) = bind (event_step t e) (λ t'. run_events t' es)

  unless_panic-some :
      (outs : List Out) (t : Table) {t' : Table} → unless_panic outs t ≡ some t' → t ≡ t'
  unless_panic-some outs t e = elim (Bool-cases (has_panic crypto secp hex_encode allowed outs)) [
    | inl q ↦ cc (ap (λ b. if b then none else some t) (sym q) ∙ e)
    | inr q ↦ some-inj (ap (λ b. if b then none else some t) (sym q) ∙ e)
  ]

  module _ (adds : AddsOne insert) (g₀ : IndexLfsr) (seeded : Seeded g₀)
      (start : g₀.lfsr ≡ g₀.initial) where
    reset-Sound : (t : Table) (now : ℕ) → Sound g₀ t → Sound g₀ (reset_limiter t now)
    unfolding reset_limiter
    reset-Sound t now s =
        let l = s.linked in
        record {
          linked = record {
            by_key = l.by_key;
            by_idx = l.by_idx;
            by_ip = l.by_ip;
            one_key = l.one_key;
            made = l.made;
          };
          known = fewer-Known g₀ t _ s.known refl (λ i h e. e);
        }

    run_timers-Sound :
        (shuts : Shutdown) (t : Table) (envs : ℕ → Env)
        → Sound g₀ t
        → Sound g₀ (run_timers crypto shuts t envs).1
    unfolding run_timers
    run_timers-Sound shuts t envs s = by_sockets t.sockets
      where
        by_sockets :
            (b : Bool)
            → Sound g₀
                (if b
                  then ticked crypto shuts t (tick_each crypto shuts envs t.peers t.arcs)
                  else ([], t)).1
        by_sockets true = record {
          linked =
              with_arcs-Linked t (tick_each crypto shuts envs t.peers t.arcs).1 s.linked
                (tick_each-KeepsIndexes crypto shuts envs t.peers t.arcs);
          known = fewer-Known g₀ t _ s.known refl (λ i h e. e);
        }
        by_sockets false = s

    receive-Sound :
        (t : Table) (d : Datagram)
        → Sound g₀ t
        → Sound g₀ (receive crypto secp hex_encode allowed t d).1
    receive-Sound t d s =
        let (linked, peers, by_idx, by_ip, generator, one, others) =
          receive-OneTouched crypto secp hex_encode allowed t d s.linked in
        record {
          linked = linked;
          known = fewer-Known g₀ t _ s.known generator (λ i h e. sym (ap (find_at i) by_idx) ∙ e);
        }

    step-Sound :
        (t : Table) (e : Event) {t' : Table} → Sound g₀ t → event_step t e ≡ some t' → Sound g₀ t'
    step-Sound t (configured w call) s e =
        perform-Sound crypto secp insert adds g₀ seeded start t w call s e
    step-Sound t (arrived d) s e =
        subst (Sound g₀) (unless_panic-some (receive crypto secp hex_encode allowed t d).0 _ e)
          (receive-Sound t d s)
    step-Sound t (second_passed now) s e = subst (Sound g₀) (some-inj e) (reset-Sound t now s)
    step-Sound t (timers_ran shuts envs) s e =
        subst (Sound g₀) (unless_panic-some (run_timers crypto shuts t envs).0 _ e)
          (run_timers-Sound shuts t envs s)

    run-Sound :
        (t : Table) (es : List Event) {t' : Table}
        → Sound g₀ t
        → run_events t es ≡ some t'
        → Sound g₀ t'
    unfolding run_events
    run-Sound t [] s e = subst (Sound g₀) (some-inj e) s
    run-Sound t (x ∷ es) s e =
        let (t₁, first, rest) = (bind-eq-some_iff (event_step t x) _).0 e in
        run-Sound t₁ es (step-Sound t x s first) rest

    -- From a device with no peer and a seeded generator, any sequence of configuration calls, datagrams
    -- and periodic events that does not panic ends with maps that agree: each key's peer is found by its
    -- index, the maps of indexes and networks have the keys' peers alone, and no two keys share a peer.
    -- `insert` adds no reference but the given one.
    pub run-Linked :
        (d : PaymentSide) (es : List Event) {t : Table}
        → run_events (new_table g₀ d) es ≡ some t
        → Linked t
    unfolding find find_at has_value
    run-Linked d es e =
        let empty : Linked (new_table g₀ d) = record {
          by_key = λ k h e. cc;
          by_idx = λ i h e. cc;
          by_ip = λ h e. cc;
          one_key = λ j k h e f. cc;
          made = λ k h e. cc;
        } in
        (run-Sound (new_table g₀ d) es (record { linked = empty; known = new-Known g₀ d }) e).linked
