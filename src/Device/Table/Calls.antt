-- ===== src/Device/Table/Calls.antt =====
-- The maps agree after any sequence of configuration calls.
use mathlib.Core.Option.{bind-eq-some_iff}
use xelt_vpn.Prelude.{
  ℕ, ◌≡◌, refl, sym, ap, subst, inl, inr, Bool, true, false, List, Option, none, some, Option-cases,
}
use xelt_vpn.Prelude.Index.{find_at}
use xelt_vpn.Prelude.Maps.{find, is_found}
use xelt_vpn.Noise.Crypto.{Crypto}
use xelt_vpn.Noise.RateLimiter.{RateLimiter}
use xelt_vpn.Noise.Tunn.{tunn_set_static_private}
use xelt_vpn.Payment.Wallet.{Secp, from_wireguard_key}
use xelt_vpn.Device.Api.{
  Section, DeviceCall, set_key, open_listen_socket, set_fwmark, clear_peers, update_peer,
}
use xelt_vpn.Device.Index.{IndexLfsr, nexts}
use xelt_vpn.Device.Index
use xelt_vpn.Device.Index.Range.{Seeded}
use xelt_vpn.Device.Payments.{PaymentSide}
use xelt_vpn.Device.Peer.{Peer, Shutdown, new_peer, shutdown_endpoint}
use xelt_vpn.Device.Table.{
  Table, World, Store, InsertNetwork, rebound, payment_of, erase_index, for_each, with_arcs,
  tunnel_or_panic, has_public, key_set, change_key, listen, remove_all, remove_peer, remove_at,
  shut, are_networks, made_peer, configure_peer, perform,
}
use xelt_vpn.Device.Table.Linked.{
  Linked, KeepsIndexes, with_arcs-Linked, remove_all-Linked, some-inj, if-inv,
  shutdown_endpoint_lem,
}
use xelt_vpn.Device.Table.Remove.{remove_peer-Forgets, left-by-erase_at}
use xelt_vpn.Device.Table.Add.{AddsOne, add_peer-Linked}
use xelt_vpn.Device.Table.Known.{
  for_each-KeepsIndexes, tunnel-SameIndex, Known, new_index, added-Known, fewer-Known,
}

pub record Sound (g₀ : IndexLfsr) (t : Table) : Type 0 where
  pub linked : Linked t
  pub known : Known g₀ t

-- All but the maps, the store and the generator.
abbrev settings :
    Table
    → Option (List ℕ × List ℕ)
    → ℕ
    → Option ℕ
    → Bool
    → Option RateLimiter
    → PaymentSide
    → Table
settings t key_pair port mark sockets limiter payment = record t {
  key_pair = key_pair;
  listen_port = port;
  fwmark = mark;
  sockets = sockets;
  rate_limiter = limiter;
  payment = payment;
}

not_found : (t : Table) (k : List ℕ) → is_found (find k t.peers) ≡ false → find k t.peers ≡ none
not_found t k e = elim (Option-cases (find k t.peers)) [
  | inl q ↦ q
  | inr (h, q) ↦ cc (e, ap is_found q)
]

module _ (g₀ : IndexLfsr) (t : Table) (s : Sound g₀ t) where
  changed-Sound :
      (b : Store) (key_pair : Option (List ℕ × List ℕ)) (port : ℕ) (mark : Option ℕ)
      (sockets : Bool) (limiter : Option RateLimiter) (payment : PaymentSide)
      → KeepsIndexes t.arcs b
      → Sound g₀ (settings (with_arcs t b) key_pair port mark sockets limiter payment)
  changed-Sound b key_pair port mark sockets limiter payment keep =
      let l = with_arcs-Linked t b s.linked keep in
      record {
        linked = record {
          by_key = l.by_key;
          by_idx = l.by_idx;
          by_ip = l.by_ip;
          one_key = l.one_key;
          made = l.made;
        };
        known = fewer-Known g₀ t _ s.known refl (λ i h e. e);
      }

  listen-Sound : (w : World) (port : ℕ) {t' : Table} → listen w t port ≡ some t' → Sound g₀ t'
  unfolding listen
  listen-Sound w port e =
      let (b, each, e') =
        (bind-eq-some_iff (for_each (shutdown_endpoint w.shuts) t.peers t.arcs) _).0 e in
      let keep =
        for_each-KeepsIndexes (shutdown_endpoint w.shuts)
          (λ p p' q. sym (ap (λ (x : Peer). x.index) (shutdown_endpoint_lem w.shuts p q))) t.peers
          t.arcs each in
      subst (Sound g₀) (some-inj e') (by_port b keep (w.bind_port port))
    where
      by_port :
          (b : Store)
          → KeepsIndexes t.arcs b
          → (o : Option ℕ) → Sound g₀ (rebound (with_arcs t b) o)
      by_port b keep none =
          changed-Sound b t.key_pair t.listen_port t.fwmark false t.rate_limiter t.payment keep
      by_port b keep (some n) =
          changed-Sound b t.key_pair n t.fwmark true t.rate_limiter t.payment keep

  remove-Known :
      (shuts : Shutdown) (key : List ℕ) (o : Option ℕ) {t' : Table}
      → remove_at shuts t key o ≡ some t'
      → Known g₀ t'
  remove-Known shuts key none e = subst (Known g₀) (some-inj e) s.known
  remove-Known shuts key (some h) e =
      let (arcs, done, e') = (bind-eq-some_iff (shut shuts t.arcs h (t.arcs h)) _).0 e in
      subst (Known g₀) (some-inj e')
        (fewer-Known g₀ t _ s.known refl (λ i h' e. before (t.arcs h) i h' e))
    where
      before :
          (o : Option Peer) (i h' : ℕ)
          → find_at i (erase_index o t.peers_by_idx) ≡ some h'
          → find_at i t.peers_by_idx ≡ some h'
      before none i h' e = e
      before (some p) i h' e = (left-by-erase_at p.index i t.peers_by_idx e).0

  remove-Sound :
      (shuts : Shutdown) (key : List ℕ) {t' : Table}
      → remove_peer shuts t key ≡ some t'
      → Sound g₀ t'
  unfolding remove_peer
  remove-Sound shuts key e = record {
    linked = (remove_peer-Forgets t key s.linked shuts e).0;
    known = remove-Known shuts key (find key t.peers) e;
  }

  remove_all-Sound : Sound g₀ (remove_all t)
  unfolding remove_all find_at
  remove_all-Sound = record {
    linked = remove_all-Linked t;
    known = fewer-Known g₀ t _ s.known refl (λ i h e. cc);
  }

  module _ (crypto : Crypto) (secp : Secp) (insert : InsertNetwork) (w : World) where
    key_set-Sound :
        (private public : List ℕ) (limiter : RateLimiter) {t' : Table}
        → key_set crypto secp insert w t private public limiter ≡ some t'
        → Sound g₀ t'
    key_set-Sound private public limiter e =
        let change = λ (p : Peer). tunnel_or_panic p (
          tunn_set_static_private crypto p.tunnel private public (some limiter) w.nonce_key
            w.secret_key w.now) in
        let (b, each, e₁) = (bind-eq-some_iff (for_each change t.peers t.arcs) _).0 e in
        let (wallet, made, e₂) = (bind-eq-some_iff (from_wireguard_key secp private) _).0 e₁ in
        subst (Sound g₀) (some-inj e₂) (
          changed-Sound b (some (private, public)) t.listen_port t.fwmark t.sockets (some limiter)
            (payment_of w t.payment wallet)
            (for_each-KeepsIndexes change (λ p p' q. tunnel-SameIndex p _ p' q) t.peers t.arcs
              each))

    change_key-Sound :
        (private : List ℕ) {t' : Table}
        → change_key crypto secp insert w t private ≡ some t'
        → Sound g₀ t'
    unfolding change_key
    change_key-Sound private e =
        elim (if-inv (has_public t.key_pair (crypto.public_key private)) _ _ _ e) [
          | inl same ↦ subst (Sound g₀) (some-inj same) s
          | inr (new, e') ↦ key_set-Sound private _ _ e'
        ]

    module _ (adds : AddsOne insert) (seeded : Seeded g₀) (start : g₀.lfsr ≡ g₀.initial) where
      configure-Sound :
          (c : Section) {t' : Table}
          → configure_peer crypto secp insert w t c ≡ some t'
          → Sound g₀ t'
      unfolding configure_peer new_peer
      configure-Sound c e = elim (if-inv c.remove _ _ _ e) [
        | inl gone ↦ remove-Sound w.shuts c.public_key gone
        | inr (stays, e₁) ↦ elim (if-inv (is_found (find c.public_key t.peers)) _ _ _ e₁) [
          | inl known ↦ cc
          | inr (unknown, e₂) ↦
              let ((index, g), given, e₃) = (bind-eq-some_iff (Index.next t.next_index) _).0 e₂ in
              let ((private, public), pair, e₄) = (bind-eq-some_iff t.key_pair _).0 e₃ in
              let p = made_peer crypto secp insert w c private index in
              elim (if-inv (are_networks c.allowed_ips) _ _ _ e₄) [
                | inr (long, e₅) ↦ cc
                | inl e₅ ↦ subst (Sound g₀) (some-inj e₅) (record {
                  linked =
                      add_peer-Linked insert adds t c index g p s.linked
                        (not_found t c.public_key unknown)
                        (new_index g₀ t s.known index g given seeded start) refl;
                  known = added-Known g₀ t s.known index g given insert c p;
                })
              ]
        ]
      ]

module _ (crypto : Crypto) (secp : Secp) (insert : InsertNetwork) (adds : AddsOne insert)
    (g₀ : IndexLfsr) (seeded : Seeded g₀) (start : g₀.lfsr ≡ g₀.initial) where
  pub perform-Sound :
      (t : Table) (w : World) (call : DeviceCall) {t' : Table}
      → Sound g₀ t
      → perform crypto secp insert w t call ≡ some t'
      → Sound g₀ t'
  unfolding perform
  perform-Sound t w (set_key private) s e = change_key-Sound g₀ t s crypto secp insert w private e
  perform-Sound t w (open_listen_socket port) s e = listen-Sound g₀ t s w port e
  perform-Sound t w (set_fwmark mark) s e = subst (Sound g₀) (some-inj e) (
      changed-Sound g₀ t s t.arcs t.key_pair t.listen_port (some mark) t.sockets t.rate_limiter
        t.payment (λ h p at. (p, at, refl)))
  perform-Sound t w clear_peers s e = subst (Sound g₀) (some-inj e) (remove_all-Sound g₀ t s)
  perform-Sound t w (update_peer c) s e =
      configure-Sound g₀ t s crypto secp insert w adds seeded start c e
