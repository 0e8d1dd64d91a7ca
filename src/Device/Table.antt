-- ===== src/Device/Table.antt =====
-- The peers of `Device`, protocol/boringtun/src/device/mod.rs: its three maps, which share the peers, and
-- the calls that configure it. A reference to a peer is a number, and `arcs` is the store of what is
-- behind them. `none` is a panic. A limiter that is shared is copied into the tunnels that have it.
pub mod Linked
pub mod Remove
pub mod Add
pub mod Known
pub mod Calls
pub mod Requests
pub mod Receive
pub mod Ticks
pub mod Report
pub mod Run
mod Tests
use mathlib.Core.Option.{bind}
use xelt_vpn.Prelude.{
  ℕ, ◌+◌, Bool, true, false, List, [], ◌∷◌, Option, none, some, ◌&&◌, leb, if◌then◌else◌, bytes_eq,
}
use xelt_vpn.Prelude.Index.{find_at, erase_at, put_at, update, retain_others}
use xelt_vpn.Prelude.Maps.{find, erase, put, is_found}
use xelt_vpn.Noise.Crypto.{Crypto}
use xelt_vpn.Noise.Errors.{Result, ok, err, panic}
use xelt_vpn.Noise.Handshake.Timestamp.{TimeStamper}
use xelt_vpn.Noise.Outcome.{v4, v6}
use xelt_vpn.Noise.RateLimiter.{RateLimiter, new_limiter}
use xelt_vpn.Noise.Tunn.{Tunn, new_tunn, tunn_set_static_private}
use xelt_vpn.Payment.Quota.{default_quota_bytes}
use xelt_vpn.Payment.Quota
use xelt_vpn.Payment.Settlement.{SettleRequest, SettleOutcome}
use xelt_vpn.Payment.Wallet.{Secp, PaymentWallet, from_wireguard_key}
use xelt_vpn.Device.Api.{
  Section, DeviceCall, set_key, open_listen_socket, set_fwmark, clear_peers, update_peer,
}
use xelt_vpn.Device.Index.{IndexLfsr}
use xelt_vpn.Device.Index
use xelt_vpn.Device.Payments.{PaymentSide, with_tunnel}
use xelt_vpn.Device.Peer.{Peer, AllowedIp, Shutdown, new_peer, shutdown_endpoint}

abbrev pub handshake_rate_limit : ℕ
handshake_rate_limit = 100

abbrev pub Store : Type 0
Store = ℕ → Option Peer

-- `sockets` says whether the two sockets are open.
pub record Table : Type 0 where
  pub key_pair : Option (List ℕ × List ℕ)
  pub listen_port : ℕ
  pub fwmark : Option ℕ
  pub sockets : Bool
  pub peers : List (List ℕ × ℕ)
  pub peers_by_ip : List (AllowedIp × ℕ)
  pub peers_by_idx : List (ℕ × ℕ)
  pub next_index : IndexLfsr
  pub rate_limiter : Option RateLimiter
  pub payment : PaymentSide
  pub arcs : Store
  pub next_arc : ℕ

-- What a call takes from outside: random keys, the clock, the port that a socket is bound to, which
-- sockets shut down, and the settlement client of an address.
pub record World : Type 0 where
  pub nonce_key : List ℕ
  pub secret_key : List ℕ
  pub stamper : TimeStamper
  pub now : ℕ
  pub bind_port : ℕ → Option ℕ
  pub shuts : Shutdown
  pub settlement_client : List ℕ → SettleRequest → SettleOutcome

-- `ip_network_table` as the list of its entries: the inserted entry is cut to its network, and no
-- reference is there that was not before or is inserted.
abbrev pub InsertNetwork : Type 0
InsertNetwork = AllowedIp → ℕ → List (AllowedIp × ℕ) → List (AllowedIp × ℕ)

-- A device with no peer.
abbrev pub new_table : IndexLfsr → PaymentSide → Table
new_table g payment = record {
  key_pair = none;
  listen_port = 0;
  fwmark = none;
  sockets = false;
  peers = [];
  peers_by_ip = [];
  peers_by_idx = [];
  next_index = g;
  rate_limiter = none;
  payment = payment;
  arcs = λ h. none;
  next_arc = 0;
}

-- `for peer in self.peers.values()`, each changed or the whole a panic.
abbrev pub change_at : (Peer → Option Peer) → Store → ℕ → Option Peer → Option Store
change_at f arcs h none = some arcs
change_at f arcs h (some p) = bind (f p) (λ p'. some (update arcs h p'))

unfoldable pub for_each : (Peer → Option Peer) → List (List ℕ × ℕ) → Store → Option Store
for_each f [] arcs = some arcs
for_each f ((k, h) ∷ m) arcs = bind (change_at f arcs h (arcs h)) (λ arcs'. for_each f m arcs')

abbrev pub with_arcs : Table → Store → Table
with_arcs t arcs = record t { arcs = arcs }

-- The index of the peer that is removed.
abbrev pub erase_index : Option Peer → List (ℕ × ℕ) → List (ℕ × ℕ)
erase_index none m = m
erase_index (some p) m = erase_at p.index m

abbrev pub shut : Shutdown → Store → ℕ → Option Peer → Option Store
shut shuts arcs h none = some arcs
shut shuts arcs h (some p) = bind (shutdown_endpoint shuts p) (λ p'. some (update arcs h p'))

abbrev pub remove_at : Shutdown → Table → List ℕ → Option ℕ → Option Table
remove_at shuts t pub_key none = some t
remove_at shuts t pub_key (some h) = bind (shut shuts t.arcs h (t.arcs h)) (λ arcs. some (record t {
  peers = erase pub_key t.peers;
  peers_by_idx = erase_index (t.arcs h) t.peers_by_idx;
  peers_by_ip = retain_others h t.peers_by_ip;
  arcs = arcs;
}))

unfoldable pub remove_peer : Shutdown → Table → List ℕ → Option Table
remove_peer shuts t pub_key = remove_at shuts t pub_key (find pub_key t.peers)

-- The lengths that `new_truncate` takes; the panic of its `expect` is where networks are inserted.
abbrev pub is_network : AllowedIp → Bool
is_network ip = elim ip.addr [ v4 a ↦ leb ip.cidr 32 | v6 a ↦ leb ip.cidr 128 ]

unfoldable pub are_networks : List AllowedIp → Bool
are_networks [] = true
are_networks (ip ∷ ips) = is_network ip && are_networks ips

-- Of networks.
unfoldable pub insert_networks :
    InsertNetwork → List AllowedIp → ℕ → List (AllowedIp × ℕ) → List (AllowedIp × ℕ)
insert_networks insert [] h table = table
insert_networks insert (ip ∷ ips) h table = insert_networks insert ips h (insert ip h table)

abbrev pub add_peer : InsertNetwork → Table → Section → ℕ → IndexLfsr → Peer → Table
add_peer insert t s index g p = record t {
  peers = put s.public_key t.next_arc t.peers;
  peers_by_idx = put_at index t.next_arc t.peers_by_idx;
  peers_by_ip = insert_networks insert s.allowed_ips t.next_arc t.peers_by_ip;
  next_index = g;
  arcs = update t.arcs t.next_arc p;
  next_arc = t.next_arc + 1;
}

abbrev pub has_public : Option (List ℕ × List ℕ) → List ℕ → Bool
has_public none public_key = false
has_public (some (private, public)) public_key = bytes_eq public public_key

-- A payment wallet, and on a server a client of the settlement service. What a client's deposit comes
-- to is only logged.
abbrev pub payment_of : World → PaymentSide → PaymentWallet → PaymentSide
payment_of w d wallet = record d {
  payment_wallet = some wallet;
  settlement_client =
      if d.payment_config.is_server
      then some (w.settlement_client d.payment_config.gateway_api_url)
      else d.settlement_client;
}

abbrev pub rebound : Table → Option ℕ → Table
rebound t none = record t { sockets = false }
rebound t (some port) = record t { sockets = true; listen_port = port }

abbrev pub tunnel_or_panic : Peer → Result Tunn → Option Peer
tunnel_or_panic p (ok t) = some (with_tunnel p t)
tunnel_or_panic p (err e) = none
tunnel_or_panic p panic = none

-- The sockets are closed first, and the peers' connected ones.
unfoldable pub listen : World → Table → ℕ → Option Table
listen w t port =
    bind (for_each (shutdown_endpoint w.shuts) t.peers t.arcs)
      (λ arcs. some (rebound (with_arcs t arcs) (w.bind_port port)))

unfoldable pub remove_all : Table → Table
remove_all t = record t { peers = []; peers_by_idx = []; peers_by_ip = [] }

module _ (crypto : Crypto) (secp : Secp) (insert : InsertNetwork) where
  abbrev pub key_set : World → Table → List ℕ → List ℕ → RateLimiter → Option Table
  key_set w t private_key public_key limiter =
      bind
        (for_each
          (λ p. tunnel_or_panic p (
            tunn_set_static_private crypto p.tunnel private_key public_key (some limiter)
              w.nonce_key w.secret_key w.now))
          t.peers t.arcs)
        (λ arcs. bind (from_wireguard_key secp private_key) (λ wallet. some (record t {
          arcs = arcs;
          key_pair = some (private_key, public_key);
          rate_limiter = some limiter;
          payment = payment_of w t.payment wallet;
        })))

  unfoldable pub change_key : World → Table → List ℕ → Option Table
  change_key w t private_key =
      let public_key = crypto.public_key private_key in
      if has_public t.key_pair public_key
      then some t
      else key_set w t private_key public_key
          (new_limiter crypto w.nonce_key w.secret_key public_key handshake_rate_limit w.now)

  abbrev pub made_peer : World → Section → List ℕ → ℕ → Peer
  made_peer w s private index =
      let tunn =
        new_tunn crypto private s.public_key s.preshared_key s.keepalive index none w.nonce_key
          w.secret_key w.stamper w.now in
      record (new_peer tunn index s.endpoint s.allowed_ips s.preshared_key) {
        quota = some (Quota.new default_quota_bytes);
      }

  abbrev pub if_networks : List AllowedIp → Table → Option Table
  if_networks ips t = if are_networks ips then some t else none

  -- A peer that is there already is a panic, and so is a device with no key, or an address whose
  -- length is none.
  unfoldable pub configure_peer : World → Table → Section → Option Table
  configure_peer w t s =
      if s.remove
      then remove_peer w.shuts t s.public_key
      else if is_found (find s.public_key t.peers)
      then none
      else bind (Index.next t.next_index) (λ r. bind t.key_pair (λ keys.
        if_networks s.allowed_ips (add_peer insert t s r.0 r.1 (made_peer w s keys.0 r.0))))

  unfoldable pub perform : World → Table → DeviceCall → Option Table
  perform w t (set_key private_key) = change_key w t private_key
  perform w t (open_listen_socket port) = listen w t port
  perform w t (set_fwmark mark) = some (record t { fwmark = some mark })
  perform w t clear_peers = some (remove_all t)
  perform w t (update_peer s) = configure_peer w t s

  unfoldable pub perform_all : Table → List (World × DeviceCall) → Option Table
  perform_all t [] = some t
  perform_all t ((w, call) ∷ calls) = bind (perform w t call) (λ t'. perform_all t' calls)
