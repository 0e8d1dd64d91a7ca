-- ===== src/Device/Table/Report.antt =====
-- What a device tells of itself: `api_get` of protocol/boringtun/src/device/api.rs, line by line, and
-- `uapi_get_peers` of protocol/boringtun/src/device/http_api.rs, which reads it. `none` is a panic.
mod Decimal
pub mod ReadBack
mod Tests
use mathlib.Core.Option.{bind}
use xelt_vpn.Prelude.{
  ℕ, ◌+◌, ◌-◌, ◌/◌, ◌%◌, ◌^◌, Bool, true, false, ◌&&◌, List, [], ◌∷◌, ◌++◌, Option, none, some,
  ◌==◌, if◌then◌else◌, map, bytes_eq, codes, digits,
}
use xelt_vpn.Prelude.Maps.{put}
use xelt_vpn.Noise.Errors.{Result, ok, err, panic}
use xelt_vpn.Noise.Handshake.Timestamp.{nanos_per_sec}
use xelt_vpn.Noise.Outcome.{IpAddr}
use xelt_vpn.Noise.Timers.{persistent_keepalive_of}
use xelt_vpn.Noise.Tunn.Clock.{time_since_last_handshake}
use xelt_vpn.Payment.Quota.{BandwidthQuota}
use xelt_vpn.Device.Api.Key.{parse_uint, split_once}
use xelt_vpn.Device.Peer.{Peer, AllowedIp, SocketAddr}
use xelt_vpn.Device.Table.{Table, Store}

-- The writers that are not the repository's: hex, and addresses.
pub record Writers : Type 0 where
  pub hex_encode : List ℕ → List ℕ
  pub show_ip : IpAddr → List ℕ
  pub show_addr : SocketAddr → List ℕ

abbrev pub Lines : Type 0
Lines = List (List ℕ)

abbrev pub entry : List ℕ → List ℕ → List ℕ
entry key val = key ++ (b'=' ∷ val)

abbrev pub if_some {ℓ} : {A : Type ℓ} → Option A → (A → List ℕ) → Lines
if_some none f = []
if_some (some a) f = f a ∷ []

abbrev pub show_bool : Bool → List ℕ
show_bool true = codes "true"
show_bool false = codes "false"

abbrev pub time_lines : Result (Option ℕ) → Option Lines
time_lines (ok none) = some []
time_lines (ok (some d)) = some (
    entry (codes "last_handshake_time_sec") (digits 19 (d / nanos_per_sec))
    ∷ entry (codes "last_handshake_time_nsec") (digits 19 (d % nanos_per_sec))
    ∷ [])
time_lines (err e) = none
time_lines panic = none

abbrev pub quota_lines : Option BandwidthQuota → Lines
quota_lines none = []
quota_lines (some q) =
    entry (codes "quota_remaining") (digits 19 q.remaining_bytes)
    ∷ entry (codes "quota_blocked") (show_bool q.blocked)
    ∷ entry (codes "quota_total_consumed") (digits 19 q.total_consumed)
    ∷ entry (codes "quota_payment_count") (digits 19 q.payment_count)
    ∷ []

module _ (w : Writers) where
  -- From the key to the allowed addresses.
  abbrev pub settings_lines : List ℕ → Peer → Lines → Lines
  settings_lines k p more =
      entry (codes "public_key") (w.hex_encode k)
      ∷ (if_some p.preshared_key (λ key. entry (codes "preshared_key") (w.hex_encode key))
          ++ (if_some (persistent_keepalive_of p.tunnel.timers)
                (λ n. entry (codes "persistent_keepalive_interval") (digits 4 n))
              ++ (if_some p.endpoint.addr (λ a. entry (codes "endpoint") (w.show_addr a))
                  ++ (map
                        (λ (ip : AllowedIp).
                          entry (codes "allowed_ip")
                            (w.show_ip ip.addr ++ (b'/' ∷ digits 2 ip.cidr)))
                        p.allowed_ips
                      ++ more))))

  abbrev pub traffic_lines : Peer → Lines
  traffic_lines p =
      entry (codes "rx_bytes") (digits 19 p.tunnel.rx_bytes)
      ∷ entry (codes "tx_bytes") (digits 19 p.tunnel.tx_bytes)
      ∷ quota_lines p.quota

  abbrev pub peer_lines : List ℕ → Peer → ℕ → Lines → Option Lines
  peer_lines k p now more =
      bind (time_lines (time_since_last_handshake p.tunnel now))
        (λ time. some (settings_lines k p (time ++ (traffic_lines p ++ more))))

  abbrev pub at_arc : List ℕ → ℕ → Lines → Option Peer → Option Lines
  at_arc k now more none = some more
  at_arc k now more (some p) = peer_lines k p now more

  unfoldable pub all_peers : List (List ℕ × ℕ) → Store → ℕ → Lines → Option Lines
  all_peers [] arcs now last = some last
  all_peers ((k, h) ∷ m) arcs now last =
      bind (all_peers m arcs now last) (λ more. at_arc k now more (arcs h))

  abbrev pub own_lines : Option (List ℕ × List ℕ) → Lines
  own_lines pair = if_some pair (λ keys. entry (codes "own_public_key") (w.hex_encode keys.1))

  abbrev pub port_lines : ℕ → Lines
  port_lines port = if port == 0 then [] else entry (codes "listen_port") (digits 4 port) ∷ []

  -- The answer to `get=1`, with the line of its error number.
  unfoldable pub api_get : Table → ℕ → Option Lines
  api_get t now = bind (all_peers t.peers t.arcs now (codes "errno=0" ∷ [] ∷ [])) (λ peers. some (
      own_lines t.key_pair
      ++ (port_lines t.listen_port
          ++ (if_some t.fwmark (λ mark. entry (codes "fwmark") (digits 9 mark)) ++ peers))))

-- The variables of `uapi_get_peers`.
pub record Seen : Type 0 where
  pub own_pubkey : Option (List ℕ)
  pub listen_port : Option ℕ
  pub current_pubkey : Option (List ℕ)
  pub current_handshake : Option ℕ
  pub found : List (List ℕ × Option ℕ)

abbrev pub PeersAnswer : Type 0
PeersAnswer = Option (List ℕ) × Option ℕ × List (List ℕ × Option ℕ)

abbrev pub answer_of : Seen → PeersAnswer
answer_of s = (s.own_pubkey, s.listen_port, s.found)

abbrev pub nothing_seen : Seen
nothing_seen = record {
  own_pubkey = none;
  listen_port = none;
  current_pubkey = none;
  current_handshake = none;
  found = [];
}

abbrev pub flush_key : Seen → Option (List ℕ) → Seen
flush_key s none = s
flush_key s (some pk) = record s {
  current_pubkey = none;
  current_handshake = none;
  found = put pk s.current_handshake s.found;
}

abbrev pub flush_peer : Seen → Seen
flush_peer s = flush_key s s.current_pubkey

unfoldable pub starts_with : List ℕ → List ℕ → Bool
starts_with [] xs = true
starts_with (p ∷ ps) [] = false
starts_with (p ∷ ps) (x ∷ xs) = (p == x) && starts_with ps xs

module _ (own_key : List ℕ → Option (List ℕ)) where
  abbrev pub or_before : Option (List ℕ) → Option (List ℕ) → Option (List ℕ)
  or_before none before = before
  or_before (some k) before = some k

  -- `own_key` turns hex into base64, where it is hex; `key_is` tells the keywords.
  abbrev pub see_value : (List ℕ → Bool) → Seen → List ℕ → Seen
  see_value key_is s val =
      if key_is (codes "own_public_key")
      then record s { own_pubkey = or_before (own_key val) s.own_pubkey }
      else if key_is (codes "listen_port")
      then record s { listen_port = parse_uint 65535 val }
      else if key_is (codes "public_key")
      then record (flush_peer s) { current_pubkey = some val; current_handshake = none }
      else if key_is (codes "last_handshake_time_sec")
      then record s { current_handshake = parse_uint (2 ^ 64 - 1) val }
      else s

  abbrev pub see : Seen → Option (List ℕ × List ℕ) → Seen
  see s none = s
  see s (some (key, val)) = see_value (bytes_eq key) s val

  unfoldable pub read_lines : Seen → Lines → Seen
  read_lines s [] = flush_peer s
  read_lines s ([] ∷ ls) = read_lines (flush_peer s) ls
  read_lines s ((c ∷ cs) ∷ ls) =
      let rest = read_lines (see s (split_once b'=' (c ∷ cs))) ls in
      if starts_with (codes "errno=") (c ∷ cs) then flush_peer s else rest

  unfoldable pub uapi_get_peers : Lines → PeersAnswer
  uapi_get_peers ls = answer_of (read_lines nothing_seen ls)
