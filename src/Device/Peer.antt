-- ===== src/Device/Peer.antt =====
-- `Peer` of protocol/boringtun/src/device/peer.rs. The table of allowed addresses is the list of its
-- entries in the order of its iterator; how `ip_network_table` searches it is a parameter where needed.
-- A connected socket is known by its number.
use xelt_vpn.Prelude.{
  ℕ, Bool, true, false, ◌&&◌, List, [], ◌∷◌, Option, none, some, ◌==◌, if◌then◌else◌, bytes_eq,
}
use xelt_vpn.Noise.Outcome.{IpAddr, v4, v6}
use xelt_vpn.Noise.Tunn.{Tunn}
use xelt_vpn.Payment.Quota.{BandwidthQuota}

pub record SocketAddr : Type 0 where
  pub ip : IpAddr
  pub port : ℕ

pub record Endpoint : Type 0 where
  pub addr : Option SocketAddr
  pub conn : Option ℕ

pub record AllowedIp : Type 0 where
  pub addr : IpAddr
  pub cidr : ℕ

pub record Peer : Type 0 where
  pub tunnel : Tunn
  pub index : ℕ
  pub endpoint : Endpoint
  pub allowed_ips : List AllowedIp
  pub preshared_key : Option (List ℕ)
  pub quota : Option BandwidthQuota

abbrev pub ip_eq : IpAddr → IpAddr → Bool
ip_eq (v4 a) (v4 b) = bytes_eq a b
ip_eq (v6 a) (v6 b) = bytes_eq a b
ip_eq (v4 a) (v6 b) = false
ip_eq (v6 a) (v4 b) = false

abbrev pub addr_eq : SocketAddr → SocketAddr → Bool
addr_eq a b = ip_eq a.ip b.ip && (a.port == b.port)

abbrev pub is_addr : Option SocketAddr → SocketAddr → Bool
is_addr none b = false
is_addr (some a) b = addr_eq a b

-- A new peer has no connected socket and no quota.
unfoldable pub new_peer : Tunn → ℕ → Option SocketAddr → List AllowedIp → Option (List ℕ) → Peer
new_peer tunnel index endpoint allowed_ips preshared_key = record {
  tunnel = tunnel;
  index = index;
  endpoint = record { addr = endpoint; conn = none };
  allowed_ips = allowed_ips;
  preshared_key = preshared_key;
  quota = none;
}

-- Which connected sockets the system shuts down without an error.
abbrev pub Shutdown : Type 0
Shutdown = ℕ → Bool

-- `conn.shutdown(Shutdown::Both).unwrap()`, where there is a socket.
abbrev pub is_shut : Shutdown → Option ℕ → Bool
is_shut shuts none = true
is_shut shuts (some conn) = shuts conn

abbrev pub closed : Peer → Peer
closed p = record p { endpoint = record (p.endpoint) { conn = none } }

-- `none` is a panic.
unfoldable pub shutdown_endpoint : Shutdown → Peer → Option Peer
shutdown_endpoint shuts p = if is_shut shuts p.endpoint.conn then some (closed p) else none

-- Another address closes the connected socket.
unfoldable pub set_endpoint : Shutdown → Peer → SocketAddr → Option Peer
set_endpoint shuts p addr =
    if is_addr p.endpoint.addr addr
    then some p
    else if is_shut shuts p.endpoint.conn
    then some (record p { endpoint = record { addr = some addr; conn = none } })
    else none

-- The address of the first entry, if it is one of IPv4.
abbrev pub first_ipv4 : List AllowedIp → Option (List ℕ)
first_ipv4 [] = none
first_ipv4 (e ∷ es) = elim e.addr [ v4 ip ↦ some ip | v6 ip ↦ none ]
