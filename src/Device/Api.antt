-- ===== src/Device/Api.antt =====
-- The set commands of protocol/boringtun/src/device/api.rs. A set of commands gives the error number and
-- the calls on the device, in their order. A line comes as `read_line` gives it; at the end of the input
-- the line is empty.
pub mod Key
pub mod Requests
pub mod Leak
mod Tests
use xelt_vpn.Prelude.{
  ℕ, Bool, true, false, List, [], ◌∷◌, ◌++◌, Option, none, some, ltb, ◌==◌, if◌then◌else◌, bytes_eq,
  codes,
}
use xelt_vpn.Noise.Outcome.{IpAddr}
use xelt_vpn.Device.Peer.{AllowedIp, SocketAddr}
use xelt_vpn.Device.Api.Key.{parse_key, parse_bool, parse_uint, split, split_once, parse_allowed_ip}

-- The parsers that are not the repository's: base64, and addresses.
pub record Parsers : Type 0 where
  pub base64_decode : List ℕ → Option (List ℕ)
  pub parse_ip : List ℕ → Option IpAddr
  pub parse_socket_addr : List ℕ → Option SocketAddr

pub data Errno : Type 0 where
  no_error einval eproto eaddrinuse : Errno

-- The variables of `api_set_peer`, which are the arguments of `update_peer`.
pub record Section : Type 0 where
  pub public_key : List ℕ
  pub remove : Bool
  pub replace_ips : Bool
  pub endpoint : Option SocketAddr
  pub keepalive : Option ℕ
  pub preshared_key : Option (List ℕ)
  pub allowed_ips : List AllowedIp

pub data DeviceCall : Type 0 where
  set_key : List ℕ → DeviceCall
  open_listen_socket : ℕ → DeviceCall
  set_fwmark : ℕ → DeviceCall
  clear_peers : DeviceCall
  update_peer : Section → DeviceCall

abbrev pub Outcome : Type 0
Outcome = Errno × List DeviceCall

abbrev pub then_call : DeviceCall → Outcome → Outcome
then_call call (errno, calls) = (errno, call ∷ calls)

abbrev pub new_section : List ℕ → Section
new_section key = record {
  public_key = key;
  remove = false;
  replace_ips = false;
  endpoint = none;
  keepalive = none;
  preshared_key = none;
  allowed_ips = [];
}

-- `cmd.pop()`.
unfoldable pub pop : List ℕ → List ℕ
pop [] = []
pop (c ∷ []) = []
pop (c ∷ d ∷ cs) = c ∷ pop (d ∷ cs)

-- What a line of a section asks for.
pub data PeerCommand : Type 0 where
  assigns : Section → PeerCommand
  next_peer : Option (List ℕ) → PeerCommand
  refused : Errno → PeerCommand
  commits : PeerCommand

-- What a line before the first section asks for.
pub data DeviceCommand : Type 0 where
  calls : DeviceCall → DeviceCommand
  begins_peer : List ℕ → DeviceCommand
  fails : Errno → DeviceCommand
  call_fails : DeviceCall → DeviceCommand
  finishes does_nothing : DeviceCommand

abbrev pub call_or_invalid {ℓ} : {A : Type ℓ} → (A → DeviceCall) → Option A → DeviceCommand
call_or_invalid f none = fails einval
call_or_invalid f (some a) = calls (f a)

-- A value that parses, or an invalid argument.
abbrev pub or_invalid {ℓ} : {A : Type ℓ} → (A → PeerCommand) → Option A → PeerCommand
or_invalid f none = refused einval
or_invalid f (some a) = f a

-- A port that cannot be bound, or a mark that cannot be set, is an address in use.
abbrev pub attempt : (DeviceCall → Bool) → DeviceCall → DeviceCommand
attempt succeeds call = if succeeds call then calls call else call_fails call

abbrev pub attempt_or_invalid : (DeviceCall → Bool) → (ℕ → DeviceCall) → Option ℕ → DeviceCommand
attempt_or_invalid succeeds f none = fails einval
attempt_or_invalid succeeds f (some n) = attempt succeeds (f n)

abbrev pub replace_or_invalid : Option Bool → DeviceCommand
replace_or_invalid none = fails einval
replace_or_invalid (some true) = calls clear_peers
replace_or_invalid (some false) = does_nothing

abbrev pub peer_or_invalid : Option (List ℕ) → DeviceCommand
peer_or_invalid none = fails einval
peer_or_invalid (some key) = begins_peer key

module _ (parsers : Parsers) where
  -- `key_is` tells the keywords.
  abbrev pub peer_value : (List ℕ → Bool) → Section → List ℕ → PeerCommand
  peer_value key_is s val =
      if key_is (codes "remove")
      then or_invalid (λ b. assigns (record s { remove = b })) (parse_bool val)
      else if key_is (codes "preshared_key")
      then or_invalid (λ k. assigns (record s { preshared_key = some k }))
          (parse_key parsers.base64_decode val)
      else if key_is (codes "endpoint")
      then or_invalid (λ a. assigns (record s { endpoint = some a }))
          (parsers.parse_socket_addr val)
      else if key_is (codes "persistent_keepalive_interval")
      then or_invalid (λ n. assigns (record s { keepalive = some n })) (parse_uint 65535 val)
      else if key_is (codes "replace_allowed_ips")
      then or_invalid (λ b. assigns (record s { replace_ips = b })) (parse_bool val)
      else if key_is (codes "allowed_ip")
      then or_invalid (λ ip. assigns (record s { allowed_ips = s.allowed_ips ++ (ip ∷ []) }))
          (parse_allowed_ip parsers.parse_ip val)
      else if key_is (codes "public_key")
      then next_peer (parse_key parsers.base64_decode val)
      else if key_is (codes "protocol_version")
      then or_invalid (λ n. if n == 1 then assigns s else refused einval)
          (parse_uint 4294967295 val)
      else refused einval

  abbrev pub peer_parts : Section → Option (List ℕ × List ℕ) → PeerCommand
  peer_parts s none = refused eproto
  peer_parts s (some (key, val)) = peer_value (bytes_eq key) s val

  unfoldable pub peer_command : Section → List ℕ → PeerCommand
  peer_command s [] = commits
  peer_command s (c ∷ cs) = peer_parts s (split_once b'=' (c ∷ cs))

  -- Only the allowed addresses are cleared for the next peer.
  abbrev pub next_section : Section → List ℕ → Section
  next_section s key = record s { public_key = key; allowed_ips = [] }

  abbrev pub peer_then : Section → PeerCommand → (Section → Outcome) → Outcome
  peer_then s commits rest = (no_error, update_peer s ∷ [])
  peer_then s (assigns s') rest = rest s'
  peer_then s (next_peer none) rest = (einval, update_peer s ∷ [])
  peer_then s (next_peer (some key)) rest = then_call (update_peer s) (rest (next_section s key))
  peer_then s (refused errno) rest = (errno, [])

  unfoldable pub api_set_peer : Section → List (List ℕ) → Outcome
  api_set_peer s [] = (no_error, update_peer s ∷ [])
  api_set_peer s (line ∷ lines) =
      peer_then s (peer_command s (pop line)) (λ s'. api_set_peer s' lines)

  abbrev pub device_value : (DeviceCall → Bool) → (List ℕ → Bool) → List ℕ → DeviceCommand
  device_value succeeds key_is val =
      if key_is (codes "private_key")
      then call_or_invalid set_key (parse_key parsers.base64_decode val)
      else if key_is (codes "listen_port")
      then attempt_or_invalid succeeds open_listen_socket (parse_uint 65535 val)
      else if key_is (codes "fwmark")
      then attempt_or_invalid succeeds set_fwmark (parse_uint 4294967295 val)
      else if key_is (codes "replace_peers")
      then replace_or_invalid (parse_bool val)
      else if key_is (codes "public_key")
      then peer_or_invalid (parse_key parsers.base64_decode val)
      else fails einval

  -- A line with more than one separator is refused.
  abbrev pub device_parts : (DeviceCall → Bool) → List (List ℕ) → DeviceCommand
  device_parts succeeds (key ∷ val ∷ []) = device_value succeeds (bytes_eq key) val
  device_parts succeeds [] = fails eproto
  device_parts succeeds (key ∷ []) = fails eproto
  device_parts succeeds (key ∷ val ∷ p ∷ ps) = fails eproto

  unfoldable pub device_command : (DeviceCall → Bool) → List ℕ → DeviceCommand
  device_command succeeds [] = finishes
  device_command succeeds (c ∷ cs) = device_parts succeeds (split b'=' (c ∷ cs))

  abbrev pub device_then : DeviceCommand → List (List ℕ) → Outcome → Outcome
  device_then finishes lines rest = (no_error, [])
  device_then does_nothing lines rest = rest
  device_then (calls call) lines rest = then_call call rest
  device_then (begins_peer key) lines rest = api_set_peer (new_section key) lines
  device_then (fails errno) lines rest = (errno, [])
  device_then (call_fails call) lines rest = (eaddrinuse, call ∷ [])

  -- `succeeds` says whether a port can be bound, and a mark set.
  unfoldable pub api_set : (DeviceCall → Bool) → List (List ℕ) → Outcome
  api_set succeeds [] = (no_error, [])
  api_set succeeds (line ∷ lines) =
      device_then (device_command succeeds (pop line)) lines (api_set succeeds lines)
