-- ===== src/Noise/Outcome.antt =====
-- `TunnResult` of protocol/boringtun/src/noise/mod.rs, and addresses as their octets. A slice is the
-- list of its bytes; a call may also panic.
use xelt_vpn.Prelude.{ℕ, List}
use xelt_vpn.Noise.Errors.{Result, ok, err, panic, WireGuardError}

pub data IpAddr : Type 0 where
  v4 : List ℕ → IpAddr
  v6 : List ℕ → IpAddr

pub data TunnResult : Type 0 where
  done : TunnResult
  error : WireGuardError → TunnResult
  write_to_network : List ℕ → TunnResult
  write_to_tunnel_v4 : List ℕ → List ℕ → TunnResult
  write_to_tunnel_v6 : List ℕ → List ℕ → TunnResult
  panicked : TunnResult

-- `unwrap_or_else(TunnResult::from)`.
abbrev pub unwrap_or_from : Result TunnResult → TunnResult
unwrap_or_from (ok r) = r
unwrap_or_from (err e) = error e
unwrap_or_from panic = panicked

-- The result of a call that formats a packet to send.
abbrev pub to_network : Result (List ℕ) → TunnResult
to_network (ok bytes) = write_to_network bytes
to_network (err e) = error e
to_network panic = panicked
