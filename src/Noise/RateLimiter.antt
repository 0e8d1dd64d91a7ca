-- ===== src/Noise/RateLimiter.antt =====
-- `RateLimiter` of protocol/boringtun/src/noise/rate_limiter.rs. The atomic counters are state that a
-- method passes on; the random keys are arguments of `new`. Time is nanoseconds.
pub mod Verdicts
pub mod Macs
mod Tests
use xelt_vpn.Prelude.{
  ℕ, ◌+◌, ◌-◌, ◌*◌, ◌/◌, ◌%◌, ◌^◌, Bool, true, false, not, List, [], ◌∷◌, ◌++◌, Option, none, some,
  ltb, leb, if◌then◌else◌, length, take, drop, slice, replicate, to_le, bytes_eq,
}
use xelt_vpn.Prelude.Fields.{join}
use xelt_vpn.Noise.Errors.{
  Result, ok, err, panic, WireGuardError, destination_buffer_too_small, invalid_mac, under_load,
}
use xelt_vpn.Noise.Crypto.{Crypto, b2s_hash, b2s_keyed_mac_16, b2s_keyed_mac_16_2, b2s_mac_24}
use xelt_vpn.Noise.Packet.{
  Packet, handshake_init, handshake_response, packet_cookie_reply, packet_data, cookie_reply_type,
  cookie_reply_sz, parse_incoming_packet,
}
use xelt_vpn.Noise.Outcome.{IpAddr, v4, v6, TunnResult, error, write_to_network, panicked}
use xelt_vpn.Noise.Handshake.{label_mac1, label_cookie}
use xelt_vpn.Noise.Handshake.Timestamp.{nanos_per_sec}

abbrev pub cookie_refresh : ℕ
cookie_refresh = 128

abbrev pub reset_period : ℕ
reset_period = 1

pub record RateLimiter : Type 0 where
  pub nonce_key : List ℕ
  pub secret_key : List ℕ
  pub start_time : ℕ
  pub nonce_ctr : ℕ
  pub mac1_key : List ℕ
  pub cookie_key : List ℕ
  pub limit : ℕ
  pub count : ℕ
  pub last_reset : ℕ

-- `Result<Packet, TunnResult>`.
pub data Verdict : Type 0 where
  pass : Packet → Verdict
  refuse : TunnResult → Verdict

-- `duration_since(..).as_secs()`; an earlier time gives 0.
abbrev pub secs_since : ℕ → ℕ → ℕ
secs_since now earlier = (now - earlier) / nanos_per_sec

unfoldable pub reset_count : RateLimiter → ℕ → RateLimiter
reset_count r now =
    if leb reset_period (secs_since now r.last_reset)
    then record r { count = 0; last_reset = now }
    else r

-- The counter wraps at 64 bits, as `fetch_add` does.
unfoldable pub is_under_load : RateLimiter → Bool × RateLimiter
is_under_load r = (leb r.limit r.count, record r { count = (r.count + 1) % 2 ^ 64 })

-- The address in 16 bytes, an IPv4 one with zeros behind it.
abbrev pub addr_bytes : IpAddr → List ℕ
addr_bytes (v4 octets) = octets ++ replicate 12 0
addr_bytes (v6 octets) = octets

-- The sender's index of a handshake message, the only kind that is limited.
abbrev pub limited : Packet → Option ℕ
limited (handshake_init p) = some p.sender_idx
limited (handshake_response p) = some p.sender_idx
limited (packet_cookie_reply p) = none
limited (packet_data p) = none

module _ (crypto : Crypto) where
  unfoldable pub new_limiter : List ℕ → List ℕ → List ℕ → ℕ → ℕ → RateLimiter
  new_limiter nonce_key secret_key public_key limit now = record {
    nonce_key = nonce_key;
    secret_key = secret_key;
    start_time = now;
    nonce_ctr = 0;
    mac1_key = b2s_hash crypto label_mac1 public_key;
    cookie_key = b2s_hash crypto label_cookie public_key;
    limit = limit;
    count = 0;
    last_reset = now;
  }

  unfoldable pub current_cookie : RateLimiter → ℕ → IpAddr → List ℕ
  current_cookie r now addr =
      let cur_counter = secs_since now r.start_time / cookie_refresh in
      b2s_keyed_mac_16_2 crypto r.secret_key (to_le 8 cur_counter) (addr_bytes addr)

  unfoldable pub nonce : RateLimiter → List ℕ × RateLimiter
  nonce r = (
    b2s_mac_24 crypto r.nonce_key (to_le 8 r.nonce_ctr),
    record r { nonce_ctr = (r.nonce_ctr + 1) % 2 ^ 64 },
  )

  abbrev pub reply_fields : ℕ → List ℕ → List ℕ → List ℕ → List (List ℕ)
  reply_fields idx n cipher tag = to_le 4 cookie_reply_type ∷ to_le 4 idx ∷ n ∷ cipher ∷ tag ∷ []

  abbrev pub cookie_message : ℕ → List ℕ → Option (List ℕ × List ℕ) → Result (List ℕ)
  cookie_message idx n none = err destination_buffer_too_small
  cookie_message idx n (some (cipher, tag)) = ok (join (reply_fields idx n cipher tag))

  unfoldable pub format_cookie_reply :
      RateLimiter → ℕ → List ℕ → List ℕ → ℕ → Result (List ℕ) × RateLimiter
  unfolding nonce
  format_cookie_reply r idx cookie mac1 dst_len =
      if ltb dst_len cookie_reply_sz
      then (err destination_buffer_too_small, r)
      else let (n, r₁) = nonce r in
        (cookie_message idx n (crypto.xseal r.cookie_key n mac1 cookie), r₁)

  abbrev pub reply_or_error : Result (List ℕ) → TunnResult
  reply_or_error (ok bytes) = write_to_network bytes
  reply_or_error (err e) = error e
  reply_or_error panic = panicked

  -- Under load: the sender proves its address by `mac2`, or gets a cookie.
  unfoldable pub check_mac2 :
      RateLimiter
      → ℕ
      → Option IpAddr
      → Packet
      → ℕ
      → List ℕ
      → List ℕ
      → List ℕ
      → ℕ
      → Verdict × RateLimiter
  check_mac2 r now none packet idx msg mac1 mac2 dst_len = (refuse (error under_load), r)
  check_mac2 r now (some addr) packet idx msg mac1 mac2 dst_len =
      let cookie = current_cookie r now addr in
      if bytes_eq (b2s_keyed_mac_16_2 crypto cookie msg mac1) mac2
      then (pass packet, r)
      else let (reply, r₁) = format_cookie_reply r idx cookie mac1 dst_len in
        (refuse (reply_or_error reply), r₁)

  unfoldable pub check_macs :
      RateLimiter → ℕ → Option IpAddr → Packet → ℕ → List ℕ → ℕ → Verdict × RateLimiter
  unfolding check_mac2
  check_macs r now src_addr packet idx src dst_len =
      let msg = take (length src - 32) src in
      let macs = drop (length src - 32) src in
      let mac1 = take 16 macs in
      let mac2 = drop 16 macs in
      if not (bytes_eq (b2s_keyed_mac_16 crypto r.mac1_key msg) mac1)
      then (refuse (error invalid_mac), r)
      else let (loaded, r₁) = is_under_load r in
        if loaded
        then check_mac2 r₁ now src_addr packet idx msg mac1 mac2 dst_len
        else (pass packet, r₁)

  abbrev pub check_limited :
      RateLimiter → ℕ → Option IpAddr → Packet → List ℕ → ℕ → Option ℕ → Verdict × RateLimiter
  check_limited r now src_addr packet src dst_len none = (pass packet, r)
  check_limited r now src_addr packet src dst_len (some idx) =
      check_macs r now src_addr packet idx src dst_len

  abbrev pub verify_parsed :
      RateLimiter → ℕ → Option IpAddr → List ℕ → ℕ → Result Packet → Verdict × RateLimiter
  verify_parsed r now src_addr src dst_len (ok packet) =
      check_limited r now src_addr packet src dst_len (limited packet)
  verify_parsed r now src_addr src dst_len (err e) = (refuse (error e), r)
  verify_parsed r now src_addr src dst_len panic = (refuse panicked, r)

  unfoldable pub verify_packet :
      RateLimiter → ℕ → Option IpAddr → List ℕ → ℕ → Verdict × RateLimiter
  unfolding check_macs
  verify_packet r now src_addr src dst_len =
      verify_parsed r now src_addr src dst_len (parse_incoming_packet src)
