-- ===== src/Noise/RateLimiter/Verdicts.antt =====
-- What `verify_packet` lets through.
use xelt_vpn.Prelude.{
  ℕ, ◌+◌, ◌-◌, ◌%◌, ◌^◌, ◌≡◌, Bool, true, false, ◌&&◌, ◌||◌, List, ◌++◌, Option, none, some, ltb,
  if◌then◌else◌, length, take, drop, bytes_eq, arith,
}
use xelt_vpn.Noise.Errors.{ok}
use xelt_vpn.Noise.Crypto.{Crypto}
use xelt_vpn.Noise.Packet.{Packet, parse_incoming_packet}
use xelt_vpn.Noise.Outcome.{IpAddr}
use xelt_vpn.Noise.RateLimiter.{
  RateLimiter, Verdict, pass, refuse, limited, verify_packet, check_macs, check_mac2, is_under_load,
  nonce, current_cookie, format_cookie_reply,
}

-- The parts of a message that the MACs are about.
abbrev pub body : List ℕ → List ℕ
body src = take (length src - 32) src

abbrev pub first_mac : List ℕ → List ℕ
first_mac src = take 16 (drop (length src - 32) src)

abbrev pub second_mac : List ℕ → List ℕ
second_mac src = drop 16 (drop (length src - 32) src)

module _ (crypto : Crypto) (r : RateLimiter) (now : ℕ) where
  -- The address is known and the second MAC was made with its cookie.
  abbrev pub proved : Option IpAddr → List ℕ → Bool
  proved none src = false
  proved (some addr) src =
      bytes_eq
        (crypto.blake2s_mac_16 (current_cookie crypto r now addr) (body src ++ first_mac src))
        (second_mac src)

  abbrev pub genuine : List ℕ → Bool
  genuine src = bytes_eq (crypto.blake2s_mac_16 r.mac1_key (body src)) (first_mac src)

  abbrev pub passes : Verdict → Bool
  passes (pass p) = true
  passes (refuse t) = false

  check_macs_lem :
      (addr : Option IpAddr) (src : List ℕ) (n idx : ℕ) (packet : Packet)
      → let (v, r') = check_macs crypto r now addr packet idx src n in
        (passes v ≡ (genuine src && (ltb r.count r.limit || proved addr src)))
        × (r'.count ≡ (if genuine src then (r.count + 1) % 2 ^ 64 else r.count))
  unfolding check_macs check_mac2 is_under_load format_cookie_reply nonce current_cookie
  check_macs_lem none src n idx packet = ground arith
  check_macs_lem (some a) src n idx packet = ground arith

  -- A handshake message passes exactly if its first MAC is genuine and either fewer than `limit` messages were
  -- counted since the last reset, or the sender has proved its address with a cookie; the count grows for
  -- genuine messages alone.
  pub verify_handshake :
      (addr : Option IpAddr) (src : List ℕ) (n idx : ℕ) (packet : Packet)
      → parse_incoming_packet src ≡ ok packet
      → limited packet ≡ some idx
      → let (v, r') = verify_packet crypto r now addr src n in
        (passes v ≡ (genuine src && (ltb r.count r.limit || proved addr src)))
        × (r'.count ≡ (if genuine src then (r.count + 1) % 2 ^ 64 else r.count))
  unfolding verify_packet
  verify_handshake addr src n idx packet e l = rw (e, l) (check_macs_lem addr src n idx packet)
