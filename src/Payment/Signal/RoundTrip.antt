-- ===== src/Payment/Signal/RoundTrip.antt =====
-- A packet that `build_signal_packet` makes is recognised, and gives its payload and addresses back.
use xelt_vpn.Prelude.{
  ℕ, ◌+◌, ◌-◌, ◌*◌, ◌/◌, ◌%◌, ◌≤◌, ◌≡◌, ap, ◌∙◌, ◌||◌, List, [], ◌∷◌, ◌++◌, Option, none, some,
  length, take, take-all, bytes_eq, arith,
}
use xelt_vpn.Payment.Signal.{
  build_signal_packet, ip_checksum, ip_header, udp_header, is_payment_signal,
  extract_signal_payload, src_ipv4, dst_ipv4, payment_gateway_ip,
}
use xelt_vpn.Payment.Signal.Checksum.{IsIpv4}

-- The packet, its checksum bytes as given.
abbrev made : ℕ → ℕ → List ℕ → List ℕ → List ℕ → List ℕ
made hi lo src dst payload =
    ip_header (20 + (8 + length payload)) (hi ∷ lo ∷ []) src dst
    ++ (udp_header (8 + length payload) ++ payload)

build-made :
    (src dst payload : List ℕ)
    → 28 + length payload ≤ 65535
    → (hi : ℕ) × (lo : ℕ) × (build_signal_packet src dst payload
        ≡ some (made hi lo src dst payload))
unfolding build_signal_packet
build-made src dst payload h =
    let ck = ip_checksum (ip_header (20 + (8 + length payload)) (0 ∷ 0 ∷ []) src dst) in
    (ck / 256 % 256, ck % 256, ground arith)

module _ (src dst payload : List ℕ) (p : IsIpv4 src) (q : IsIpv4 dst) (hi lo : ℕ)
    (small : 28 + length payload ≤ 65535) where
  extract-made : extract_signal_payload (made hi lo src dst payload) ≡ some payload
  unfolding extract_signal_payload
  extract-made =
      let n : (8 + length payload) % 256 + 256 * ((8 + length payload) / 256 % 256 + 0)
          ≡ 8 + length payload =
        omega arith in
      let t : take (20 + (8 + length payload) - 28) payload ≡ payload =
        ap (λ k. take k payload) (omega arith) ∙ take-all payload in
      rw (p.octets, q.octets, n, t) (ground arith)

  src-made : src_ipv4 (made hi lo src dst payload) ≡ some src
  unfolding src_ipv4
  src-made = rw (p.octets, q.octets) (ground arith)

  dst-made : dst_ipv4 (made hi lo src dst payload) ≡ some dst
  unfolding dst_ipv4
  dst-made = rw (p.octets, q.octets) (ground arith)

  signal-made :
      is_payment_signal (made hi lo src dst payload)
      ≡ (bytes_eq src payment_gateway_ip || bytes_eq dst payment_gateway_ip)
  unfolding is_payment_signal
  signal-made = rw (p.octets, q.octets) (ground arith)

-- What a packet of `build_signal_packet` gives back.
abbrev pub ReadsBack : List ℕ → List ℕ → List ℕ → Option (List ℕ) → Type 0
ReadsBack src dst payload none = ⊥
ReadsBack src dst payload (some packet) =
    (extract_signal_payload packet ≡ some payload)
    × (src_ipv4 packet ≡ some src)
    × (dst_ipv4 packet ≡ some dst)
    × (is_payment_signal packet
        ≡ (bytes_eq src payment_gateway_ip || bytes_eq dst payment_gateway_ip))

-- For a payload of at most 65507 bytes `build_signal_packet` makes a packet from which the payload
-- and both addresses are read back, and which is taken for a payment signal exactly if one of the
-- addresses is the gateway's.
pub build-ReadsBack :
    (src dst payload : List ℕ)
    → IsIpv4 src
    → IsIpv4 dst
    → 28 + length payload ≤ 65535
    → ReadsBack src dst payload (build_signal_packet src dst payload)
build-ReadsBack src dst payload p q h =
    let (hi, lo, e) = build-made src dst payload h in
    rw e (
      extract-made src dst payload p q hi lo h,
      src-made src dst payload p q hi lo h,
      dst-made src dst payload p q hi lo h,
      signal-made src dst payload p q hi lo h,
    )
