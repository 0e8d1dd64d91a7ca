-- ===== src/Noise/Tunn/Address.antt =====
-- The IP headers that protocol/boringtun/src/noise/mod.rs reads: `dst_address`, and the length and
-- source that `validate_decapsulated_packet` takes.
use xelt_vpn.Prelude.{
  ℕ, ◌+◌, ◌/◌, Bool, ◌&&◌, List, [], ◌∷◌, Option, none, some, leb, ◌==◌, if◌then◌else◌, length,
  slice, from_be,
}
use xelt_vpn.Noise.Outcome.{IpAddr, v4, v6}

abbrev pub ipv4_min_header_size : ℕ
ipv4_min_header_size = 20

abbrev pub ipv6_min_header_size : ℕ
ipv6_min_header_size = 40

-- `packet[0] >> 4` of a packet that has a byte.
abbrev pub is_v4 : ℕ → List ℕ → Bool
is_v4 first packet = first / 16 == 4 && leb ipv4_min_header_size (length packet)

abbrev pub is_v6 : ℕ → List ℕ → Bool
is_v6 first packet = first / 16 == 6 && leb ipv6_min_header_size (length packet)

unfoldable pub dst_address : List ℕ → Option IpAddr
dst_address [] = none
dst_address (first ∷ rest) =
    let packet = first ∷ rest in
    if is_v4 first packet
    then some (v4 (slice 16 20 packet))
    else if is_v6 first packet
    then some (v6 (slice 24 40 packet))
    else none

-- The length that the header gives, and the source address.
unfoldable pub length_and_source : ℕ → List ℕ → Option (ℕ × IpAddr)
length_and_source first packet =
    if is_v4 first packet
    then some (from_be (slice 2 4 packet), v4 (slice 12 16 packet))
    else if is_v6 first packet
    then some (from_be (slice 4 6 packet) + ipv6_min_header_size, v6 (slice 8 24 packet))
    else none
