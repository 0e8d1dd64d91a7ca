-- ===== src/Payment/Signal.antt =====
-- The IPv4/UDP packets that carry the payment messages: the second half of
-- protocol/boringtun/src/payment/protocol.rs. An IPv4 address is its four octets.
pub mod Checksum
pub mod RoundTrip
mod Tests
use xelt_vpn.Prelude.{
  ℕ, suc, zero, ◌+◌, ◌-◌, ◌*◌, ◌/◌, ◌%◌, ◌^◌, Bool, true, false, not, ◌&&◌, ◌||◌, List, [], ◌∷◌,
  ◌++◌, Option, none, some, ltb, leb, ◌==◌, if◌then◌else◌, length, get_or, slice, to_be, from_be,
  bytes_eq,
}
use xelt_vpn.Payment.Protocol.Frame.{payment_port}

abbrev pub payment_gateway_ip : List ℕ
payment_gateway_ip = 169 ∷ 254 ∷ 254 ∷ 1 ∷ []

-- The loop over the header's 16-bit words, on `u32`; a last odd byte is the high half of a word.
unfoldable pub sum_words : ℕ → List ℕ → ℕ
sum_words sum [] = sum
sum_words sum (a ∷ []) = (sum + (a * 256 + 0)) % 2 ^ 32
sum_words sum (a ∷ b ∷ rest) = sum_words ((sum + (a * 256 + b)) % 2 ^ 32) rest

-- `while sum >> 16 != 0`, on fuel.
unfoldable pub fold_carries : ℕ → ℕ → ℕ
fold_carries zero sum = sum
fold_carries (suc fuel) sum =
    let rest = fold_carries fuel ((sum % 2 ^ 16 + sum / 2 ^ 16) % 2 ^ 32) in
    if not (sum / 2 ^ 16 == 0) then rest else sum

-- `!(sum as u16)`; three rounds fold any `u32`.
unfoldable pub ip_checksum : List ℕ → ℕ
ip_checksum header = 2 ^ 16 - 1 - fold_carries 3 (sum_words 0 header) % 2 ^ 16

-- The 20 header bytes of a packet of `total_len` bytes, with the two checksum bytes given.
abbrev pub ip_header : ℕ → List ℕ → List ℕ → List ℕ → List ℕ
ip_header total_len cksum src_ip dst_ip =
    0x45 ∷ 0 ∷ (to_be 2 total_len ++ (0 ∷ 0 ∷ 0x40 ∷ 0 ∷ 64 ∷ 17 ∷ (cksum ++ (src_ip ++ dst_ip))))

-- Ports, length, and a checksum of zero.
abbrev pub udp_header : ℕ → List ℕ
udp_header udp_len =
    to_be 2 payment_port ++ (to_be 2 payment_port ++ (to_be 2 udp_len ++ (0 ∷ 0 ∷ [])))

-- `none` is the failed assertion on the packet's size.
unfoldable pub build_signal_packet : List ℕ → List ℕ → List ℕ → Option (List ℕ)
build_signal_packet src_ip dst_ip payload =
    let udp_len = 8 + length payload in
    let total_len = 20 + udp_len in
    let cksum = to_be 2 (ip_checksum (ip_header total_len (0 ∷ 0 ∷ []) src_ip dst_ip)) in
    if not (leb total_len 65535)
    then none
    else some (ip_header total_len cksum src_ip dst_ip ++ (udp_header udp_len ++ payload))

abbrev pub src_octets : List ℕ → List ℕ
src_octets packet = slice 12 16 packet

abbrev pub dst_octets : List ℕ → List ℕ
dst_octets packet = slice 16 20 packet

unfoldable pub is_payment_signal : List ℕ → Bool
is_payment_signal packet =
    if ltb (length packet) 20 || not (get_or packet 0 0 / 2 ^ 4 == 4)
    then false
    else bytes_eq (src_octets packet) payment_gateway_ip
      || bytes_eq (dst_octets packet) payment_gateway_ip

-- The UDP length field of a packet whose IP header has `ihl` bytes.
abbrev pub udp_len_at : ℕ → List ℕ → ℕ
udp_len_at ihl packet = from_be (get_or packet (ihl + 4) 0 ∷ get_or packet (ihl + 5) 0 ∷ [])

unfoldable pub extract_signal_payload : List ℕ → Option (List ℕ)
extract_signal_payload packet =
    let ihl = get_or packet 0 0 % 2 ^ 4 * 4 in
    let udp_len = udp_len_at ihl packet in
    if ltb (length packet) 20
    then none
    else if not (get_or packet 9 0 == 17)
    then none
    else if ltb (length packet) (ihl + 8)
    then none
    else if ltb udp_len 8 || ltb (length packet) (ihl + udp_len)
    then none
    else some (slice (ihl + 8) (ihl + udp_len) packet)

unfoldable pub src_ipv4 : List ℕ → Option (List ℕ)
src_ipv4 packet = if ltb (length packet) 20 then none else some (src_octets packet)

unfoldable pub dst_ipv4 : List ℕ → Option (List ℕ)
dst_ipv4 packet = if ltb (length packet) 20 then none else some (dst_octets packet)
