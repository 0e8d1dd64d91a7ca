-- ===== src/Payment/Signal/Tests.antt =====
-- The packet of a payment signal at concrete addresses.
use xelt_vpn.Prelude.{ℕ, ◌≡◌, refl, List, [], ◌∷◌, to_be, arith}
use xelt_vpn.Payment.Signal.{build_signal_packet, ip_checksum, ip_header, payment_gateway_ip}
use xelt_vpn.Payment.Signal.Checksum.{IsIpv4, ip_checksum_valid}
use xelt_vpn.Payment.Signal.RoundTrip.{ReadsBack, build-ReadsBack}

abbrev client : List ℕ
client = 10 ∷ 0 ∷ 0 ∷ 2 ∷ []

client-IsIpv4 : IsIpv4 client
client-IsIpv4 = record {
  octet₀ = 10;
  octet₁ = 0;
  octet₂ = 0;
  octet₃ = 2;
  octets = refl;
  small₀ = omega arith;
  small₁ = omega arith;
  small₂ = omega arith;
  small₃ = omega arith;
}

gateway-IsIpv4 : IsIpv4 payment_gateway_ip
gateway-IsIpv4 = record {
  octet₀ = 169;
  octet₁ = 254;
  octet₂ = 254;
  octet₃ = 1;
  octets = refl;
  small₀ = omega arith;
  small₁ = omega arith;
  small₂ = omega arith;
  small₃ = omega arith;
}

ip_checksum_valid_example :
    ip_checksum (
      ip_header 31
        (to_be 2 (ip_checksum (ip_header 31 (0 ∷ 0 ∷ []) payment_gateway_ip client)))
        payment_gateway_ip
        client)
    ≡ 0
ip_checksum_valid_example =
    ip_checksum_valid 31 payment_gateway_ip client gateway-IsIpv4 client-IsIpv4

build-ReadsBack_example :
    ReadsBack payment_gateway_ip client
      (2 ∷ 0 ∷ 3 ∷ [])
      (build_signal_packet payment_gateway_ip client (2 ∷ 0 ∷ 3 ∷ []))
build-ReadsBack_example =
    build-ReadsBack payment_gateway_ip client (2 ∷ 0 ∷ 3 ∷ []) gateway-IsIpv4 client-IsIpv4
      (omega arith)
