-- ===== src/Noise/RateLimiter/Tests.antt =====
-- A limiter and a message of zeros.
use xelt_vpn.Prelude.{
  ℕ, ◌+◌, ◌%◌, ◌^◌, ◌≡◌, refl, inl, true, ◌&&◌, ◌||◌, List, [], ◌∷◌, ◌++◌, none, ltb, if◌then◌else◌,
  replicate, arith,
}
use xelt_vpn.Noise.Errors.{ok}
use xelt_vpn.Noise.Crypto.Plain.{plain_crypto}
use xelt_vpn.Noise.Packet.{Packet, handshake_init, parse_incoming_packet, parse_typed, read_init}
use xelt_vpn.Noise.Handshake.{Handshake, new_handshake, new_params}
use xelt_vpn.Noise.Handshake.Initiate.{append_mac1_and_mac2}
use xelt_vpn.Noise.RateLimiter.{RateLimiter, verify_packet}
use xelt_vpn.Noise.RateLimiter.Verdicts.{passes, genuine, proved, verify_handshake}
use xelt_vpn.Noise.RateLimiter.Macs.{verify-append}

abbrev limiter : RateLimiter
limiter = record {
  nonce_key = [];
  secret_key = [];
  start_time = 0;
  nonce_ctr = 0;
  mac1_key = replicate 32 0;
  cookie_key = [];
  limit = 10;
  count = 3;
  last_reset = 0;
}

abbrev message : List ℕ
message = 1 ∷ 0 ∷ 0 ∷ 0 ∷ replicate 112 0

abbrev datagram : List ℕ
datagram = message ++ replicate 32 0

abbrev packet : Packet
packet = handshake_init (read_init datagram)

parse-datagram : parse_incoming_packet datagram ≡ ok packet
unfolding parse_incoming_packet parse_typed
parse-datagram = refl

verify_handshake_example :
    let (v, r') = verify_packet plain_crypto limiter 5 none datagram 64 in
    (passes plain_crypto limiter 5 v ≡ (
      genuine plain_crypto limiter 5 datagram
      && (ltb limiter.count limiter.limit || proved plain_crypto limiter 5 none datagram)))
    × (r'.count ≡ (
        if genuine plain_crypto limiter 5 datagram
        then (limiter.count + 1) % 2 ^ 64
        else limiter.count))
verify_handshake_example =
    verify_handshake plain_crypto limiter 5 none datagram 64 0 packet parse-datagram refl

abbrev peer : Handshake
peer =
    new_handshake plain_crypto (replicate 32 1) (replicate 32 9) (replicate 32 9) 256 none
      (record { duration_at_start = 0; instant_at_start = 0 })

peer_key : peer.params.sending_mac1_key ≡ limiter.mac1_key
unfolding new_handshake new_params
peer_key = refl

parse-appended :
    parse_incoming_packet (append_mac1_and_mac2 plain_crypto peer 1 message).0 ≡ ok packet
unfolding parse_incoming_packet parse_typed append_mac1_and_mac2 new_handshake
parse-appended = refl

verify-append_example :
    passes plain_crypto limiter 5
      (verify_packet plain_crypto limiter 5 none
        (append_mac1_and_mac2 plain_crypto peer 1 message).0
        64).0
    ≡ true
verify-append_example =
    verify-append plain_crypto limiter 5 peer 1 message none 64 0 packet peer_key parse-appended
      refl (inl (omega arith))
