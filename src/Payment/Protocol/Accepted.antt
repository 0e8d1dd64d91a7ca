-- ===== src/Payment/Protocol/Accepted.antt =====
-- `PaymentAccepted` of protocol/boringtun/src/payment/protocol.rs.
use xelt_vpn.Prelude.{
  ℕ, ◌^◌, ◌<◌, ◌≡◌, List, ◌∷◌, ◌++◌, Option, none, some, if◌then◌else◌, slice, to_be, from_be,
  from_be-to_be, arith,
}
use xelt_vpn.Payment.Protocol.Frame.{msg_payment_accepted, bad_start, bad_length}

pub record PaymentAccepted : Type 0 where
  pub new_quota_bytes : ℕ

unfoldable pub encode : PaymentAccepted → List ℕ
encode m = msg_payment_accepted ∷ (to_be 2 8 ++ to_be 8 m.new_quota_bytes)

unfoldable pub read : List ℕ → PaymentAccepted
read bytes = record { new_quota_bytes = from_be (slice 3 11 bytes) }

unfoldable pub decode : List ℕ → Option PaymentAccepted
decode bytes =
    if bad_start msg_payment_accepted bytes
    then none
    else if bad_length 8 bytes
    then none
    else some (read bytes)

-- What `encode` writes for a `PaymentAccepted` of a 64-bit quota,
-- `decode` reads back, whatever bytes follow.
decode-encode_accepted :
    (m : PaymentAccepted) (rest : List ℕ)
    → m.new_quota_bytes < 2 ^ 64
    → decode (encode m ++ rest) ≡ some m
unfolding decode encode read
decode-encode_accepted m rest h = ground (arith, from_be-to_be 8 m.new_quota_bytes (omega arith))
