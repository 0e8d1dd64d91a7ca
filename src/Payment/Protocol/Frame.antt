-- ===== src/Payment/Protocol/Frame.antt =====
-- What the messages of protocol/boringtun/src/payment/protocol.rs share: types and the tests that
-- each `decode` begins with.
use xelt_vpn.Prelude.{ℕ, ◌+◌, Bool, not, ◌||◌, List, [], ◌∷◌, ltb, ◌==◌, length, get_or, from_be}

abbrev pub payment_port : ℕ
payment_port = 7078

abbrev pub msg_payment_required : ℕ
msg_payment_required = 0x01

abbrev pub msg_payment_accepted : ℕ
msg_payment_accepted = 0x02

abbrev pub msg_payment_submit : ℕ
msg_payment_submit = 0x81

-- `data.len() < 3 || data[0] != MSG`, then the declared length against the data and the least payload.
abbrev pub bad_start : ℕ → List ℕ → Bool
bad_start msg bytes = ltb (length bytes) 3 || not (get_or bytes 0 0 == msg)

abbrev pub declared : List ℕ → ℕ
declared bytes = from_be (get_or bytes 1 0 ∷ get_or bytes 2 0 ∷ [])

abbrev pub bad_length : ℕ → List ℕ → Bool
bad_length least bytes = ltb (length bytes) (3 + declared bytes) || ltb (declared bytes) least
