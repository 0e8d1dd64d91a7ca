-- ===== src/Payment/Protocol/Required.antt =====
-- `PaymentRequired` of protocol/boringtun/src/payment/protocol.rs.
use xelt_vpn.Prelude.{
  ℕ, ◌+◌, ◌^◌, ◌<◌, ◌≡◌, ap, ◌∙◌, List, [], ◌∷◌, ◌++◌, Option, none, some, if◌then◌else◌, length,
  length-append, get_or, slice, drop, to_be, from_be, from_be-to_be, arith,
}
use xelt_vpn.Prelude.Fields.{join, start, Sized, length-join, slice-join}
use xelt_vpn.Payment.Protocol.Frame.{msg_payment_required, bad_start, bad_length}

pub record PaymentRequired : Type 0 where
  pub amount_usdc : ℕ
  pub nonce : List ℕ
  pub recipient : List ℕ
  pub deadline : ℕ
  pub chain_id : ℕ
  pub usdc_contract : List ℕ

abbrev pub fields : PaymentRequired → List (List ℕ)
fields m =
    to_be 8 m.amount_usdc
    ∷ m.nonce
    ∷ m.recipient
    ∷ to_be 8 m.deadline
    ∷ to_be 8 m.chain_id
    ∷ m.usdc_contract
    ∷ []

unfoldable pub encode : PaymentRequired → List ℕ
encode m = msg_payment_required ∷ (to_be 2 (8 + 32 + 20 + 8 + 8 + 20) ++ join (fields m))

unfoldable pub read : List ℕ → PaymentRequired
read p = record {
  amount_usdc = from_be (slice 0 8 p);
  nonce = slice 8 40 p;
  recipient = slice 40 60 p;
  deadline = from_be (slice 60 68 p);
  chain_id = from_be (slice 68 76 p);
  usdc_contract = slice 76 96 p;
}

unfoldable pub decode : List ℕ → Option PaymentRequired
decode bytes =
    if bad_start msg_payment_required bytes
    then none
    else if bad_length 96 bytes
    then none
    else some (read (drop 3 bytes))

-- The sizes of the Rust types.
pub record Fits (m : PaymentRequired) : Type 0 where
  pub amount_fits : m.amount_usdc < 2 ^ 64
  pub nonce_fits : length m.nonce ≡ 32
  pub recipient_fits : length m.recipient ≡ 20
  pub deadline_fits : m.deadline < 2 ^ 64
  pub chain_fits : m.chain_id < 2 ^ 64
  pub contract_fits : length m.usdc_contract ≡ 20

abbrev sizes : List ℕ
sizes = 8 ∷ 32 ∷ 20 ∷ 8 ∷ 8 ∷ 20 ∷ []

fields-Sized : {m : PaymentRequired} → Fits m → Sized sizes (fields m)
fields-Sized f = omega arith

read-join : (m : PaymentRequired) (rest : List ℕ) → Fits m → read (join (fields m) ++ rest) ≡ m
unfolding read
read-join m rest f = λ i. record {
  amount_usdc =
      (ap from_be (part 0 (omega arith))
          ∙ from_be-to_be 8 m.amount_usdc (omega (arith, f.amount_fits)))
        i;
  nonce = part 1 (omega arith) i;
  recipient = part 2 (omega arith) i;
  deadline =
      (ap from_be (part 3 (omega arith))
          ∙ from_be-to_be 8 m.deadline (omega (arith, f.deadline_fits)))
        i;
  chain_id =
      (ap from_be (part 4 (omega arith)) ∙ from_be-to_be 8 m.chain_id (omega (arith, f.chain_fits)))
        i;
  usdc_contract = part 5 (omega arith) i;
}
  where
    part :
        (k : ℕ)
        → k < 6
        → slice (start sizes k) (start sizes k + get_or sizes k 0) (join (fields m) ++ rest)
          ≡ get_or (fields m) k []
    part k h = slice-join k sizes (fields m) rest (fields-Sized f) h

-- What `encode` writes for a `PaymentRequired` whose fields have the sizes of their types,
-- `decode` reads back, whatever bytes follow.
pub decode-encode_required :
    (m : PaymentRequired) (rest : List ℕ) → Fits m → decode (encode m ++ rest) ≡ some m
unfolding decode encode
decode-encode_required m rest f = ground (
  arith,
  length-append (join (fields m)) rest,
  length-join sizes (fields m) (fields-Sized f),
  read-join m rest f,
)
