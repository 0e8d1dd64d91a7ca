-- ===== src/Payment/Protocol/Submit.antt =====
-- `PaymentSubmit` of protocol/boringtun/src/payment/protocol.rs.
use xelt_vpn.Prelude.{
  ℕ, zero, suc, take, ◌+◌, ◌^◌, ◌<◌, ◌≡◌, ap, ◌∙◌, List, [], ◌∷◌, ◌++◌, Option, none, some,
  if◌then◌else◌, length, length-append, get_or, slice, drop, to_be, from_be, from_be-to_be, arith,
}
use xelt_vpn.Prelude.Fields.{join, start, Sized, length-join, slice-join}
use xelt_vpn.Payment.Protocol.Frame.{msg_payment_submit, bad_start, bad_length}

pub record PaymentSubmit : Type 0 where
  pub from : List ℕ
  pub to : List ℕ
  pub value : ℕ
  pub valid_after : ℕ
  pub valid_before : ℕ
  pub nonce : List ℕ
  pub v : ℕ
  pub r : List ℕ
  pub s : List ℕ

abbrev pub fields : PaymentSubmit → List (List ℕ)
fields m =
    m.from
    ∷ m.to
    ∷ to_be 8 m.value
    ∷ to_be 8 m.valid_after
    ∷ to_be 8 m.valid_before
    ∷ m.nonce
    ∷ (m.v ∷ [])
    ∷ m.r
    ∷ m.s
    ∷ []

unfoldable pub encode : PaymentSubmit → List ℕ
encode m =
    msg_payment_submit ∷ (to_be 2 (20 + 20 + 8 + 8 + 8 + 32 + 1 + 32 + 32) ++ join (fields m))

unfoldable pub read : List ℕ → PaymentSubmit
read p = record {
  from = slice 0 20 p;
  to = slice 20 40 p;
  value = from_be (slice 40 48 p);
  valid_after = from_be (slice 48 56 p);
  valid_before = from_be (slice 56 64 p);
  nonce = slice 64 96 p;
  v = get_or p 96 0;
  r = slice 97 129 p;
  s = slice 129 161 p;
}

unfoldable pub decode : List ℕ → Option PaymentSubmit
decode bytes =
    if bad_start msg_payment_submit bytes
    then none
    else if bad_length 161 bytes
    then none
    else some (read (drop 3 bytes))

-- The sizes of the Rust types.
pub record Fits (m : PaymentSubmit) : Type 0 where
  pub from_fits : length m.from ≡ 20
  pub to_fits : length m.to ≡ 20
  pub value_fits : m.value < 2 ^ 64
  pub after_fits : m.valid_after < 2 ^ 64
  pub before_fits : m.valid_before < 2 ^ 64
  pub nonce_fits : length m.nonce ≡ 32
  pub r_fits : length m.r ≡ 32
  pub s_fits : length m.s ≡ 32

abbrev sizes : List ℕ
sizes = 20 ∷ 20 ∷ 8 ∷ 8 ∷ 8 ∷ 32 ∷ 1 ∷ 32 ∷ 32 ∷ []

fields-Sized : {m : PaymentSubmit} → Fits m → Sized sizes (fields m)
fields-Sized f = omega arith

-- A byte of a message, as a slice of one.
get_or_of_slice : (i x : ℕ) (xs : List ℕ) → slice i (i + 1) xs ≡ x ∷ [] → get_or xs i 0 ≡ x
get_or_of_slice zero x [] e = ground (arith)
get_or_of_slice zero x (y ∷ ys) e = cc
get_or_of_slice (suc i) x [] e = ground arith
get_or_of_slice (suc i) x (y ∷ ys) e =
    get_or_of_slice i x ys (ap (λ n. take n (drop i ys)) (omega arith) ∙ e)

read-join : (m : PaymentSubmit) (rest : List ℕ) → Fits m → read (join (fields m) ++ rest) ≡ m
unfolding read
read-join m rest f = λ i. record {
  from = part 0 (omega arith) i;
  to = part 1 (omega arith) i;
  value =
      (ap from_be (part 2 (omega arith)) ∙ from_be-to_be 8 m.value (omega (arith, f.value_fits))) i;
  valid_after =
      (ap from_be (part 3 (omega arith))
          ∙ from_be-to_be 8 m.valid_after (omega (arith, f.after_fits)))
        i;
  valid_before =
      (ap from_be (part 4 (omega arith))
          ∙ from_be-to_be 8 m.valid_before (omega (arith, f.before_fits)))
        i;
  nonce = part 5 (omega arith) i;
  v = get_or_of_slice 96 m.v (join (fields m) ++ rest) (part 6 (omega arith)) i;
  r = part 7 (omega arith) i;
  s = part 8 (omega arith) i;
}
  where
    part :
        (k : ℕ)
        → k < 9
        → slice (start sizes k) (start sizes k + get_or sizes k 0) (join (fields m) ++ rest)
          ≡ get_or (fields m) k []
    part k h = slice-join k sizes (fields m) rest (fields-Sized f) h

-- What `encode` writes for a `PaymentSubmit` whose fields have the sizes of their types,
-- `decode` reads back, whatever bytes follow.
pub decode-encode_submit :
    (m : PaymentSubmit) (rest : List ℕ) → Fits m → decode (encode m ++ rest) ≡ some m
unfolding decode encode
decode-encode_submit m rest f = ground (
  arith,
  length-append (join (fields m)) rest,
  length-join sizes (fields m) (fields-Sized f),
  read-join m rest f,
)
