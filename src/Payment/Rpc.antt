-- ===== src/Payment/Rpc.antt =====
-- protocol/boringtun/src/payment/rpc.rs: the calls of a node of the chain. What `call` gets from the node,
-- through HTTP and JSON, is an argument, which sees all requests before; the texts of errors are left out.
-- The standard library's parser of hexadecimal numbers is written out.
use xelt_vpn.Prelude.{
  ℕ, suc, zero, ◌+◌, ◌-◌, ◌*◌, ◌^◌, Bool, ◌&&◌, List, [], ◌∷◌, Option, none, some, ltb, leb, ◌==◌,
  if◌then◌else◌, length, drop, from_be, bytes_eq, codes,
}

-- A result of a request: `other` is any JSON that the code does not look into.
pub data Value : Type 0 where
  text : List ℕ → Value
  null : Value
  receipt : Option (List ℕ) → Value
  other : Value

pub data RpcCall : Type 0 where
  eth_call : List ℕ → List ℕ → RpcCall
  eth_get_transaction_count : List ℕ → RpcCall
  eth_gas_price : RpcCall
  eth_max_priority_fee_per_gas : RpcCall
  eth_estimate_gas : List ℕ → List ℕ → List ℕ → RpcCall
  eth_send_raw_transaction : List ℕ → RpcCall
  eth_get_transaction_receipt : List ℕ → RpcCall

abbrev pub as_str : Value → Option (List ℕ)
as_str (text s) = some s
as_str null = none
as_str (receipt status) = none
as_str other = none

abbrev pub status_of : Value → Option (List ℕ)
status_of (text s) = none
status_of null = none
status_of (receipt status) = status
status_of other = none

-- `unwrap_or`, and `ok_or`'s value.
abbrev pub value_or : {A : Type 0} → Option A → A → A
value_or none d = d
value_or (some a) d = a

-- A result or an error, with all requests up to then, the last first.
abbrev pub Rpc : Type 0 → Type 0
Rpc A = List RpcCall → Option A × List RpcCall

abbrev pub give : {A : Type 0} → Option A → Rpc A
give o w = (o, w)

abbrev pub continue :
    {A B : Type 0} → (A → Rpc B) → Option A × List RpcCall → Option B × List RpcCall
continue f (none, w) = (none, w)
continue f (some a, w) = f a w

abbrev pub and_then : {A B : Type 0} → Rpc A → (A → Rpc B) → Rpc B
and_then m f w = continue f (m w)

abbrev pub or_value : {A : Type 0} → Rpc A → A → Rpc A
or_value m d w = let (o, w') = m w in (some (value_or o d), w')

-- `strip_prefix("0x")`, or the text itself.
unfoldable pub strip_0x : List ℕ → List ℕ
strip_0x [] = []
strip_0x (a ∷ []) = a ∷ []
strip_0x (a ∷ b ∷ s) = if (a == b'0') && (b == b'x') then s else a ∷ b ∷ s

abbrev pub hex_digit : ℕ → Option ℕ
hex_digit c =
    if leb b'0' c && leb c b'9'
    then some (c - b'0')
    else if leb b'a' c && leb c b'f'
    then some (c - b'a' + 10)
    else if leb b'A' c && leb c b'F'
    then some (c - b'A' + 10)
    else none

abbrev pub push_digit : ℕ → ℕ → Option ℕ → Option ℕ
push_digit bound acc none = none
push_digit bound acc (some d) = if ltb (acc * 16 + d) bound then some (acc * 16 + d) else none

abbrev pub fold_digit : (ℕ → Option ℕ) → Option ℕ → Option ℕ
fold_digit next none = none
fold_digit next (some acc) = next acc

unfoldable pub hex_digits : ℕ → Option ℕ → List ℕ → Option ℕ
hex_digits bound acc [] = acc
hex_digits bound acc (c ∷ cs) =
    hex_digits bound (fold_digit (λ a. push_digit bound a (hex_digit c)) acc) cs

-- `from_str_radix(s, 16)`, which takes a plus sign in front of a digit.
abbrev pub from_hex : ℕ → List ℕ → Option ℕ
from_hex bound [] = none
from_hex bound (c ∷ []) = if c == b'+' then none else hex_digits bound (some 0) (c ∷ [])
from_hex bound (c ∷ d ∷ cs) =
    if c == b'+' then hex_digits bound (some 0) (d ∷ cs) else hex_digits bound (some 0) (c ∷ d ∷ cs)

abbrev pub parse_stripped : ℕ → List ℕ → Option ℕ
parse_stripped bound [] = some 0
parse_stripped bound (c ∷ cs) = from_hex bound (c ∷ cs)

unfoldable pub parse_hex : ℕ → List ℕ → Option ℕ
parse_hex bound s = parse_stripped bound (strip_0x s)

abbrev pub parse_hex_u64 : List ℕ → Option ℕ
parse_hex_u64 s = parse_hex (2 ^ 64) s

abbrev pub parse_hex_u128 : List ℕ → Option ℕ
parse_hex_u128 s = parse_hex (2 ^ 128) s

-- The last 16 bytes as a number; a text shorter than a word is 0.
unfoldable pub parse_u256_result : List ℕ → ℕ
parse_u256_result bytes =
    if ltb (length bytes) 32 then 0 else from_be (drop (length bytes - 16) bytes)

module _ (hex_decode : List ℕ → Option (List ℕ)) where
  abbrev pub decode_stripped : List ℕ → Option (List ℕ)
  decode_stripped [] = some []
  decode_stripped (c ∷ cs) = hex_decode (c ∷ cs)

  abbrev pub decode_answer : Option (List ℕ) → Option (List ℕ)
  decode_answer none = none
  decode_answer (some s) = decode_stripped (strip_0x s)

module _ (answer : List RpcCall → RpcCall → Option Value) where
  abbrev pub call : RpcCall → Rpc Value
  call r w = (answer w r, r ∷ w)

  abbrev pub read_bytes : (List ℕ → Option (List ℕ)) → List ℕ → List ℕ → Rpc (List ℕ)
  read_bytes hex_decode to input =
      and_then (call (eth_call to input)) (λ v. give (decode_answer hex_decode (as_str v)))

  abbrev pub get_nonce : List ℕ → Rpc ℕ
  get_nonce addr =
      and_then (call (eth_get_transaction_count addr))
        (λ v. give (parse_hex_u64 (value_or (as_str v) (codes "0x0"))))

  abbrev pub gas_price : Rpc ℕ
  gas_price =
      and_then (call eth_gas_price) (λ v. give (parse_hex_u128 (value_or (as_str v) (codes "0x0"))))

  abbrev pub max_priority_fee : Rpc ℕ
  max_priority_fee =
      and_then (call eth_max_priority_fee_per_gas)
        (λ v. give (parse_hex_u128 (value_or (as_str v) (codes "0x0"))))

  abbrev pub estimate_gas : List ℕ → List ℕ → List ℕ → Rpc ℕ
  estimate_gas from to input =
      and_then (call (eth_estimate_gas from to input))
        (λ v. give (parse_hex_u64 (value_or (as_str v) (codes "0x0"))))

  abbrev pub send_raw_tx : List ℕ → Rpc (List ℕ)
  send_raw_tx raw_tx = and_then (call (eth_send_raw_transaction raw_tx)) (λ v. give (as_str v))

  abbrev pub mined : Value → Option Value
  mined (text s) = some (text s)
  mined null = none
  mined (receipt status) = some (receipt status)
  mined other = some other

  abbrev pub get_receipt : List ℕ → Rpc (Option Value)
  get_receipt tx_hash =
      and_then (call (eth_get_transaction_receipt tx_hash)) (λ v. give (some (mined v)))

  abbrev pub status_or : Rpc Bool → Option Value → Rpc Bool
  status_or rest none = rest
  status_or rest (some r) =
      give (some (bytes_eq (value_or (status_of r) (codes "0x0")) (codes "0x1")))

  unfoldable pub wait_for_receipt : List ℕ → ℕ → Rpc Bool
  wait_for_receipt tx_hash zero = give none
  wait_for_receipt tx_hash (suc attempts) =
      let rest = wait_for_receipt tx_hash attempts in
      and_then (get_receipt tx_hash) (status_or rest)
