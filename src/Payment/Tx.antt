-- ===== src/Payment/Tx.antt =====
-- Transactions of type 2 and their RLP encoding: protocol/boringtun/src/payment/tx.rs. Bytes are numbers
-- in a list; a sum of bytes is written with its wrap.
pub mod Rlp
pub mod Signed
mod Tests
use xelt_vpn.Prelude.{
  ℕ, ◌+◌, ◌-◌, ◌*◌, ◌^◌, ◌%◌, ◌≡◌, Bool, List, [], ◌∷◌, ◌++◌, ltb, leb, ◌==◌, ◌&&◌, if◌then◌else◌,
  length, take, drop, to_be,
}
use xelt_vpn.Payment.Wallet.{Secp}

-- `&be[start..]`, from the first byte that is not 0 on, or the last one.
unfoldable pub without_zeros : List ℕ → List ℕ
without_zeros [] = []
without_zeros (b ∷ []) = b ∷ []
without_zeros (b ∷ c ∷ cs) =
    let rest = without_zeros (c ∷ cs) in if b == 0 then rest else b ∷ c ∷ cs

abbrev pub encode_length : ℕ → List ℕ
encode_length len = without_zeros (to_be 8 len)

-- The head and the bytes of a text from 56 bytes on, or of a shorter one.
abbrev pub with_head : ℕ → ℕ → List ℕ → List ℕ
with_head short long bytes =
    let len_bytes = encode_length (length bytes) in
    if leb (length bytes) 55
    then ((short + length bytes) % 256) ∷ bytes
    else ((long + length len_bytes) % 256) ∷ (len_bytes ++ bytes)

unfoldable pub rlp_encode_bytes : List ℕ → List ℕ
rlp_encode_bytes [] = with_head 0x80 0xb7 []
rlp_encode_bytes (b ∷ []) = if ltb b 0x80 then b ∷ [] else with_head 0x80 0xb7 (b ∷ [])
rlp_encode_bytes (b ∷ c ∷ cs) = with_head 0x80 0xb7 (b ∷ c ∷ cs)

unfoldable pub rlp_encode_uint : ℕ → List ℕ
rlp_encode_uint value =
    if value == 0 then 0x80 ∷ [] else rlp_encode_bytes (without_zeros (to_be 8 value))

unfoldable pub rlp_encode_u128 : ℕ → List ℕ
rlp_encode_u128 value =
    if value == 0 then 0x80 ∷ [] else rlp_encode_bytes (without_zeros (to_be 16 value))

abbrev pub concat : List (List ℕ) → List ℕ
concat [] = []
concat (x ∷ xs) = x ++ concat xs

unfoldable pub rlp_encode_list : List (List ℕ) → List ℕ
rlp_encode_list items = with_head 0xc0 0xf7 (concat items)

-- `input` is the source's `data`.
pub record Eip1559Tx : Type 0 where
  pub chain_id : ℕ
  pub nonce : ℕ
  pub max_priority_fee_per_gas : ℕ
  pub max_fee_per_gas : ℕ
  pub gas_limit : ℕ
  pub to : List ℕ
  pub value : ℕ
  pub input : List ℕ

-- With what follows the empty access list.
abbrev pub rlp_fields : Eip1559Tx → List (List ℕ) → List (List ℕ)
rlp_fields tx more =
    rlp_encode_uint tx.chain_id
    ∷ rlp_encode_uint tx.nonce
    ∷ rlp_encode_u128 tx.max_priority_fee_per_gas
    ∷ rlp_encode_u128 tx.max_fee_per_gas
    ∷ rlp_encode_uint tx.gas_limit
    ∷ rlp_encode_bytes tx.to
    ∷ rlp_encode_u128 tx.value
    ∷ rlp_encode_bytes tx.input
    ∷ rlp_encode_list []
    ∷ more

-- The fields of a signature and its recovery id, pushed.
abbrev pub signed_with : Eip1559Tx → List ℕ × ℕ → List ℕ
signed_with tx (sig_bytes, y_parity) =
    2
    ∷ rlp_encode_list (
        rlp_fields tx (
          rlp_encode_uint y_parity
          ∷ rlp_encode_bytes (take 32 sig_bytes)
          ∷ rlp_encode_bytes (drop 32 sig_bytes)
          ∷ []))

module _ (secp : Secp) where
  abbrev pub signing_hash : Eip1559Tx → List ℕ
  signing_hash tx = secp.keccak256 (2 ∷ rlp_encode_list (rlp_fields tx []))

  unfoldable pub sign : Eip1559Tx → List ℕ → List ℕ
  sign tx key = signed_with tx (secp.sign_prehash_recoverable key (signing_hash tx))
