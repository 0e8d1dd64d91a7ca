-- ===== src/Payment/Tx/Tests.antt =====
-- Encodings and signed transactions at concrete fields.
use xelt_vpn.Prelude.{◌^◌, ◌<◌, ◌≡◌, refl, [], ◌∷◌, some, take, drop, length, replicate, arith}
use xelt_vpn.Payment.Wallet.Plain.{plain_secp}
use xelt_vpn.Payment.Tx.{
  Eip1559Tx, without_zeros, rlp_encode_bytes, rlp_encode_uint, rlp_encode_u128, rlp_encode_list,
  signing_hash, sign,
}
use xelt_vpn.Payment.Tx.Signed.{FitsTypes, read_signed, read-sign}

zero_encodes : rlp_encode_uint 0 ≡ 0x80 ∷ []
unfolding rlp_encode_uint
zero_encodes = refl

number_encodes : rlp_encode_uint 256 ≡ 0x82 ∷ 0x01 ∷ 0x00 ∷ []
unfolding rlp_encode_uint rlp_encode_bytes without_zeros
number_encodes = refl

-- A text is not a number: its zeros stay.
zeros_stay : rlp_encode_bytes (0 ∷ 1 ∷ []) ≡ 0x82 ∷ 0 ∷ 1 ∷ []
unfolding rlp_encode_bytes
zeros_stay = refl

abbrev approval : Eip1559Tx
approval = record {
  chain_id = 5042002;
  nonce = 0;
  max_priority_fee_per_gas = 1000000;
  max_fee_per_gas = 2000000;
  gas_limit = 60000;
  to = replicate 20 0xaa;
  value = 0;
  input = 0x09 ∷ 0x5e ∷ 0xa7 ∷ 0xb3 ∷ [];
}

approval-FitsTypes : FitsTypes approval
approval-FitsTypes = record {
  chain = omega arith;
  nonces = omega arith;
  priority = omega arith;
  fee = omega arith;
  gas = omega arith;
  address = refl;
  amount = omega arith;
  inputs = omega arith;
}

approval_size : length (sign plain_secp approval (replicate 32 1)) < 2 ^ 64
unfolding sign rlp_encode_list rlp_encode_uint rlp_encode_u128 rlp_encode_bytes without_zeros
approval_size = omega arith

read-sign_example :
    read_signed (sign plain_secp approval (replicate 32 1))
    ≡ some (
      approval,
      (plain_secp.sign_prehash_recoverable (replicate 32 1) (signing_hash plain_secp approval)).1,
      take 32
          (plain_secp.sign_prehash_recoverable
            (replicate 32 1)
            (signing_hash plain_secp approval)).0,
      drop 32
          (plain_secp.sign_prehash_recoverable
            (replicate 32 1)
            (signing_hash plain_secp approval)).0,
    )
read-sign_example = read-sign plain_secp approval (replicate 32 1) approval-FitsTypes approval_size
