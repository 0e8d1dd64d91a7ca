-- ===== src/Payment/Tx/Signed.antt =====
-- What a node reads of a signed transaction of protocol/boringtun/src/payment/tx.rs.
use mathlib.Core.List.{append-nil}
use xelt_vpn.Prelude.{
  ℕ, ◌^◌, ◌<◌, ◌≡◌, refl, ap, ◌∙◌, List, [], ◌∷◌, Option, none, some, ◌==◌, if◌then◌else◌, length,
  take, drop, length-take, length-drop, length-append, leb, ◌≤◌, sym, inl, inr, Bool-cases, arith,
}
use xelt_vpn.Payment.Wallet.{Secp}
use xelt_vpn.Payment.Tx.{
  Eip1559Tx, rlp_fields, concat, rlp_encode_uint, rlp_encode_bytes, rlp_encode_list, signing_hash,
  signed_with, sign, encode_length,
}
use xelt_vpn.Payment.Tx.Rlp.{
  read_text, read_list, read_number, read_text-encode, read_list-encode, read_number-uint,
  read_number-u128,
}

abbrev then_read {ℓ} :
    {A : Type ℓ} {B : Type ℓ} → Option (A × List ℕ) → (A → List ℕ → Option B) → Option B
then_read none k = none
then_read (some (a, rest)) k = k a rest

-- A transaction, and the parity and the texts of its signature.
abbrev pub Signed : Type 0
Signed = Eip1559Tx × ℕ × List ℕ × List ℕ

-- The fields of a signed transaction in the order of EIP-1559, its access list empty.
abbrev read_fields : List ℕ → Option Signed
read_fields xs = then_read (read_number xs) (λ chain_id xs₁.
    then_read (read_number xs₁) (λ nonce xs₂. then_read (read_number xs₂) (λ priority xs₃.
      then_read (read_number xs₃) (λ fee xs₄. then_read (read_number xs₄) (λ gas xs₅.
        then_read (read_text xs₅) (λ to xs₆. then_read (read_number xs₆) (λ value xs₇.
          then_read (read_text xs₇) (λ input xs₈. then_read (read_list xs₈) (λ access xs₉.
            then_read (read_number xs₉) (λ parity xs₁₀. then_read (read_text xs₁₀) (λ r xs₁₁.
              then_read (read_text xs₁₁) (λ s rest. some (
                record {
                  chain_id = chain_id;
                  nonce = nonce;
                  max_priority_fee_per_gas = priority;
                  max_fee_per_gas = fee;
                  gas_limit = gas;
                  to = to;
                  value = value;
                  input = input;
                },
                parity,
                r,
                s,
              )))))))))))))

-- A transaction of type 2: the byte 2 and one list.
unfoldable pub read_signed : List ℕ → Option Signed
read_signed [] = none
read_signed (b ∷ xs) =
    if b == 2 then then_read (read_list xs) (λ payload rest. read_fields payload) else none

-- The numbers fit their types, and the lengths a u64.
pub record FitsTypes (tx : Eip1559Tx) : Type 0 where
  pub chain : tx.chain_id < 2 ^ 64
  pub nonces : tx.nonce < 2 ^ 64
  pub priority : tx.max_priority_fee_per_gas < 2 ^ 128
  pub fee : tx.max_fee_per_gas < 2 ^ 128
  pub gas : tx.gas_limit < 2 ^ 64
  pub address : length tx.to ≡ 20
  pub amount : tx.value < 2 ^ 128
  pub inputs : length tx.input < 2 ^ 64

module _ (tx : Eip1559Tx) (fits : FitsTypes tx) where
  fields_read :
      (parity : ℕ) (r s : List ℕ)
      → parity < 4
      → length r ≡ 32
      → length s ≡ 32
      → read_fields (
          concat
            (rlp_fields tx (rlp_encode_uint parity ∷ rlp_encode_bytes r ∷ rlp_encode_bytes s ∷ [])))
        ≡ some (tx, parity, r, s)
  fields_read parity r s p er es =
      rw
        (
          read_number-uint tx.chain_id _ fits.chain,
          read_number-uint tx.nonce _ fits.nonces,
          read_number-u128 tx.max_priority_fee_per_gas _ fits.priority,
          read_number-u128 tx.max_fee_per_gas _ fits.fee,
          read_number-uint tx.gas_limit _ fits.gas,
          read_text-encode tx.to _ (omega (arith, fits.address)),
          read_number-u128 tx.value _ fits.amount,
          read_text-encode tx.input _ fits.inputs,
          read_list-encode [] _ (omega arith),
          read_number-uint parity _ (omega (arith, p)),
          read_text-encode r _ (omega (arith, er)),
          read_text-encode s _ (omega (arith, es)),
        )
        refl

length-rlp_encode_list :
    (items : List (List ℕ)) → length (concat items) ≤ length (rlp_encode_list items)
unfolding rlp_encode_list
length-rlp_encode_list items = elim (Bool-cases (leb (length (concat items)) 55)) [
  | inl q ↦ rw q (omega arith)
  | inr q ↦
      rw q (omega (arith, length-append (encode_length (length (concat items))) (concat items)))
]

module _ (tx : Eip1559Tx) (fits : FitsTypes tx) where
  signed_with-read :
      (signature : List ℕ × ℕ)
      → length signature.0 ≡ 64
      → signature.1 < 4
      → length (signed_with tx signature) < 2 ^ 64
      → read_signed (signed_with tx signature)
        ≡ some (tx, signature.1, take 32 signature.0, drop 32 signature.0)
  unfolding read_signed
  signed_with-read (bytes, parity) size few lt =
      let r = take 32 bytes in
      let s = drop 32 bytes in
      let fields =
        rlp_fields tx (rlp_encode_uint parity ∷ rlp_encode_bytes r ∷ rlp_encode_bytes s ∷ []) in
      let short : length (concat fields) < 2 ^ 64 =
        omega (arith, lt, length-rlp_encode_list fields) in
      ap (λ xs. then_read (read_list xs) (λ payload rest. read_fields payload))
        (sym (append-nil (rlp_encode_list fields)))
      ∙ ap (λ o. then_read o (λ payload rest. read_fields payload))
          (read_list-encode fields [] short)
      ∙ fields_read tx fits parity r s few (length-take 32 bytes (omega (arith, size)))
          (omega (arith, length-drop 32 bytes, size))

-- From a signed transaction shorter than 2^64 bytes, whose fields fit their types, a reader of RLP gets
-- back the transaction, and the parity and the two texts of 32 bytes of the signature of its hash.
pub read-sign :
    (secp : Secp) (tx : Eip1559Tx) (key : List ℕ)
    → FitsTypes tx
    → length (sign secp tx key) < 2 ^ 64
    → read_signed (sign secp tx key)
      ≡ some (
        tx,
        (secp.sign_prehash_recoverable key (signing_hash secp tx)).1,
        take 32 (secp.sign_prehash_recoverable key (signing_hash secp tx)).0,
        drop 32 (secp.sign_prehash_recoverable key (signing_hash secp tx)).0,
      )
unfolding sign
read-sign secp tx key fits lt =
    let hash = signing_hash secp tx in
    signed_with-read tx fits (secp.sign_prehash_recoverable key hash)
      (secp.length-signature key hash) (secp.recovery_id-lt key hash) lt
