-- ===== src/Payment/Eip3009/Preimage.antt =====
-- The bytes that a struct hash is taken of determine the authorization.
use xelt_vpn.Prelude.{
  ℕ, ◌+◌, ◌^◌, ◌<◌, ◌≡◌, sym, ap, ◌∙◌, List, [], ◌++◌, length, length-to_be, get_or, drop,
  replicate, slice, from_be, from_be-to_be, arith,
}
use xelt_vpn.Prelude.Fields.{join, start, Sized, slice-join}
use xelt_vpn.Payment.Wallet.{Secp}
use xelt_vpn.Payment.Eip3009.{
  TransferAuthorization, abi_encode_u256, transfer_authorization_type_hash, struct_words,
}

-- The sizes of the Rust types.
pub record Fits (a : TransferAuthorization) : Type 0 where
  pub from_fits : length a.from ≡ 20
  pub to_fits : length a.to ≡ 20
  pub value_fits : a.value < 2 ^ 64
  pub after_fits : a.valid_after < 2 ^ 64
  pub before_fits : a.valid_before < 2 ^ 64
  pub nonce_fits : length a.nonce ≡ 32

abbrev sizes : List ℕ
sizes = replicate 7 32

u256-inj : (x y : ℕ) → x < 2 ^ 64 → y < 2 ^ 64 → abi_encode_u256 x ≡ abi_encode_u256 y → x ≡ y
u256-inj x y hx hy e =
    sym (from_be-to_be 16 x (omega arith))
    ∙ ap (λ w. from_be (drop 16 w)) e
    ∙ from_be-to_be 16 y (omega arith)

module _ (secp : Secp) where
  struct_words-Sized : {a : TransferAuthorization} → Fits a → Sized sizes (struct_words secp a)
  unfolding transfer_authorization_type_hash
  struct_words-Sized {a} f = (
    secp.length-keccak256 _,
    (
      omega (arith, f.from_fits),
      (
        omega (arith, f.to_fits),
        (
          omega (arith, length-to_be 16 a.value),
          (
            omega (arith, length-to_be 16 a.valid_after),
            (omega (arith, length-to_be 16 a.valid_before), (f.nonce_fits, tt)),
          ),
        ),
      ),
    ),
  )

  -- Authorizations whose fields have the sizes of their types, and that are hashed from the same
  -- bytes, are the same.
  pub struct_words-inj :
      (a b : TransferAuthorization)
      → Fits a
      → Fits b
      → join (struct_words secp a) ≡ join (struct_words secp b)
      → a ≡ b
  struct_words-inj a b f g e = λ i. record {
    from = ap (drop 12) (word 1 (omega arith)) i;
    to = ap (drop 12) (word 2 (omega arith)) i;
    value = u256-inj a.value b.value f.value_fits g.value_fits (word 3 (omega arith)) i;
    valid_after =
        u256-inj a.valid_after b.valid_after f.after_fits g.after_fits (word 4 (omega arith)) i;
    valid_before =
        u256-inj a.valid_before b.valid_before f.before_fits g.before_fits (word 5 (omega arith)) i;
    nonce = word 6 (omega arith) i;
  }
    where
      word : (k : ℕ) → k < 7 → get_or (struct_words secp a) k [] ≡ get_or (struct_words secp b) k []
      word k h =
          sym (slice-join k sizes (struct_words secp a) [] (struct_words-Sized f) h)
          ∙ ap (λ w. slice (start sizes k) (start sizes k + get_or sizes k 0) (w ++ [])) e
          ∙ slice-join k sizes (struct_words secp b) [] (struct_words-Sized g) h
