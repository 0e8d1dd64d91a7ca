-- ===== src/Payment/Eip3009.antt =====
-- protocol/boringtun/src/payment/eip3009.rs: the EIP-712 digest of a transfer authorization, and its
-- signature. The bytes that are hashed are definitions of their own here.
pub mod Preimage
mod Tests
use xelt_vpn.Prelude.{ℕ, ◌≡◌, List, [], ◌∷◌, ◌++◌, Option, some, replicate, to_be, codes}
use xelt_vpn.Prelude.Fields.{join}
use xelt_vpn.Payment.Config.{Eip712Domain}
use xelt_vpn.Payment.Wallet.{
  Secp, PaymentWallet, IsWallet, sign_digest, recover_address, recover-sign_digest,
}

pub record TransferAuthorization : Type 0 where
  pub from : List ℕ
  pub to : List ℕ
  pub value : ℕ
  pub valid_after : ℕ
  pub valid_before : ℕ
  pub nonce : List ℕ

pub record SignedAuthorization : Type 0 where
  pub auth : TransferAuthorization
  pub v : ℕ
  pub r : List ℕ
  pub s : List ℕ

-- Words of 32 bytes.
abbrev pub abi_encode_address : List ℕ → List ℕ
abi_encode_address addr = replicate 12 0 ++ addr

abbrev pub abi_encode_u256 : ℕ → List ℕ
abi_encode_u256 value = replicate 16 0 ++ to_be 16 value

module _ (secp : Secp) where
  unfoldable pub eip712_domain_type_hash : List ℕ
  eip712_domain_type_hash =
      secp.keccak256
        (codes "EIP712Domain(string name,string version,uint256 chainId,address verifyingContract)")

  unfoldable pub transfer_authorization_type_hash : List ℕ
  transfer_authorization_type_hash = secp.keccak256 (
      codes
        "TransferWithAuthorization(address from,address to,uint256 value,uint256 validAfter,uint256 validBefore,bytes32 nonce)")

  abbrev pub domain_words : Eip712Domain → List (List ℕ)
  domain_words domain =
      eip712_domain_type_hash
      ∷ secp.keccak256 domain.name
      ∷ secp.keccak256 domain.version
      ∷ abi_encode_u256 domain.chain_id
      ∷ abi_encode_address domain.verifying_contract
      ∷ []

  unfoldable pub compute_domain_separator : Eip712Domain → List ℕ
  compute_domain_separator domain = secp.keccak256 (join (domain_words domain))

  abbrev pub struct_words : TransferAuthorization → List (List ℕ)
  struct_words auth =
      transfer_authorization_type_hash
      ∷ abi_encode_address auth.from
      ∷ abi_encode_address auth.to
      ∷ abi_encode_u256 auth.value
      ∷ abi_encode_u256 auth.valid_after
      ∷ abi_encode_u256 auth.valid_before
      ∷ auth.nonce
      ∷ []

  unfoldable pub compute_struct_hash : TransferAuthorization → List ℕ
  compute_struct_hash auth = secp.keccak256 (join (struct_words auth))

  unfoldable pub compute_eip712_digest : Eip712Domain → TransferAuthorization → List ℕ
  compute_eip712_digest domain auth =
      secp.keccak256 (0x19 ∷ 0x01 ∷ (compute_domain_separator domain ++ compute_struct_hash auth))

  unfoldable pub sign_authorization :
      PaymentWallet → Eip712Domain → TransferAuthorization → SignedAuthorization
  sign_authorization wallet domain auth =
      let (v, (r, s)) = sign_digest secp wallet (compute_eip712_digest domain auth) in
      record { auth = auth; v = v; r = r; s = s }

  unfoldable pub verify_authorization : Eip712Domain → SignedAuthorization → Option (List ℕ)
  verify_authorization domain signed =
      recover_address secp (compute_eip712_digest domain signed.auth) signed.v signed.r signed.s

  -- An authorization that a wallet signs verifies in the same domain as signed by the wallet's address.
  pub verify-sign :
      (w : PaymentWallet) (domain : Eip712Domain) (auth : TransferAuthorization)
      → IsWallet secp w
      → verify_authorization domain (sign_authorization w domain auth) ≡ some w.ethereum_address
  unfolding verify_authorization sign_authorization
  verify-sign w domain auth h = recover-sign_digest secp w (compute_eip712_digest domain auth) h
