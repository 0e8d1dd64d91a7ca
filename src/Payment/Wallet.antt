-- ===== src/Payment/Wallet.antt =====
-- `PaymentWallet` of protocol/boringtun/src/payment/wallet.rs, over the primitives of the crates `hkdf`,
-- `sha3` and `k256` with the laws that it relies on. Keys, points and digests are lists of bytes.
pub mod Plain
use xelt_vpn.Prelude.{
  ℕ, ◌+◌, ◌-◌, ◌<◌, ◌≡◌, refl, ap, ◌∙◌, Bool, List, [], ◌∷◌, ◌++◌, Option, none, some, ltb,
  if◌then◌else◌, length, take, drop, take-drop, codes, arith,
}

pub record Secp : Type 0 where
  pub keccak256 : List ℕ → List ℕ
  -- HKDF-SHA256 of a salt, a key and an info text.
  pub hkdf_sha256 : List ℕ → List ℕ → List ℕ → List ℕ
  -- `SigningKey::from_bytes`; `none` where the bytes are no scalar.
  pub signing_key : List ℕ → Option (List ℕ)
  -- `to_encoded_point(false)` of the key's public key.
  pub encoded_point : List ℕ → List ℕ
  -- A key and a digest to a signature and a recovery id, which `expect` takes as never failing.
  pub sign_prehash_recoverable : List ℕ → List ℕ → List ℕ × ℕ
  -- A digest, signature and recovery id to the encoded point of the signer's key; `none` where
  -- `from_byte`, `from_bytes` or `recover_from_prehash` refuses.
  pub recover_from_prehash : List ℕ → List ℕ → ℕ → Option (List ℕ)
  pub length-keccak256 : (m : List ℕ) → length (keccak256 m) ≡ 32
  pub recovery_id-lt : (k d : List ℕ) → (sign_prehash_recoverable k d).1 < 4
  pub length-signature : (k d : List ℕ) → length (sign_prehash_recoverable k d).0 ≡ 64
  pub recover-sign :
      (k d : List ℕ)
      → let (sig, id) = sign_prehash_recoverable k d in
        recover_from_prehash d sig id ≡ some (encoded_point k)

abbrev pub hkdf_salt : List ℕ
hkdf_salt = codes "boringtun-payment-v1"

abbrev pub hkdf_info : List ℕ
hkdf_info = codes "secp256k1-signing-key"

pub record PaymentWallet : Type 0 where
  pub signing_key : List ℕ
  pub ethereum_address : List ℕ

module _ (secp : Secp) where
  -- The last 20 bytes of the hash of a point without its first byte.
  abbrev pub address_of_point : List ℕ → List ℕ
  address_of_point point = drop 12 (secp.keccak256 (drop 1 point))

  abbrev pub compute_address : List ℕ → List ℕ
  compute_address key = address_of_point (secp.encoded_point key)

  -- `none` is the panic of `expect`.
  unfoldable pub from_wireguard_key : List ℕ → Option PaymentWallet
  from_wireguard_key x25519_private_bytes =
      elim (secp.signing_key (secp.hkdf_sha256 hkdf_salt x25519_private_bytes hkdf_info)) [
        | none ↦ none
        | some key ↦ some (record { signing_key = key; ethereum_address = compute_address key })
      ]

  -- `(v, r, s)`.
  unfoldable pub sign_digest : PaymentWallet → List ℕ → ℕ × (List ℕ × List ℕ)
  sign_digest w digest =
      let (sig, id) = secp.sign_prehash_recoverable w.signing_key digest in
      (id + 27, (take 32 sig, drop 32 sig))

  unfoldable pub recover_address : List ℕ → ℕ → List ℕ → List ℕ → Option (List ℕ)
  recover_address digest v r s =
      if ltb v 27 then none else elim (secp.recover_from_prehash digest (r ++ s) (v - 27)) [
        | none ↦ none
        | some point ↦ some (address_of_point point)
      ]

  -- The address is the key's.
  abbrev pub IsWallet : PaymentWallet → Type 0
  IsWallet w = w.ethereum_address ≡ compute_address w.signing_key

  pub recover-sign_digest :
      (w : PaymentWallet) (digest : List ℕ)
      → IsWallet w
      → let (v, (r, s)) = sign_digest w digest in
        recover_address digest v r s ≡ some w.ethereum_address
  unfolding sign_digest recover_address
  recover-sign_digest w digest h =
      let (sig, id) = secp.sign_prehash_recoverable w.signing_key digest in
      let e : id + 27 - 27 ≡ id = omega arith in
      let t : ltb (id + 27) 27 ≡ Bool.false = ground arith in
      rw (t, take-drop 32 sig, e, secp.recover-sign w.signing_key digest, h) refl

  pub from_wireguard_key-IsWallet :
      (bytes : List ℕ) {w : PaymentWallet} → from_wireguard_key bytes ≡ some w → IsWallet w
  unfolding from_wireguard_key
  from_wireguard_key-IsWallet bytes e = ground arith
