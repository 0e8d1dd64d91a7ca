-- ===== src/Payment/Wallet/Plain.antt =====
-- An instance of the interface for tests: no secrecy at all.
use xelt_vpn.Prelude.{refl, some, replicate, arith}
use xelt_vpn.Payment.Wallet.{Secp}

-- Every signature is by the one key, whose point is all zeros.
abbrev pub plain_secp : Secp
plain_secp = record {
  keccak256 = λ m. replicate 32 5;
  hkdf_sha256 = λ salt k info. replicate 32 0;
  signing_key = λ bytes. some bytes;
  encoded_point = λ k. replicate 65 4;
  sign_prehash_recoverable = λ k d. (replicate 64 6, 1);
  recover_from_prehash = λ d sig id. some (replicate 65 4);
  length-keccak256 = λ m. refl;
  recovery_id-lt = λ k d. omega arith;
  length-signature = λ k d. refl;
  recover-sign = λ k d. refl;
}
