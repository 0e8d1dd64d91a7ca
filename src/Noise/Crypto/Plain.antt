-- ===== src/Noise/Crypto/Plain.antt =====
-- An instance of the interface for tests: no secrecy at all.
use xelt_vpn.Prelude.{refl, replicate}
use xelt_vpn.Noise.Aead.Plain.{plain, plain_seal, plain_unseal}
use xelt_vpn.Noise.Crypto.{Crypto}

abbrev pub plain_crypto : Crypto
plain_crypto = record {
  aead = plain;
  blake2s = λ m. replicate 32 0;
  hmac_blake2s = λ k m. replicate 32 0;
  blake2s_mac_16 = λ k m. replicate 16 0;
  blake2s_mac_24 = λ k m. replicate 24 0;
  public_key = λ k. replicate 32 9;
  diffie_hellman = λ k p. replicate 32 0;
  xseal = plain_seal;
  xunseal = plain_unseal;
  length-blake2s_mac_16 = λ k m. refl;
  length-public_key = λ k. refl;
  diffie_hellman_comm = λ a b. refl;
}
