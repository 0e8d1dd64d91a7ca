-- ===== src/Noise/Aead.antt =====
-- ChaCha20-Poly1305 of the crate `ring`, as `LessSafeKey` gives it: what protocol/boringtun/src/noise
-- takes of it, and the laws that it relies on.
pub mod Plain
use xelt_vpn.Prelude.{ℕ, ◌<◌, ◌^◌, ◌≡◌, List, ◌++◌, Option, some, length}

pub record Aead : Type 0 where
  -- Key, nonce, associated data and plaintext to ciphertext and tag; `none` where the text is too
  -- long to seal.
  pub seal : List ℕ → List ℕ → List ℕ → List ℕ → Option (List ℕ × List ℕ)
  -- Key, nonce, associated data, and ciphertext with its tag, to plaintext; `none` where the tag does
  -- not fit.
  pub unseal : List ℕ → List ℕ → List ℕ → List ℕ → Option (List ℕ)
  pub length-seal :
      (k n ad p : List ℕ) {c t : List ℕ}
      → seal k n ad p ≡ some (c, t)
      → (length c ≡ length p) × (length t ≡ 16)
  pub unseal-seal :
      (k n ad p : List ℕ) {c t : List ℕ}
      → seal k n ad p ≡ some (c, t)
      → unseal k n ad (c ++ t) ≡ some p
  -- Texts of less than 4 GB are never too long.
  pub seal-total :
      (k n ad p : List ℕ)
      → length p < 2 ^ 32
      → (c : List ℕ) × (t : List ℕ) × (seal k n ad p ≡ some (c, t))
