-- ===== src/Noise/Aead/Plain.antt =====
-- An instance of the interface for tests: no secrecy, a tag of sixteen zeros.
use xelt_vpn.Prelude.{
  ℕ, ◌+◌, ◌-◌, ◌≡◌, refl, ap, ◌∙◌, List, ◌++◌, Option, none, some, ltb, if◌then◌else◌, length,
  length-append, take, take-append, ge→ltb, replicate, arith,
}
use xelt_vpn.Noise.Aead.{Aead}

abbrev pub plain_seal : List ℕ → List ℕ → List ℕ → List ℕ → Option (List ℕ × List ℕ)
plain_seal k n ad p = some (p, replicate 16 0)

abbrev pub plain_unseal : List ℕ → List ℕ → List ℕ → List ℕ → Option (List ℕ)
plain_unseal k n ad c = if ltb (length c) 16 then none else some (take (length c - 16) c)

pub length-plain_seal :
    (k n ad p : List ℕ) {c t : List ℕ}
    → plain_seal k n ad p ≡ some (c, t)
    → (length c ≡ length p) × (length t ≡ 16)
length-plain_seal k n ad p e = ground arith

pub plain_unseal-plain_seal :
    (k n ad p : List ℕ) {c t : List ℕ}
    → plain_seal k n ad p ≡ some (c, t)
    → plain_unseal k n ad (c ++ t) ≡ some p
plain_unseal-plain_seal k n ad p {c} {t} e =
    let sz : length (c ++ t) ≡ length c + 16 =
      omega (arith, length-append c t, length-plain_seal k n ad p e) in
    rw (sz, ge→ltb (length c + 16) 16 (omega arith))
      (ap some (ap (λ i. take i (c ++ t)) (omega arith) ∙ take-append c t ∙ cc))

abbrev pub plain : Aead
plain = record {
  seal = plain_seal;
  unseal = plain_unseal;
  length-seal = length-plain_seal;
  unseal-seal = plain_unseal-plain_seal;
  seal-total = λ k n ad p h. (p, replicate 16 0, refl);
}
