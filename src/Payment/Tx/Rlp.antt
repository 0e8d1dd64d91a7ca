-- ===== src/Payment/Tx/Rlp.antt =====
-- What RLP says of the encodings of protocol/boringtun/src/payment/tx.rs.
use mathlib.Core.List.{append_assoc, reverse-cons}
use xelt_vpn.Prelude.{
  ℕ, ◌+◌, ◌-◌, ◌*◌, ◌^◌, ◌<◌, ◌≤◌, ◌≡◌, refl, sym, ap, ◌∙◌, inl, inr, ==→eq, true, false, List, [],
  ◌∷◌, ◌++◌, Option, none, some, ltb, leb, ◌==◌, if◌then◌else◌, length, take, drop, to_be, from_be,
  from_le, reverse, length-to_be, from_be-to_be, take-append, drop-append, Bool-cases, arith,
}
use xelt_vpn.Payment.Tx.{
  without_zeros, encode_length, with_head, rlp_encode_bytes, rlp_encode_uint, rlp_encode_u128,
  concat, rlp_encode_list,
}

-- The first `n` bytes and the rest.
abbrev pub cut : ℕ → List ℕ → List ℕ × List ℕ
cut n xs = (take n xs, drop n xs)

-- A text behind its length.
abbrev pub behind_size : List ℕ × List ℕ → List ℕ × List ℕ
behind_size (size, rest) = cut (from_be size) rest

-- What follows a head of the given base: shorter than 56 bytes, or with its length in front.
abbrev pub behind_head : ℕ → ℕ → ℕ → List ℕ → List ℕ × List ℕ
behind_head short long b rest =
    if leb b (short + 55) then cut (b - short) rest else behind_size (cut (b - long) rest)

-- The text at the front of an encoding and what follows it.
unfoldable pub read_text : List ℕ → Option (List ℕ × List ℕ)
read_text [] = none
read_text (b ∷ rest) =
    if ltb b 0x80
    then some (b ∷ [], rest)
    else if ltb b 0xc0
    then some (behind_head 0x80 0xb7 b rest)
    else none

-- The items of the list at the front, not yet told apart, and what follows it.
unfoldable pub read_list : List ℕ → Option (List ℕ × List ℕ)
read_list [] = none
read_list (b ∷ rest) = if ltb b 0xc0 then none else some (behind_head 0xc0 0xf7 b rest)

from_le-zero : (xs : List ℕ) → from_le (xs ++ (0 ∷ [])) ≡ from_le xs
from_le-zero [] = refl
from_le-zero (x ∷ xs) = ap (λ n. x + 256 * n) (from_le-zero xs)

from_be-zero : (b : ℕ) (xs : List ℕ) → b ≡ 0 → from_be (b ∷ xs) ≡ from_be xs
from_be-zero b xs e =
    ap from_le (reverse-cons b xs ∙ ap (λ n. reverse xs ++ (n ∷ [])) e) ∙ from_le-zero (reverse xs)

pub from_be-without_zeros : (xs : List ℕ) → from_be (without_zeros xs) ≡ from_be xs
unfolding without_zeros
from_be-without_zeros [] = refl
from_be-without_zeros (b ∷ []) = refl
from_be-without_zeros (b ∷ c ∷ cs) = elim (Bool-cases (b == 0)) [
  | inl q ↦ rw q (from_be-without_zeros (c ∷ cs) ∙ sym (from_be-zero b (c ∷ cs) (==→eq b 0 q)))
  | inr q ↦ rw q refl
]

length-without_zeros :
    (xs : List ℕ)
    → 0 < length xs
    → (0 < length (without_zeros xs)) × (length (without_zeros xs) ≤ length xs)
unfolding without_zeros
length-without_zeros [] h = absurd (omega (arith, h))
length-without_zeros (b ∷ []) h = (omega arith, omega arith)
length-without_zeros (b ∷ c ∷ cs) h =
    let (p, q) = length-without_zeros (c ∷ cs) (omega arith) in
    elim (Bool-cases (b == 0)) [
      | inl e ↦ rw e (p, omega (arith, q))
      | inr e ↦ rw e (omega arith, omega arith)
    ]

pub encode_length-size : (n : ℕ) → (0 < length (encode_length n)) × (length (encode_length n) ≤ 8)
encode_length-size n =
    let (p, q) = length-without_zeros (to_be 8 n) (omega (arith, length-to_be 8 n)) in
    (p, omega (arith, q, length-to_be 8 n))

pub cut-append : (xs ys : List ℕ) → cut (length xs) (xs ++ ys) ≡ (xs, ys)
cut-append xs ys =
    ap (λ a. (a, drop (length xs) (xs ++ ys))) (take-append xs ys)
    ∙ ap (λ b. (xs, b))
        (drop-append (length xs) xs ys (omega arith)
          ∙ ap (λ k. drop k ys) {x = length xs - length xs} {y = 0} (omega arith))

module _ (short long : ℕ) where
  -- A head and what stands behind it come apart again.
  behind-short :
      (bytes tail : List ℕ)
      → length bytes ≤ 55
      → behind_head short long (short + length bytes) (bytes ++ tail) ≡ (bytes, tail)
  behind-short bytes tail h =
      let under : leb (short + length bytes) (short + 55) ≡ true = ground (arith, h) in
      rw under (ap (λ n. cut n (bytes ++ tail)) (omega arith) ∙ cut-append bytes tail)

  behind-long :
      (bytes tail : List ℕ)
      → long ≡ short + 55
      → 55 < length bytes
      → length bytes < 2 ^ 64
      → behind_head short long
          (long + length (encode_length (length bytes)))
          (encode_length (length bytes) ++ (bytes ++ tail))
        ≡ (bytes, tail)
  behind-long bytes tail e h lt =
      let size = encode_length (length bytes) in
      let positive = (encode_length-size (length bytes)).0 in
      let over : leb (long + length size) (short + 55) ≡ false = ground (arith, positive, e) in
      rw over (
        ap (λ k. behind_size (cut k (size ++ (bytes ++ tail)))) (omega arith)
        ∙ ap behind_size (cut-append size (bytes ++ tail))
        ∙ ap (λ n. cut n (bytes ++ tail))
            (from_be-without_zeros (to_be 8 (length bytes))
              ∙ from_be-to_be 8 (length bytes) (omega (arith, lt)))
        ∙ cut-append bytes tail)

read_text-behind :
    (b : ℕ) (rest : List ℕ)
    → 0x80 ≤ b
    → b < 0xc0
    → read_text (b ∷ rest) ≡ some (behind_head 0x80 0xb7 b rest)
unfolding read_text
read_text-behind b rest p q =
    let not_byte : ltb b 0x80 ≡ false = ground (arith, p) in
    let is_text : ltb b 0xc0 ≡ true = ground (arith, q) in rw (not_byte, is_text) refl

read_list-behind :
    (b : ℕ) (rest : List ℕ) → 0xc0 ≤ b → read_list (b ∷ rest) ≡ some (behind_head 0xc0 0xf7 b rest)
unfolding read_list
read_list-behind b rest p = let is_list : ltb b 0xc0 ≡ false = ground (arith, p) in rw is_list refl

-- What `with_head` writes is behind its head, and the head is in the range of its kind.
module _ (short : ℕ) (low : short + 63 < 256) (bytes tail : List ℕ)
    (lt : length bytes < 2 ^ 64) where
  abbrev ComesApart : List ℕ → Type 0
  ComesApart xs =
      (b : ℕ) × (rest : List ℕ) × (short ≤ b)
      × (b ≤ short + 63)
      × (xs ≡ b ∷ rest)
      × (behind_head short (short + 55) b rest ≡ (bytes, tail))

  with_head-ComesApart : ComesApart (with_head short (short + 55) bytes ++ tail)
  with_head-ComesApart = elim (Bool-cases (leb (length bytes) 55)) [
    | inl q ↦
        let small : length bytes ≤ 55 = ground (arith, q) in
        rw q (
          short + length bytes,
          bytes ++ tail,
          omega arith,
          omega (arith, small),
          ap (λ b. b ∷ (bytes ++ tail)) (omega (arith, small, low)),
          behind-short short (short + 55) bytes tail small,
        )
    | inr q ↦
        let large : 55 < length bytes = ground (arith, q) in
        let size = encode_length (length bytes) in
        let few = (encode_length-size (length bytes)).1 in
        rw q (
          short + 55 + length size,
          size ++ (bytes ++ tail),
          omega arith,
          omega (arith, few),
          ap (λ b. b ∷ ((size ++ bytes) ++ tail)) (omega (arith, few, low))
              ∙ ap (◌∷◌ (short + 55 + length size)) (append_assoc size bytes tail),
          behind-long short (short + 55) bytes tail refl large lt,
        )
  ]

text-head :
    (bytes tail : List ℕ)
    → length bytes < 2 ^ 64
    → read_text (with_head 0x80 0xb7 bytes ++ tail) ≡ some (bytes, tail)
text-head bytes tail lt =
    let (b, rest, lo, hi, e, h) = with_head-ComesApart 0x80 (omega arith) bytes tail lt in
    ap read_text e ∙ read_text-behind b rest lo (omega (arith, hi)) ∙ ap some h

read_text-byte :
    (b : ℕ) (tail : List ℕ) → ltb b 0x80 ≡ true → read_text (b ∷ tail) ≡ some (b ∷ [], tail)
unfolding read_text
read_text-byte b tail q = rw q refl

-- A text is read back from the front of what it was written to.
pub read_text-encode :
    (bytes tail : List ℕ)
    → length bytes < 2 ^ 64
    → read_text (rlp_encode_bytes bytes ++ tail) ≡ some (bytes, tail)
unfolding rlp_encode_bytes
read_text-encode [] tail lt = text-head [] tail lt
read_text-encode (b ∷ []) tail lt = elim (Bool-cases (ltb b 0x80)) [
  | inl q ↦ rw q (read_text-byte b tail q)
  | inr q ↦ rw q (text-head (b ∷ []) tail lt)
]
read_text-encode (b ∷ c ∷ cs) tail lt = text-head (b ∷ c ∷ cs) tail lt

-- The bytes of a list's items are read back.
pub read_list-encode :
    (items : List (List ℕ)) (tail : List ℕ)
    → length (concat items) < 2 ^ 64
    → read_list (rlp_encode_list items ++ tail) ≡ some (concat items, tail)
unfolding rlp_encode_list
read_list-encode items tail lt =
    let (b, rest, lo, hi, e, h) = with_head-ComesApart 0xc0 (omega arith) (concat items) tail lt in
    ap read_list e ∙ read_list-behind b rest lo ∙ ap some h

-- A number at the front, and what follows it.
abbrev pub number_of : Option (List ℕ × List ℕ) → Option (ℕ × List ℕ)
number_of none = none
number_of (some (bytes, rest)) = some (from_be bytes, rest)

abbrev pub read_number : List ℕ → Option (ℕ × List ℕ)
read_number xs = number_of (read_text xs)

number_read :
    (w v : ℕ) (tail : List ℕ)
    → w < 2 ^ 64
    → 0 < w
    → v < 256 ^ w
    → read_number (rlp_encode_bytes (without_zeros (to_be w v)) ++ tail) ≡ some (v, tail)
number_read w v tail small positive lt =
    let size = (length-without_zeros (to_be w v) (omega (arith, length-to_be w v, positive))).1 in
    ap number_of (
      read_text-encode (without_zeros (to_be w v)) tail
        (omega (arith, size, length-to_be w v, small)))
    ∙ ap (λ n. some (n, tail)) (from_be-without_zeros (to_be w v) ∙ from_be-to_be w v lt)

zero_read : (v : ℕ) (tail : List ℕ) → v ≡ 0 → read_number (0x80 ∷ tail) ≡ some (v, tail)
unfolding read_text
zero_read v tail e = ap (λ n. some (n, tail)) (sym e)

pub read_number-uint :
    (v : ℕ) (tail : List ℕ) → v < 2 ^ 64 → read_number (rlp_encode_uint v ++ tail) ≡ some (v, tail)
unfolding rlp_encode_uint
read_number-uint v tail lt = elim (Bool-cases (v == 0)) [
  | inl q ↦ rw q (zero_read v tail (==→eq v 0 q))
  | inr q ↦ rw q (number_read 8 v tail (omega arith) (omega arith) (omega (arith, lt)))
]

pub read_number-u128 :
    (v : ℕ) (tail : List ℕ) → v < 2 ^ 128 → read_number (rlp_encode_u128 v ++ tail) ≡ some (v, tail)
unfolding rlp_encode_u128
read_number-u128 v tail lt = elim (Bool-cases (v == 0)) [
  | inl q ↦ rw q (zero_read v tail (==→eq v 0 q))
  | inr q ↦ rw q (number_read 16 v tail (omega arith) (omega arith) (omega (arith, lt)))
]
