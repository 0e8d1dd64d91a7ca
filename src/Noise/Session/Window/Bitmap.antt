-- ===== src/Noise/Session/Window/Bitmap.antt =====
-- What each write to the bitmap does to each bit.
use Prim.Native.Nat.{bit_and, bit_or}
use xelt_vpn.Prelude.{
  ℕ, ◌-◌, ◌%◌, ◌^◌, ◌<◌, ◌≡◌, ap, ◌∙◌, inl, inr, true, false, List, ◌==◌, if◌then◌else◌, length,
  get_or, set, replicate, length-set, get_or-replicate, get_or-set_self, get_or-set_ne, Bool-cases,
  ==→eq, ==→ne, arith,
}
use xelt_vpn.Prelude.Bits.{
  digit, digit-shift, digit-bit_or, digit-bit_and, digit-zero, digit-lt, digit-one, digit-not_one,
  bit_and-one,
}
use xelt_vpn.Noise.Session.Window.{
  word_of, bit_of, set_bit, clear_bit, clear_word, check_bit, n_words, n_bits,
}

check_bit-digit :
    (bm : List ℕ) (j : ℕ) → check_bit bm j ≡ (digit (bit_of j) (get_or bm (word_of j) 0) == 1)
unfolding check_bit
check_bit-digit bm j =
    ap (λ t. t == 1) (bit_and-one _ ∙ digit-shift (bit_of j) (get_or bm (word_of j) 0))

-- A write of the word `w` shows in the bits of that word alone.
check_bit-set :
    (bm : List ℕ) (w v j : ℕ)
    → w < length bm
    → check_bit (set bm w v) j
      ≡ (if word_of j == w then digit (bit_of j) v == 1 else check_bit bm j)
check_bit-set bm w v j h = elim (Bool-cases (word_of j == w)) [
  | inl e ↦
      rw (e, check_bit-digit)
        (ap (λ t. digit (bit_of j) t == 1)
          (ap (λ t. get_or (set bm w v) t 0) (==→eq _ _ e) ∙ get_or-set_self bm w v 0 h))
  | inr n ↦
      rw (n, check_bit-digit (set bm w v) j, check_bit-digit bm j)
        (ap (λ t. digit (bit_of j) t == 1)
          (get_or-set_ne bm w (word_of j) v 0 (λ e. ==→ne _ _ n (omega arith))))
]

-- Two indices at one word and one bit of it are one.
same_place : (i j : ℕ) → word_of j ≡ word_of i → bit_of j ≡ bit_of i → j % n_bits ≡ i % n_bits
same_place i j p q = omega arith

pub check_bit-set_bit :
    (bm : List ℕ) (i j : ℕ)
    → length bm ≡ n_words
    → check_bit (set_bit bm i) j ≡ (if j % n_bits == i % n_bits then true else check_bit bm j)
unfolding set_bit
check_bit-set_bit bm i j h =
    rw
      (check_bit-set bm (word_of i) (bit_or (get_or bm (word_of i) 0) (2 ^ bit_of i)) j
        (omega arith))
      (ground (
        arith,
        check_bit-digit bm j,
        same_place i j,
        digit-bit_or (bit_of j) (get_or bm (word_of i) 0) (2 ^ bit_of i),
        digit-lt (bit_of j) (get_or bm (word_of i) 0),
        digit-one (bit_of i) (bit_of j) (omega arith) (omega arith),
      ))

pub check_bit-clear_bit :
    (bm : List ℕ) (i j : ℕ)
    → length bm ≡ n_words
    → check_bit (clear_bit bm i) j ≡ (if j % n_bits == i % n_bits then false else check_bit bm j)
unfolding clear_bit
check_bit-clear_bit bm i j h =
    rw
      (check_bit-set bm (word_of i) (bit_and (get_or bm (word_of i) 0) (2 ^ 64 - 1 - 2 ^ bit_of i))
        j (omega arith))
      (ground (
        arith,
        check_bit-digit bm j,
        same_place i j,
        digit-bit_and (bit_of j) (get_or bm (word_of i) 0) (2 ^ 64 - 1 - 2 ^ bit_of i),
        digit-lt (bit_of j) (get_or bm (word_of i) 0),
        digit-not_one (bit_of i) (bit_of j) (omega arith) (omega arith),
      ))

pub check_bit-clear_word :
    (bm : List ℕ) (i j : ℕ)
    → length bm ≡ n_words
    → check_bit (clear_word bm i) j ≡ (if word_of j == word_of i then false else check_bit bm j)
unfolding clear_word
check_bit-clear_word bm i j h = rw (check_bit-set bm (word_of i) 0 j (omega arith), digit-zero)

pub check_bit-zeros : (j : ℕ) → check_bit (replicate n_words 0) j ≡ false
check_bit-zeros j =
    check_bit-digit (replicate n_words 0) j
    ∙ ap (λ t. t == 1)
        (ap (digit (bit_of j)) (get_or-replicate n_words (word_of j) 0) ∙ digit-zero (bit_of j))

pub length-set_bit : (bm : List ℕ) (i : ℕ) → length (set_bit bm i) ≡ length bm
unfolding set_bit
length-set_bit bm i = length-set bm _ _

pub length-clear_bit : (bm : List ℕ) (i : ℕ) → length (clear_bit bm i) ≡ length bm
unfolding clear_bit
length-clear_bit bm i = length-set bm _ _

pub length-clear_word : (bm : List ℕ) (i : ℕ) → length (clear_word bm i) ≡ length bm
unfolding clear_word
length-clear_word bm i = length-set bm _ _
