-- ===== src/Noise/Session/Window.antt =====
-- `ReceivingKeyCounterValidator` of protocol/boringtun/src/noise/session.rs: the anti-replay window.
-- The 1024 bits are sixteen 64-bit words. Arithmetic on `u64` wraps, as in a release build.
mod Bitmap
mod Clear
pub mod History
pub mod Refine
pub mod Replay
use Prim.Native.Nat.{bit_and, bit_or}
use xelt_vpn.Prelude.{
  ℕ, zero, suc, ◌+◌, ◌-◌, ◌/◌, ◌%◌, ◌^◌, Bool, true, false, not, ◌&&◌, List, [], ◌∷◌, ltb, leb,
  ◌==◌, if◌then◌else◌, get_or, set, replicate,
}
use xelt_vpn.Noise.Errors.{Result, ok, err, invalid_counter, duplicate_counter}

abbrev pub u64_mod : ℕ
u64_mod = 2 ^ 64

abbrev pub word_size : ℕ
word_size = 64

abbrev pub n_words : ℕ
n_words = 16

abbrev pub n_bits : ℕ
n_bits = 1024

-- `a + b` on `u64`.
abbrev pub add_u64 : ℕ → ℕ → ℕ
add_u64 a b = (a + b) % u64_mod

pub record ReceivingKeyCounterValidator : Type 0 where
  pub next : ℕ
  pub receive_cnt : ℕ
  pub bitmap : List ℕ

-- `Default::default()`.
abbrev pub fresh : ReceivingKeyCounterValidator
fresh = record { next = 0; receive_cnt = 0; bitmap = replicate n_words 0 }

-- `word` and `bit` of the four methods below.
abbrev pub word_of : ℕ → ℕ
word_of idx = idx % n_bits / word_size

abbrev pub bit_of : ℕ → ℕ
bit_of idx = idx % n_bits % word_size

unfoldable pub set_bit : List ℕ → ℕ → List ℕ
set_bit bm idx = set bm (word_of idx) (bit_or (get_or bm (word_of idx) 0) (2 ^ bit_of idx))

-- `!(1u64 << bit)` is `2 ^ 64 - 1 - 2 ^ bit`.
unfoldable pub clear_bit : List ℕ → ℕ → List ℕ
clear_bit bm idx =
    set bm (word_of idx) (bit_and (get_or bm (word_of idx) 0) (u64_mod - 1 - 2 ^ bit_of idx))

unfoldable pub clear_word : List ℕ → ℕ → List ℕ
clear_word bm idx = set bm (word_of idx) 0

unfoldable pub check_bit : List ℕ → ℕ → Bool
check_bit bm idx = bit_and (get_or bm (word_of idx) 0 / 2 ^ bit_of idx) 1 == 1

unfoldable pub will_accept : ReceivingKeyCounterValidator → ℕ → Result (Unit {0})
will_accept w counter =
    if leb w.next counter
    then ok tt
    else if ltb (add_u64 counter n_bits) w.next
    then err invalid_counter
    else if not (check_bit w.bitmap counter)
    then ok tt
    else err duplicate_counter

-- `while i % WORD_SIZE != 0 && i < counter`. The first argument of the loops is fuel.
unfoldable pub clear_to_word : ℕ → List ℕ → ℕ → ℕ → List ℕ × ℕ
clear_to_word zero bm i counter = (bm, i)
clear_to_word (suc fuel) bm i counter = elim (not (i % word_size == 0) && ltb i counter) [
  | true ↦ clear_to_word fuel (clear_bit bm i) (add_u64 i 1) counter
  | false ↦ (bm, i)
]

-- `while i + WORD_SIZE < counter`.
unfoldable pub clear_words : ℕ → List ℕ → ℕ → ℕ → List ℕ × ℕ
clear_words zero bm i counter = (bm, i)
clear_words (suc fuel) bm i counter = elim (ltb (add_u64 i word_size) counter) [
  | true ↦
      clear_words fuel (clear_word bm i) (bit_and (add_u64 i word_size) (u64_mod - word_size))
        counter
  | false ↦ (bm, i)
]

-- `while i < counter`.
unfoldable pub clear_rest : ℕ → List ℕ → ℕ → ℕ → List ℕ × ℕ
clear_rest zero bm i counter = (bm, i)
clear_rest (suc fuel) bm i counter = elim (ltb i counter) [
  | true ↦ clear_rest fuel (clear_bit bm i) (add_u64 i 1) counter
  | false ↦ (bm, i)
]

-- The bits of the counters from `next` up to `counter` are cleared; a gap is below `n_bits` where the
-- loops run, so this is fuel enough for each of them.
unfoldable pub skip : List ℕ → ℕ → ℕ → List ℕ
skip bm next counter =
    if leb n_bits (counter - next)
    then replicate n_words 0
    else (let (bm₁, i₁) = clear_to_word n_bits bm next counter in
        let (bm₂, i₂) = clear_words n_bits bm₁ i₁ counter in (clear_rest n_bits bm₂ i₂ counter).0)

unfoldable pub mark_did_receive :
    ReceivingKeyCounterValidator → ℕ → Result (Unit {0}) × ReceivingKeyCounterValidator
mark_did_receive w counter =
    if ltb (add_u64 counter n_bits) w.next
    then (err invalid_counter, w)
    else if counter == w.next
    then (ok tt, record w { bitmap = set_bit w.bitmap counter; next = add_u64 w.next 1 })
    else if ltb counter w.next
    then (if check_bit w.bitmap counter
        then (err invalid_counter, w)
        else (ok tt, record w { bitmap = set_bit w.bitmap counter }))
    else (
      ok tt,
      record w {
        bitmap = set_bit (skip w.bitmap w.next counter) counter;
        next = add_u64 counter 1;
      },
    )
