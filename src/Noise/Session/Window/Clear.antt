-- ===== src/Noise/Session/Window/Clear.antt =====
-- The three clearing loops of `mark_did_receive`: what is left of the window when they stop.
use Prim.Native.Nat.{bit_and}
use xelt_vpn.Prelude.{
  ℕ, zero, suc, ◌+◌, ◌-◌, ◌%◌, ◌≤◌, ◌<◌, ◌≡◌, subst, ◌∙◌, ◌⊎◌, inl, inr, true, not, ◌&&◌, List, ltb,
  leb, ◌==◌, length, length-replicate, Bool-cases, ltb→lt, lt→ltb, arith,
}
use xelt_vpn.Prelude.Bits.{bit_and-align}
use xelt_vpn.Noise.Session.Window.{
  u64_mod, word_size, n_words, n_bits, add_u64, clear_bit, clear_word, check_bit, clear_to_word,
  clear_words, clear_rest, skip,
}
use xelt_vpn.Noise.Session.Window.Bitmap.{
  check_bit-clear_bit, check_bit-clear_word, check_bit-zeros, length-clear_bit, length-clear_word,
}

-- The counters from `next` up to `i` are clear in `bm`, and those below `next` are as in `old`, so
-- far as the window that ends at `counter` reaches.
pub record Cleared (old : List ℕ) (next counter : ℕ) (bm : List ℕ) (i : ℕ) : Type 0 where
  pub len : length bm ≡ n_words
  pub low : next ≤ i
  pub high : i ≤ counter
  pub bits :
      (j : ℕ) → counter < j + n_bits → j < i → check_bit bm j ≡ (ltb j next && check_bit old j)

-- Where the first loop may stop.
abbrev IsAligned : ℕ → ℕ → Type 0
IsAligned counter i = (i % word_size ≡ 0) ⊎ (i ≡ counter)

module _ (old : List ℕ) (next counter : ℕ) (small : counter + n_bits < u64_mod) where
  -- The step of the word loop, at a multiple of 64.
  next_word :
      (i : ℕ)
      → i % word_size ≡ 0
      → i + word_size < counter
      → bit_and (add_u64 i word_size) (u64_mod - word_size) ≡ i + word_size
  next_word i a h = bit_and-align (add_u64 i word_size) (omega arith) ∙ omega arith

  clear_bit-Cleared :
      (bm : List ℕ) (i : ℕ)
      → Cleared old next counter bm i
      → i < counter
      → Cleared old next counter (clear_bit bm i) (add_u64 i 1)
  clear_bit-Cleared bm i c h = record {
    len = length-clear_bit bm i ∙ c.len;
    low = omega (arith, c.low);
    high = omega arith;
    bits = λ j hj lt. rw (check_bit-clear_bit bm i j c.len) (elim (Bool-cases (ltb j i)) [
      | inl below ↦ ground (arith, c.bits j hj (ltb→lt _ _ below))
      | inr above ↦ ground (arith, c.low)
    ]);
  }

  clear_word-Cleared :
      (bm : List ℕ) (i : ℕ)
      → Cleared old next counter bm i
      → i % word_size ≡ 0
      → i + word_size < counter
      → Cleared old next counter
          (clear_word bm i)
          (bit_and (add_u64 i word_size) (u64_mod - word_size))
  clear_word-Cleared bm i c a h = rw e (record {
    len = length-clear_word bm i ∙ c.len;
    low = omega (arith, c.low);
    high = omega arith;
    bits = λ j hj lt. rw (check_bit-clear_word bm i j c.len) (elim (Bool-cases (ltb j i)) [
      | inl below ↦ ground (arith, c.bits j hj (ltb→lt _ _ below))
      | inr above ↦ ground (arith, c.low)
    ]);
  })
    where
      e : bit_and (add_u64 i word_size) (u64_mod - word_size) ≡ i + word_size
      e = next_word i a h

  clear_to_word-Cleared :
      (fuel : ℕ) (bm : List ℕ) (i : ℕ)
      → Cleared old next counter bm i
      → counter ≤ i + fuel
      → let r = clear_to_word fuel bm i counter in
        Cleared old next counter r.0 r.1 × IsAligned counter r.1
  unfolding clear_to_word
  clear_to_word-Cleared zero bm i c f = (c, inr (omega (arith, c.high)))
  clear_to_word-Cleared (suc fuel) bm i c f =
      elim (Bool-cases (not (i % word_size == 0) && ltb i counter)) [
        | inl e ↦
            rw (e, clear_to_word)
              (clear_to_word-Cleared fuel _ _ (clear_bit-Cleared bm i c (ground arith))
                (ground arith))
        | inr e ↦ rw (e, clear_to_word) (c, ground (arith, c.high))
      ]

  clear_words-Cleared :
      (fuel : ℕ) (bm : List ℕ) (i : ℕ)
      → Cleared old next counter bm i
      → IsAligned counter i
      → counter ≤ i + fuel
      → let r = clear_words fuel bm i counter in Cleared old next counter r.0 r.1
  unfolding clear_words
  clear_words-Cleared zero bm i c a f = c
  clear_words-Cleared (suc fuel) bm i c a f =
      elim (Bool-cases (ltb (add_u64 i word_size) counter)) [
        | inl e ↦
            rw (e, clear_words)
              (clear_words-Cleared fuel _ _ (clear_word-Cleared bm i c (zero e) (more e))
                (inl (rw (next_word i (zero e) (more e)) (omega (arith, zero e))))
                (rw (next_word i (zero e) (more e)) (omega arith)))
        | inr e ↦ rw (e, clear_words) c
      ]
    where
      more : ltb (add_u64 i word_size) counter ≡ true → i + word_size < counter
      more e = ground (arith, c.high)

      zero : ltb (add_u64 i word_size) counter ≡ true → i % word_size ≡ 0
      zero e = ground (arith, c.high)

  clear_rest-Cleared :
      (fuel : ℕ) (bm : List ℕ) (i : ℕ)
      → Cleared old next counter bm i
      → counter ≤ i + fuel
      → let r = clear_rest fuel bm i counter in Cleared old next counter r.0 counter
  unfolding clear_rest
  clear_rest-Cleared zero bm i c f = subst (Cleared old next counter bm) stop c
    where
      stop : i ≡ counter
      stop = omega (arith, c.high)
  clear_rest-Cleared (suc fuel) bm i c f = elim (Bool-cases (ltb i counter)) [
    | inl e ↦
        rw (e, clear_rest)
          (clear_rest-Cleared fuel _ _ (clear_bit-Cleared bm i c (ltb→lt _ _ e)) (ground arith))
    | inr e ↦ rw (e, clear_rest) (subst (Cleared old next counter bm) (ground (arith, c.high)) c)
  ]

  -- With `next` no more than the window's size behind, the loops reach `counter`.
  clear_loops-Cleared :
      (bm : List ℕ)
      → Cleared old next counter bm next
      → counter ≤ next + n_bits
      → let r₁ = clear_to_word n_bits bm next counter in
        let r₂ = clear_words n_bits r₁.0 r₁.1 counter in
        Cleared old next counter (clear_rest n_bits r₂.0 r₂.1 counter).0 counter
  clear_loops-Cleared bm c f =
      let c₁ = clear_to_word-Cleared n_bits bm next c f in
      let c₂ = clear_words-Cleared n_bits _ _ c₁.0 c₁.1 (omega (arith, c₁.0.low)) in
      clear_rest-Cleared n_bits _ _ c₂ (omega (arith, c₂.low))

  pub skip-Cleared :
      length old ≡ n_words
      → next ≤ counter
      → Cleared old next counter (skip old next counter) counter
  unfolding skip
  skip-Cleared len le = elim (Bool-cases (leb n_bits (counter - next))) [
    | inl far ↦ rw far (record {
      len = length-replicate {A = ℕ} n_words 0;
      low = le;
      high = omega arith;
      bits = λ j hj lt. rw (check_bit-zeros j) (ground arith);
    })
    | inr near ↦ rw near (
        clear_loops-Cleared old
          (record {
            len = len;
            low = omega arith;
            high = le;
            bits = λ j hj lt. rw (lt→ltb j next lt);
          })
          (ground arith))
  ]
