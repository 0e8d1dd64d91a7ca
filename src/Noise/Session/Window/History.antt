-- ===== src/Noise/Session/Window/History.antt =====
-- The contract of the anti-replay window, over the list of all counters accepted so far.
use xelt_vpn.Prelude.{
  ℕ, ◌+◌, ◌≤◌, ◌<◌, max, ◌≡◌, Bool, true, false, not, ◌&&◌, ◌||◌, List, [], ◌∷◌, leb, ◌==◌,
  if◌then◌else◌, length, arith,
}
use xelt_vpn.Noise.Session.Window.{ReceivingKeyCounterValidator, n_words, n_bits, check_bit}

-- One more than the highest counter accepted.
unfoldable pub top : List ℕ → ℕ
top [] = 0
top (c ∷ h) = max (c + 1) (top h)

unfoldable pub seen : List ℕ → ℕ → Bool
seen [] j = false
seen (c ∷ h) j = c == j || seen h j

-- A counter is good if it is new and not more than the window's size behind.
unfoldable pub accepts : List ℕ → ℕ → Bool
accepts h c = not (seen h c) && leb (top h) (c + n_bits)

unfoldable pub extend : List ℕ → ℕ → List ℕ
extend h c = if accepts h c then c ∷ h else h

unfoldable pub extend_all : List ℕ → List ℕ → List ℕ
extend_all h [] = h
extend_all h (c ∷ cs) = extend_all (extend h c) cs

-- The window stands for a history: it holds the top, and the bits of the counters in reach.
pub record Stands (w : ReceivingKeyCounterValidator) (h : List ℕ) : Type 0 where
  pub len : length w.bitmap ≡ n_words
  pub next_top : w.next ≡ top h
  pub bits : (j : ℕ) → top h ≤ j + n_bits → j < top h → check_bit w.bitmap j ≡ seen h j

pub seen-lt-top : (h : List ℕ) (j : ℕ) → seen h j ≡ true → j < top h
unfolding seen top
seen-lt-top [] j e = ground arith
seen-lt-top (c ∷ h) j e = ground (arith, seen-lt-top h j)

-- What was seen stays seen, so it is not accepted again.
pub seen-extend_all : (h cs : List ℕ) (c : ℕ) → seen h c ≡ true → seen (extend_all h cs) c ≡ true
unfolding extend_all extend seen
seen-extend_all h [] c e = e
seen-extend_all h (d ∷ cs) c e = seen-extend_all (extend h d) cs c (ground arith)
