-- ===== src/Checksum/Sums.antt =====
-- What the summing loop adds up, and that it runs without undefined behaviour.
use eltex.Base.{
  ℕ, suc, ◌+◌, ◌*◌, ◌^◌, ◌≤◌, ◌<◌, ◌≡◌, refl, some, List, [], ◌∷◌, ◌++◌, arith, length, All, IsByte,
}
use eltex.Checksum.{add_words, word_at}

-- The 16-bit words of a run of bytes, an odd last byte with a zero behind it.
unfoldable pub words : List ℕ → List ℕ
words [] = []
words (b ∷ []) = word_at b 0 ∷ []
words (lo ∷ hi ∷ rest) = word_at lo hi ∷ words rest

unfoldable pub total : List ℕ → ℕ
total [] = 0
total (w ∷ ws) = w + total ws

abbrev pub sum_of : List ℕ → ℕ
sum_of mem = total (words mem)

pub sum_of-le : (mem : List ℕ) → All IsByte mem → 2 * sum_of mem ≤ 65535 * (length mem + 1)
unfolding words total
sum_of-le [] h = omega arith
sum_of-le (b ∷ []) h = omega arith
sum_of-le (lo ∷ hi ∷ rest) h = omega (arith, sum_of-le rest h.1.1)

pub sum_of_fits : (mem : List ℕ) → All IsByte mem → length mem ≤ 65535 → sum_of mem < 2 ^ 31
sum_of_fits mem h fits = omega (arith, sum_of-le mem h)

add_words-zero : (limit : ℕ) (mem : List ℕ) (s : ℕ) → add_words limit mem 0 s ≡ some s
unfolding add_words
add_words-zero limit [] s = refl
add_words-zero limit (b ∷ []) s = refl
add_words-zero limit (lo ∷ hi ∷ rest) s = refl

add_words-one :
    (limit b : ℕ) (rest : List ℕ) (s : ℕ)
    → s + (b + 256 * 0) < limit
    → add_words limit (b ∷ rest) 1 s ≡ some (s + (b + 256 * 0))
unfolding add_words
add_words-one limit b [] s h = ground arith
add_words-one limit b (c ∷ rest) s h = ground arith

add_words-two :
    (limit lo hi n : ℕ) (rest : List ℕ) (s : ℕ)
    → s + word_at lo hi < limit
    → add_words limit (lo ∷ hi ∷ rest) (suc (suc n)) s ≡ add_words limit rest n (s + word_at lo hi)
unfolding add_words
add_words-two limit lo hi n rest s h = ground arith

-- Over a whole run of bytes the loop adds the words of the run, whatever lies behind it.
pub add_words-append :
    (limit : ℕ) (mem rest : List ℕ) (s : ℕ)
    → s + sum_of mem < limit
    → add_words limit (mem ++ rest) (length mem) s ≡ some (s + sum_of mem)
unfolding words total
add_words-append limit [] rest s h = rw (add_words-zero limit rest s) (ground arith)
add_words-append limit (b ∷ []) rest s h =
    rw (add_words-one limit b rest s (omega arith)) (ground arith)
add_words-append limit (lo ∷ hi ∷ mem) rest s h =
    rw (add_words-two limit lo hi (length mem) (mem ++ rest) s (omega arith))
      (rw (add_words-append limit mem rest (s + word_at lo hi) (omega arith)) (ground arith))
