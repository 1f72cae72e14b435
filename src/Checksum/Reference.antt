-- ===== src/Checksum/Reference.antt =====
-- The Internet checksum by its definition, one's complement addition with end-around carry, beside
-- checksum of raw_socket/utils.c and its `long` copy.
use eltex.Base.{
  ℕ, ◌+◌, ◌-◌, ◌%◌, ◌^◌, ◌≤◌, ◌<◌, ◌≡◌, refl, some, List, [], ◌∷◌, ◌++◌, arith, length, All, IsByte,
  ltb, if◌then◌else◌, u16,
}
use eltex.Checksum.{word_at, fold_carries, complement, checksum, checksum_long}
use eltex.Checksum.Sums.{words, total, sum_of, sum_of_fits, add_words-append}

-- One's complement addition of two 16-bit words: a carry out of the top comes back in below.
unfoldable pub carry_add : ℕ → ℕ → ℕ
carry_add a b = if ltb 65535 (a + b) then a + b - 65535 else a + b

unfoldable pub ones_sum : List ℕ → ℕ
ones_sum [] = 0
ones_sum (w ∷ ws) = carry_add w (ones_sum ws)

-- The sum reduced to 16 bits as one's complement does it: 0 only for 0.
abbrev pub residue : ℕ → ℕ
residue s = if ltb 0 s then (s - 1) % 65535 + 1 else 0

carry_add-residue : (w s : ℕ) → w ≤ 65535 → carry_add w (residue s) ≡ residue (w + s)
unfolding carry_add
carry_add-residue w s h = ground arith

pub ones_sum-residue : (mem : List ℕ) → All IsByte mem → ones_sum (words mem) ≡ residue (sum_of mem)
unfolding ones_sum words total
ones_sum-residue [] h = refl
ones_sum-residue (b ∷ []) h = carry_add-residue (word_at b 0) 0 (omega arith)
ones_sum-residue (lo ∷ hi ∷ rest) h =
    rw (ones_sum-residue rest h.1.1) (carry_add-residue (word_at lo hi) (sum_of rest) (omega arith))

pub fold_carries-residue : (s : ℕ) → s < 2 ^ 32 → u16 (fold_carries s) ≡ residue s
unfolding fold_carries
fold_carries-residue s h = ground arith

pub checksum-sum :
    (mem rest : List ℕ)
    → All IsByte mem
    → length mem ≤ 65535
    → checksum (mem ++ rest) (length mem) ≡ some (65535 - residue (sum_of mem))
unfolding checksum complement
checksum-sum mem rest h fits =
    rw (add_words-append (2 ^ 31) mem rest 0 (omega (arith, sum_of_fits mem h fits)))
      (ground (arith, fold_carries-residue (sum_of mem), sum_of_fits mem h fits))

-- ping's sum in `long` and raw_socket's in `int` give the same checksum up to 65535 bytes.
pub checksum_long-sum :
    (mem rest : List ℕ)
    → All IsByte mem
    → length mem ≤ 65535
    → checksum_long (mem ++ rest) (length mem) ≡ some (65535 - residue (sum_of mem))
unfolding checksum_long complement
checksum_long-sum mem rest h fits =
    rw (add_words-append (2 ^ 63) mem rest 0 (omega (arith, sum_of_fits mem h fits)))
      (ground (arith, fold_carries-residue (sum_of mem), sum_of_fits mem h fits))

-- Of any run of at most 65535 bytes, whatever follows it in memory, `checksum` and the `long`
-- version of ping and traceroute both return, without overflow and without reading past the run,
-- the complement of the one's complement sum of its 16-bit words.
pub checksum-ones_sum :
    (mem rest : List ℕ)
    → All IsByte mem
    → length mem ≤ 65535
    → (checksum (mem ++ rest) (length mem) ≡ some (65535 - ones_sum (words mem)))
      × (checksum_long (mem ++ rest) (length mem) ≡ some (65535 - ones_sum (words mem)))
checksum-ones_sum mem rest h fits =
    rw (ones_sum-residue mem h) (checksum-sum mem rest h fits, checksum_long-sum mem rest h fits)
