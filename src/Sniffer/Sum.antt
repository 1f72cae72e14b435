-- ===== src/Sniffer/Sum.antt =====
-- check_sum of sniffer/main.c against the checksum of the other programs.
use eltex.Base.{
  ℕ, zero, suc, ◌+◌, ◌*◌, ◌^◌, ◌≤◌, ◌<◌, ◌≡◌, refl, some, List, [], ◌∷◌, ◌++◌, arith, length, All,
  IsByte,
}
use eltex.Checksum.{word_at, fold_carries, complement, checksum}
use eltex.Checksum.Sums.{words, total, sum_of, sum_of_fits}
use eltex.Checksum.Reference.{fold_carries-residue, checksum-sum}
use eltex.Sniffer.{add_parts, check_sum}

add_parts-zero : (buf mem : List ℕ) (s : ℕ) → add_parts buf mem 0 s ≡ some s
unfolding add_parts
add_parts-zero buf [] s = refl
add_parts-zero buf (b ∷ []) s = refl
add_parts-zero buf (lo ∷ hi ∷ rest) s = refl

add_parts-two :
    (buf : List ℕ) (lo hi n : ℕ) (rest : List ℕ) (s : ℕ)
    → s + word_at lo hi < 2 ^ 32
    → add_parts buf (lo ∷ hi ∷ rest) (suc (suc n)) s ≡ add_parts buf rest n (s + word_at lo hi)
unfolding add_parts
add_parts-two buf lo hi n rest s h = ground arith

add_parts-append :
    (buf : List ℕ) (k : ℕ) (mem rest : List ℕ) (s : ℕ)
    → length mem ≡ 2 * k
    → s + sum_of mem < 2 ^ 32
    → add_parts buf (mem ++ rest) (length mem) s ≡ some (s + sum_of mem)
unfolding words total
add_parts-append buf k [] rest s e h = rw (add_parts-zero buf rest s) (ground arith)
add_parts-append buf k (x ∷ []) rest s e h = absurd (omega arith)
add_parts-append buf zero (x ∷ y ∷ mem) rest s e h = absurd (omega arith)
add_parts-append buf (suc k) (x ∷ y ∷ mem) rest s e h =
    rw (add_parts-two buf x y (length mem) (mem ++ rest) s (omega arith)) (
      rw (add_parts-append buf k mem rest (s + word_at x y) (omega arith) (omega arith))
        (ground arith))

fold_carries_fits : (s : ℕ) → s < 2 ^ 32 → fold_carries s < 2 ^ 32
unfolding fold_carries
fold_carries_fits s h = omega arith

-- Where the uninitialised sum happens to start from 0, `check_sum` of an even number of bytes,
-- at most 65535, is what the `checksum` of raw_socket gives.
pub check_sum-checksum :
    (k : ℕ) (mem rest : List ℕ)
    → All IsByte mem
    → length mem ≡ 2 * k
    → length mem ≤ 65535
    → check_sum 0 (mem ++ rest) (length mem) ≡ checksum (mem ++ rest) (length mem)
unfolding check_sum complement
check_sum-checksum k mem rest h e fits =
    let small : sum_of mem < 2 ^ 31 = sum_of_fits mem h fits in
    rw
      (
        checksum-sum mem rest h fits,
        add_parts-append (mem ++ rest) k mem rest 0 e (omega (arith, small)),
      )
      (ground (arith, small, fold_carries-residue (sum_of mem), fold_carries_fits (sum_of mem)))
