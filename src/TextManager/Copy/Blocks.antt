-- ===== src/TextManager/Copy/Blocks.antt =====
-- What the copy of copy.c keeps of a file, and what the dialogue of ui.c answers.
use eltex.Base.{
  take-nil, ℕ, zero, suc, ◌+◌, ◌*◌, ◌-◌, ◌/◌, ◌%◌, ◌≤◌, ◌<◌, ◌≡◌, ◌≢◌, ap, ◌∙◌, some, List, [], ◌∷◌,
  ◌++◌, arith, length, length-drop, take, drop, ltb, false, All, ◌==◌, if◌then◌else◌,
}
use mathlib.Core.List.{append_assoc, append-nil}
use native.Mathlib.Decide.{dec_lt}
use eltex.TextManager.Copy.{copy_blocks, popup_turn, popup_loop, popup}

pub take-drop-take : (n m : ℕ) (xs : List ℕ) → take n xs ++ take m (drop n xs) ≡ take (n + m) xs
take-drop-take zero m xs = let same : 0 + m ≡ m = omega arith in rw same
take-drop-take (suc n) m [] =
    let next : suc n + m ≡ suc (n + m) = omega arith in rw (next, take-nil m)
take-drop-take (suc n) m (x ∷ xs) =
    let next : suc n + m ≡ suc (n + m) = omega arith in rw next (ap (◌∷◌ x) (take-drop-take n m xs))

whole_block : (n : ℕ) → 1024 ≤ n → ltb n 1024 ≡ false
whole_block n h = ground arith

copy_blocks_next :
    (fuel : ℕ) (src dst : List ℕ)
    → 1024 ≤ length src
    → copy_blocks (suc fuel) src dst ≡ copy_blocks fuel (drop 1024 src) (dst ++ take 1024 src)
unfolding copy_blocks
copy_blocks_next fuel src dst h = rw (whole_block (length src) h)

pub copy_blocks-take :
    (fuel : ℕ) (src dst : List ℕ)
    → length src < fuel
    → copy_blocks fuel src dst ≡ some (dst ++ take (1024 * (length src / 1024)) src)
unfolding copy_blocks
copy_blocks-take zero src dst enough = absurd (omega arith)
copy_blocks-take (suc fuel) src dst enough = elim (dec_lt (length src) 1024) [
  | yes short ↦
      let none_whole : 1024 * (length src / 1024) ≡ 0 = omega arith in
      rw none_whole (ground (arith, append-nil dst))
  | no long ↦
      let left : length (drop 1024 src) ≡ length src - 1024 = length-drop 1024 src in
      let later =
        copy_blocks-take fuel (drop 1024 src) (dst ++ take 1024 src) (omega (arith, left)) in
      let sizes : 1024 * (length src / 1024) ≡ 1024 + 1024 * (length (drop 1024 src) / 1024) =
        omega (arith, left) in
      let whole : (dst ++ take 1024 src)
            ++ take (1024 * (length (drop 1024 src) / 1024)) (drop 1024 src)
          ≡ dst ++ take (1024 * (length src / 1024)) src =
        rw sizes (
          append_assoc dst (take 1024 src)
            (take (1024 * (length (drop 1024 src) / 1024)) (drop 1024 src))
          ∙ ap (◌++◌ dst) (take-drop-take 1024 (1024 * (length (drop 1024 src) / 1024)) src)) in
      copy_blocks_next fuel src dst (omega arith) ∙ later ∙ ap (λ (r : List ℕ). some r) whole
]

-- How often Tab was pressed.
unfoldable pub tabs : List ℕ → ℕ
tabs [] = 0
tabs (c ∷ keys) = (if c == 9 then 1 else 0) + tabs keys

popup_loop-tabs :
    (keys rest : List ℕ) (b : ℕ)
    → All (λ c. c ≢ 10) keys
    → b < 2
    → popup_loop b (keys ++ 10 ∷ rest) ≡ some ((b + tabs keys) % 2)
unfolding popup_turn popup_loop tabs
popup_loop-tabs [] rest b h k = ground arith
popup_loop-tabs (c ∷ keys) rest b h k = ground (
  arith,
  popup_loop-tabs keys rest b h.1 k,
  popup_loop-tabs keys rest ((b + 1) % 2) h.1 (omega arith),
)

-- Of keys typed up to an Enter, the dialogue returns "yes" exactly if Tab was pressed an even number
-- of times before it; what is typed afterwards does not matter.
pub popup-tabs :
    (keys rest : List ℕ)
    → All (λ c. c ≢ 10) keys
    → popup (keys ++ 10 ∷ rest) ≡ some ((1 + tabs keys) % 2)
unfolding popup
popup-tabs keys rest h = popup_loop-tabs keys rest 1 h (omega arith)
