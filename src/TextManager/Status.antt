-- ===== src/TextManager/Status.antt =====
-- copy.c, the line that show_progress draws. The width of the window, an array of that many bytes,
-- what it held, and the filled part of the width, which is computed in doubles, are parameters.
-- Not modelled: numbers that are negative, which only an int that was never stored can be.
pub mod Cells
use eltex.Base.{
  ◌>>=◌, ℕ, Bool, zero, suc, ◌+◌, ◌-◌, Option, none, some, List, [], ◌∷◌, ◌++◌, ltb, if◌then◌else◌,
  length, get_elem?, set, drop, replicate,
}
use eltex.Cstring.{strlen, text}
use eltex.Decimal.{decimal}

-- "%.3d"
abbrev pub three_digits : ℕ → List ℕ
three_digits n = replicate (3 - length (decimal n)) b'0' ++ decimal n

abbrev pub copying : List ℕ
copying = b']' ∷ b'C' ∷ b'o' ∷ b'p' ∷ b'y' ∷ b'i' ∷ b'n' ∷ b'g' ∷ b':' ∷ 32 ∷ 39 ∷ []

abbrev pub between : List ℕ
between = 39 ∷ 32 ∷ b't' ∷ b'o' ∷ 32 ∷ 39 ∷ []

-- "[%.3d]Copying: '%s' to '%s'"
abbrev pub message : ℕ → List ℕ → List ℕ → List ℕ
message percent source destination =
    b'[' ∷ three_digits percent ++ copying ++ text source ++ between ++ text destination ++ 39 ∷ []

-- `for (i = strlen(status); i < width; ++i)`, by the rounds that are left.
unfoldable pub pad : ℕ → ℕ → List ℕ → List ℕ
pad zero i status = status
pad (suc left) i status = pad left (suc i) (set status i 32)

-- `for (i = 0; i < width; ++i)`: each byte, and whether it is drawn in the other colours.
unfoldable pub cells : ℕ → ℕ → ℕ → List ℕ → Option (List (ℕ × Bool))
cells zero i fill status = some []
cells (suc left) i fill status = do
  c ← get_elem? status i
  more ← cells left (suc i) fill status
  some ((c, ltb i fill) ∷ more)

-- One round of the loop of show_progress; `none` is a write behind the array.
unfoldable pub show_status : ℕ → ℕ → List ℕ → ℕ → List ℕ → List ℕ → Option (List (ℕ × Bool))
show_status width fill held percent source destination =
    let line = message percent source destination in
    let status = line ++ 0 ∷ drop (suc (length line)) held in
    let drawn = strlen status >>= λ n. cells width 0 fill (pad (width - n) n status) in
    if ltb (length line) width then drawn else none
