-- ===== src/TextManager/Redraw.antt =====
-- ui.c, total_refresh: after the dialogue both panels are listed again, each into an array of its own of
-- 2048 entries, of which nothing is kept. Not modelled: the frames that are drawn.
use eltex.Base.{
  Option-cases, inl, inr, drop-nil, refl, ℕ, ◌≤◌, ◌≡◌, true, Option, none, some, List, [], leb,
  if◌then◌else◌, ◌>>=◌, length, drop, arith,
}
use mathlib.Core.List.{append-nil}
use eltex.Base.Int.{negsuc, sub_ℕ}
use eltex.TextManager.Files.{
  Dirent, Field, FileSystem, listed, Style, print_region, read_files, print_files,
}

-- struct dirent *d[2048].
abbrev pub d_size : ℕ
d_size = 2048

-- print_files with that array, of which nothing was written before.
unfoldable pub redraw : FileSystem → ℕ → Field → Option (List (List ℕ × Style))
redraw fs height f = elim (listed fs f.current_path) [
  | none ↦ print_region f [] (negsuc 0) height f.current_region
  | some entries ↦
      let lines = print_region f entries (sub_ℕ (length entries) 1) height f.current_region in
      if leb (length entries) d_size then lines else none
]

unfoldable pub total_refresh :
    FileSystem → ℕ → Field → Field → Option (List (List ℕ × Style) × List (List ℕ × Style))
total_refresh fs height left right = do
  a ← redraw fs height left
  b ← redraw fs height right
  some (a, b)

redraw-print_files :
    (fs : FileSystem) (height : ℕ) (f : Field) (entries : List Dirent)
    → listed fs f.current_path ≡ some entries
    → length entries ≤ 256
    → print_files fs height f [] ≡ (
        redraw fs height f >>= λ lines.
        some (record { d = entries; file_count = sub_ℕ (length entries) 1; lines = lines }))
unfolding redraw print_files read_files
redraw-print_files fs height f entries given few =
    let enough : leb (length entries) 2048 ≡ true = ground arith in
    let enough' : leb (length entries) 256 ≡ true = ground arith in
    let none_left : drop {A = Dirent} (length entries) [] ≡ [] = drop-nil (length entries) in
    rw (print_files, read_files, redraw, given, enough, enough', none_left, append-nil entries) refl

-- Of directories that can be read and have at most 256 entries each, total_refresh prints of both
-- panels the lines that print_files prints with the array of navigate, and fails where that does.
pub total_refresh-print_files :
    (fs : FileSystem) (height : ℕ) (left right : Field) (those these : List Dirent)
    → listed fs left.current_path ≡ some those
    → listed fs right.current_path ≡ some these
    → length those ≤ 256
    → length these ≤ 256
    → total_refresh fs height left right ≡ (
        print_files fs height left [] >>= λ a.
        print_files fs height right [] >>= λ b. some (a.lines, b.lines))
unfolding total_refresh
total_refresh-print_files fs height left right those these there here few few' =
    let a = redraw-print_files fs height left those there few in
    let b = redraw-print_files fs height right these here few' in
    rw (a, b)
      (elim (Option-cases (redraw fs height left)) [
        | inl none_first ↦ rw none_first refl
        | inr (x, first) ↦ elim (Option-cases (redraw fs height right)) [
          | inl none_second ↦ rw (first, none_second) refl
          | inr (y, second) ↦ rw (first, second) refl
        ]
      ])
