-- ===== src/TextManager/Files.antt =====
-- global.h, print_files.c: a panel, the directory under it, and what is printed of it.
pub mod Lines
use eltex.Base.{
  ◌>>=◌, ℕ, zero, suc, Option, none, some, List, [], ◌∷◌, ◌++◌, leb, ◌==◌, if◌then◌else◌, length,
  ◌≡◌, get_elem?, drop,
}
use eltex.Base.Int.{ℤ, pos, negsuc, ◌+ℤ◌, ◌-ℤ◌, eqb_ℤ, sub_ℕ}

-- The parts of struct dirent that are used; `d_type` 4 is DT_DIR.
pub record Dirent : Type 0 where
  pub d_name : List ℕ
  pub d_type : ℕ

-- struct field, without its two windows; `height` below is getmaxy of the inner one.
pub record Field : Type 0 where
  pub current_path : List ℕ
  pub current_region : ℤ
  pub current_line : ℤ

-- The file system: what readdir gives of a directory, in its order, where opendir succeeds, and
-- where chdir to a path leads from a working directory. readdir gives pointers, into memory that it
-- may write anew and that closedir frees: `after_closedir` is what the pointers read as behind
-- closedir, one entry for each, as long as they read at all; nothing says that it is what was there.
pub record FileSystem : Type 0 where
  pub list : List ℕ → Option (List Dirent)
  pub after_closedir : List Dirent → List Dirent
  pub as_many : (entries : List Dirent) → length (after_closedir entries) ≡ length entries
  pub chdir : List ℕ → List ℕ → Option (List ℕ)

-- A directory as its pointers read once it was closed, and that is when they are read.
unfoldable pub listed : FileSystem → List ℕ → Option (List Dirent)
listed fs path = elim (fs.list path) [
  | none ↦ none
  | some entries ↦ some (fs.after_closedir entries)
]

-- struct dirent *d[256]: what the pointers in it read as, with `none` where none was ever written.
abbrev pub d_size : ℕ
d_size = 256

abbrev pub entry_at : List Dirent → ℤ → Option Dirent
entry_at d (pos i) = get_elem? d i
entry_at d (negsuc i) = none

-- How a name is printed.
pub data Style : Type 0 where
  selected directory plain : Style

abbrev pub style_of : Field → ℤ → Dirent → Style
style_of f i e =
    if eqb_ℤ f.current_line (i -ℤ f.current_region)
    then selected
    else if e.d_type == 4
    then directory
    else plain

-- `for (i = current_region; i < getmaxy + current_region; ++i)`, by the rounds that are left.
unfoldable pub print_region : Field → List Dirent → ℤ → ℕ → ℤ → Option (List (List ℕ × Style))
print_region f d file_count zero i = some []
print_region f d file_count (suc left) i =
    let shown = (do
      e ← entry_at d i
      more ← print_region f d file_count left (i +ℤ pos 1)
      some ((e.d_name, style_of f i e) ∷ more)) in
    if eqb_ℤ i file_count then some [] else shown

-- The directory read into `d`, and the index of its last entry; -1 where opendir fails.
-- `none` is a write past the end of `d`.
unfoldable pub read_files : FileSystem → List ℕ → List Dirent → Option (List Dirent × ℤ)
read_files fs path d = elim (listed fs path) [
  | none ↦ some (d, negsuc 0)
  | some entries ↦
      if leb (length entries) d_size
      then some (entries ++ drop (length entries) d, sub_ℕ (length entries) 1)
      else none
]

pub record Listing : Type 0 where
  pub d : List Dirent
  pub file_count : ℤ
  pub lines : List (List ℕ × Style)

unfoldable pub print_files : FileSystem → ℕ → Field → List Dirent → Option Listing
print_files fs height f old = do
  (d, file_count) ← read_files fs f.current_path old
  lines ← print_region f d file_count height f.current_region
  some (record { d = d; file_count = file_count; lines = lines })

-- chdir to the path, then getcwd into it; a failed chdir leaves the working directory.
unfoldable pub clear_path : FileSystem → List ℕ → List ℕ → List ℕ
clear_path fs cwd path = elim (fs.chdir cwd path) [ none ↦ cwd | some there ↦ there ]
