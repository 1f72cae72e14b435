-- ===== src/TextManager/Navigate.antt =====
-- navigate.c: what one key does. The height of a panel is getmaxy of its inner window; the numbers
-- are small, so `int` is ℤ. A path is kept in 2048 bytes, and `none` is a store past its end, or a
-- read of an entry of `d` that is not there. The dialogue is that of Copy.
pub mod Cursor
pub mod Panels
pub mod Rounds
pub mod Loop
pub mod Sessions
use eltex.Base.{
  Bool, ◌||◌, true, false, ◌>>=◌, ℕ, ◌+◌, ◌%◌, Option, none, some, List, [], ◌∷◌, ◌++◌, ltb, ◌==◌,
  if◌then◌else◌, length,
}
use eltex.Base.Int.{ℤ, pos, ◌+ℤ◌, ◌-ℤ◌, ltb_ℤ, eqb_ℤ}
use eltex.TextManager.Copy.{Turn, goes_on_with, answered, popup_turn}
use eltex.TextManager.Redraw.{total_refresh}
use eltex.TextManager.Files.{Dirent, Field, FileSystem, entry_at, print_files, clear_path}

-- The keys that the switch tells apart: j, k, d, u and their named keys, Enter or l, h, y, Tab;
-- q ends the loop.
pub data Key : Type 0 where
  down up page_down page_up enter parent yank tab quit other : Key

-- What getch gives: a character, Tab and Enter among them, or a code of <curses.h>, which are
-- KEY_DOWN, KEY_UP, KEY_NPAGE and KEY_PPAGE.
unfoldable pub key_of : ℕ → Key
key_of c =
    if (c == 258) || (c == b'j')
    then down
    else if (c == 259) || (c == b'k')
    then up
    else if (c == 338) || (c == b'd')
    then page_down
    else if (c == 339) || (c == b'u')
    then page_up
    else if (c == 10) || (c == b'l')
    then enter
    else if c == b'h'
    then parent
    else if c == b'y'
    then yank
    else if c == 9
    then tab
    else if c == b'q'
    then quit
    else other

-- min of navigate.c.
unfoldable pub min : ℤ → ℤ → ℤ
min a b = if ltb_ℤ a b then a else b

-- The last line that can be selected when the region is at the top of the directory.
unfoldable pub files_per_region : ℤ → ℤ → ℤ
files_per_region height file_count =
    let n = if ltb_ℤ file_count height then file_count else height -ℤ pos 1 in
    if eqb_ℤ file_count n then n -ℤ pos 1 else n

-- `if (current_region > file_count - getmaxy)`, with the clamp to 0 and the jump to the last line.
abbrev pub clamp_region : ℤ → ℤ → Field → Field
clamp_region height file_count f =
    let last = file_count -ℤ height in
    if ltb_ℤ last f.current_region
    then record f {
      current_region = if ltb_ℤ last (pos 0) then pos 0 else last;
      current_line = min height (files_per_region height file_count);
    }
    else f

-- KEY_DOWN, j.
unfoldable pub line_down : ℤ → ℤ → Field → Field
unfolding min
line_down height file_count f =
    let next = f.current_line +ℤ pos 1 in
    if ltb_ℤ (height -ℤ pos 1) next
    then clamp_region height file_count
        (record f { current_line = height -ℤ pos 1; current_region = f.current_region +ℤ pos 1 })
    else if ltb_ℤ (files_per_region height file_count) next
    then record f { current_line = files_per_region height file_count }
    else record f { current_line = next }

-- KEY_UP, k.
unfoldable pub line_up : Field → Field
line_up f =
    let next = f.current_line -ℤ pos 1 in
    let above = f.current_region -ℤ pos 1 in
    if ltb_ℤ next (pos 0)
    then record f {
      current_line = pos 0;
      current_region = if ltb_ℤ above (pos 0) then pos 0 else above;
    }
    else record f { current_line = next }

-- KEY_NPAGE, d.
unfoldable pub region_down : ℤ → ℤ → Field → Field
unfolding min
region_down height file_count f =
    clamp_region height file_count (record f { current_region = f.current_region +ℤ height })

-- KEY_PPAGE, u.
unfoldable pub region_up : ℤ → Field → Field
region_up height f =
    let above = f.current_region -ℤ height in
    if ltb_ℤ above (pos 0)
    then record f { current_region = pos 0; current_line = pos 0 }
    else record f { current_region = above }

-- strcat into `current_path`.
abbrev pub append_path : List ℕ → List ℕ → Option (List ℕ)
append_path path more = let p = path ++ more in if ltb (length p) 2048 then some p else none

abbrev pub top_of : List ℕ → Field → Field
top_of path f = record f { current_path = path; current_region = pos 0; current_line = pos 0 }

module _ (fs : FileSystem) where
  -- Enter, l. The type is read of the entry at `current_line`, the name of the one selected.
  unfoldable pub open_directory : List ℕ → List Dirent → Field → Option (List ℕ × Field)
  open_directory cwd d f = do
    e ← entry_at d f.current_line
    if e.d_type == 4
        then (do
          target ← entry_at d (f.current_region +ℤ f.current_line)
          slashed ← append_path f.current_path (b'/' ∷ [])
          path ← append_path slashed target.d_name
          let there = clear_path fs cwd path
          some (there, top_of there f))
        else some (cwd, f)

  -- h.
  unfoldable pub open_parent : List ℕ → Field → Option (List ℕ × Field)
  open_parent cwd f = do
    path ← append_path f.current_path (b'/' ∷ b'.' ∷ b'.' ∷ [])
    let there = clear_path fs cwd path
    some (there, top_of there f)

  -- The switch, on the focused panel. Of y it is what follows the dialogue, which `press` has: the
  -- answer is only shown, and a break keeps the rest from being reached.
  unfoldable pub handle_key : ℤ → ℤ → List Dirent → Key → List ℕ → Field → Option (List ℕ × Field)
  handle_key height file_count d down cwd f = some (cwd, line_down height file_count f)
  handle_key height file_count d up cwd f = some (cwd, line_up f)
  handle_key height file_count d page_down cwd f = some (cwd, region_down height file_count f)
  handle_key height file_count d page_up cwd f = some (cwd, region_up height f)
  handle_key height file_count d enter cwd f = open_directory cwd d f
  handle_key height file_count d parent cwd f = open_parent cwd f
  handle_key height file_count d _ cwd f = some (cwd, f)

-- The two panels, the focused one's number, the listing that `d` and `file_count` hold, and the
-- working directory of the process.
pub record Manager : Type 0 where
  pub left : Field
  pub right : Field
  pub current_window : ℕ
  pub d : List Dirent
  pub file_count : ℤ
  pub cwd : List ℕ

abbrev pub focused : Manager → Field
focused m = if m.current_window == 0 then m.left else m.right

abbrev pub with_focused : Manager → Field → Manager
with_focused m f = if m.current_window == 0 then record m { left = f } else record m { right = f }

abbrev pub next_window : Key → ℕ → ℕ
next_window tab w = (w + 1) % 2
next_window _ w = w

-- One round of the loop: the key, then the listing of the focused panel anew.
unfoldable pub round : FileSystem → ℕ → Manager → Key → Option Manager
round fs height m key = do
  (cwd, f) ← handle_key fs (pos height) m.file_count m.d key m.cwd (focused m)
  let m' = record (with_focused m f) { current_window = next_window key m.current_window }
  l ← print_files fs height (focused m') m.d
  some (record m' { d = l.d; file_count = l.file_count; cwd = cwd })

-- The listings before the loop: of each panel, and of the first again.
unfoldable pub start : FileSystem → ℕ → Field → Field → List ℕ → List Dirent → Option Manager
start fs height left right cwd d = do
  a ← print_files fs height left d
  b ← print_files fs height right a.d
  l ← print_files fs height left b.d
  some (record {
    left = left;
    right = right;
    current_window = 0;
    d = l.d;
    file_count = l.file_count;
    cwd = cwd;
  })

-- `while (c != 'q')`.
abbrev pub goes_on : Key → Bool
goes_on quit = false
goes_on _ = true
