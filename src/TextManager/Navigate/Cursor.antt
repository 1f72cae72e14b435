-- ===== src/TextManager/Navigate/Cursor.antt =====
-- The movement keys of navigate.c and the cursor over the entries of the directory.
use eltex.Base.{
  ℕ, zero, suc, ◌+◌, ◌-◌, ◌≤◌, ◌<◌, ◌≡◌, refl, ◌⊎◌, arith, ltb, if◌then◌else◌, List, [], ◌∷◌, min,
  leb, Option, none, some, replicate,
}
use eltex.Base.Int.{pos}
use native.Mathlib.Decide.{dec_lt}
use eltex.TextManager.Files.{Field, FileSystem, Dirent}
use eltex.TextManager.Navigate.{
  Key, down, up, page_down, page_up, handle_key, enter, parent, yank, tab, quit, other,
  files_per_region, line_down, line_up, region_down, region_up,
}

abbrev pub at_line : List ℕ → ℕ → ℕ → Field
at_line p r l = record { current_path = p; current_region = pos r; current_line = pos l }

-- A panel of height `h` over a directory of `n` selectable entries, at region `r` and line `l`: the
-- line is on the screen, the entry under it is in the directory, and no screen below the first hangs
-- over the end.
abbrev pub IsVisible : ℕ → ℕ → ℕ → ℕ → Type 0
IsVisible h n r l = (l < h) × (r + l < n) × ((r ≡ 0) ⊎ (r + h ≤ n))

-- A panel that stands there, with the entry of number `s` under its line.
abbrev pub Shows : List ℕ → ℕ → ℕ → ℕ → Field → Type 0
Shows p h n s f = (r : ℕ) × (l : ℕ) × (f ≡ at_line p r l) × IsVisible h n r l × (r + l ≡ s)

module _ (p : List ℕ) (h n r l : ℕ) (v : IsVisible h n r l) where
  files_per_region_lem : files_per_region (pos h) (pos n) ≡ pos (if ltb n h then n - 1 else h - 1)
  unfolding files_per_region
  files_per_region_lem = ground arith

  down_inside :
      l + 1 < h → r + l + 1 < n → line_down (pos h) (pos n) (at_line p r l) ≡ at_line p r (l + 1)
  unfolding line_down
  down_inside a b = ground (arith, files_per_region_lem)

  down_last : l + 1 < h → r + l + 1 ≡ n → line_down (pos h) (pos n) (at_line p r l) ≡ at_line p r l
  unfolding line_down
  down_last a b = ground (arith, files_per_region_lem)

  down_scroll :
      l + 1 ≡ h → r + h < n → line_down (pos h) (pos n) (at_line p r l) ≡ at_line p (r + 1) l
  unfolding line_down
  down_scroll a b = ground (arith, files_per_region_lem)

  down_end : l + 1 ≡ h → r + h ≡ n → line_down (pos h) (pos n) (at_line p r l) ≡ at_line p r l
  unfolding line_down
  down_end a b = ground (arith, files_per_region_lem)

  Shows-down : Shows p h n (min (r + l + 1) (n - 1)) (line_down (pos h) (pos n) (at_line p r l))
  Shows-down = elim (dec_lt (l + 1) h) [
    | yes a ↦ elim (dec_lt (r + l + 1) n) [
      | yes b ↦ (r, l + 1, down_inside a b, omega arith, omega arith)
      | no b ↦ (r, l, down_last a (omega arith), v, omega arith)
    ]
    | no a ↦ elim (dec_lt (r + h) n) [
      | yes b ↦ (r + 1, l, down_scroll (omega arith) b, omega arith, omega arith)
      | no b ↦ (r, l, down_end (omega arith) (omega arith), v, omega arith)
    ]
  ]

  up_inside : 0 < l → line_up (at_line p r l) ≡ at_line p r (l - 1)
  unfolding line_up
  up_inside a = ground arith

  up_scroll : l ≡ 0 → line_up (at_line p r l) ≡ at_line p (r - 1) 0
  unfolding line_up
  up_scroll a = ground arith

  Shows-up : Shows p h n (r + l - 1) (line_up (at_line p r l))
  Shows-up = elim (dec_lt 0 l) [
    | yes a ↦ (r, l - 1, up_inside a, omega arith, omega arith)
    | no a ↦ (r - 1, 0, up_scroll (omega arith), omega arith, omega arith)
  ]

  page_down_inside :
      r + h + h ≤ n → region_down (pos h) (pos n) (at_line p r l) ≡ at_line p (r + h) l
  unfolding region_down
  page_down_inside a = ground (arith, files_per_region_lem)

  page_down_end :
      n < r + h + h
      → region_down (pos h) (pos n) (at_line p r l)
        ≡ at_line p (n - h) (if ltb n h then n - 1 else h - 1)
  unfolding region_down
  page_down_end a = ground (arith, files_per_region_lem)

  Shows-page_down :
      Shows p h n
        (if leb (r + h + h) n then r + l + h else n - 1)
        (region_down (pos h) (pos n) (at_line p r l))
  Shows-page_down = elim (dec_lt n (r + h + h)) [
    | yes a ↦
        (n - h, (if ltb n h then n - 1 else h - 1), page_down_end a, ground arith, ground arith)
    | no a ↦ (r + h, l, page_down_inside (omega arith), omega arith, ground arith)
  ]

  page_up_inside : h ≤ r → region_up (pos h) (at_line p r l) ≡ at_line p (r - h) l
  unfolding region_up
  page_up_inside a = ground arith

  page_up_top : r < h → region_up (pos h) (at_line p r l) ≡ at_line p 0 0
  unfolding region_up
  page_up_top a = ground arith

  Shows-page_up : Shows p h n (if leb h r then r + l - h else 0) (region_up (pos h) (at_line p r l))
  Shows-page_up = elim (dec_lt r h) [
    | yes a ↦ (0, 0, page_up_top a, omega arith, ground arith)
    | no a ↦ (r - h, l, page_up_inside (omega arith), omega arith, ground arith)
  ]

-- The entry that each movement key selects, of `n` entries, from region `r` and line `l`.
abbrev pub cursor_after : ℕ → ℕ → ℕ → ℕ → Key → ℕ
cursor_after h n r l down = min (r + l + 1) (n - 1)
cursor_after h n r l up = r + l - 1
cursor_after h n r l page_down = if leb (r + h + h) n then r + l + h else n - 1
cursor_after h n r l page_up = if leb h r then r + l - h else 0
cursor_after h n r l _ = r + l

-- The keys that move in a directory.
abbrev pub IsMove : Key → Type 0
IsMove down = Unit
IsMove up = Unit
IsMove page_down = Unit
IsMove page_up = Unit
IsMove _ = ⊥

module _ (fs : FileSystem) (d : List Dirent) (cwd p : List ℕ) (h n : ℕ) where
  -- In a panel where the region, the line and the screen fit the directory, each of the
  -- four movement keys succeeds, changes neither path nor working directory, leaves a panel that
  -- fits again, and moves the selected entry as a cursor: down by one but not past the last of the
  -- `n`, up by one but not past the first, by a whole screen down, or to the last where the next
  -- screen is not full, and by a whole screen up, or to the first from within the first screen.
  pub handle_key-Shows :
      (r l : ℕ) (key : Key)
      → IsVisible h n r l
      → IsMove key
      → (f : Field) × (handle_key fs (pos h) (pos n) d key cwd (at_line p r l) ≡ some (cwd, f))
        × Shows p h n (cursor_after h n r l key) f
  unfolding handle_key
  handle_key-Shows r l down v m =
      (line_down (pos h) (pos n) (at_line p r l), refl, Shows-down p h n r l v)
  handle_key-Shows r l up v m = (line_up (at_line p r l), refl, Shows-up p h n r l v)
  handle_key-Shows r l page_down v m =
      (region_down (pos h) (pos n) (at_line p r l), refl, Shows-page_down p h n r l v)
  handle_key-Shows r l page_up v m =
      (region_up (pos h) (at_line p r l), refl, Shows-page_up p h n r l v)
  handle_key-Shows r l enter v m = absurd m
  handle_key-Shows r l parent v m = absurd m
  handle_key-Shows r l yank v m = absurd m
  handle_key-Shows r l tab v m = absurd m
  handle_key-Shows r l quit v m = absurd m
  handle_key-Shows r l other v m = absurd m

  -- Any number of keys on one panel.
  unfoldable pub press : List Key → Field → Option (List ℕ × Field)
  press [] f = some (cwd, f)
  press (key ∷ keys) f = elim (handle_key fs (pos h) (pos n) d key cwd f) [
    | none ↦ none
    | some (_, f') ↦ press keys f'
  ]

  press_down :
      (s t r l : ℕ)
      → IsVisible h n r l
      → r + l + s ≡ t
      → t < n
      → (f : Field) × (press (replicate s down) (at_line p r l) ≡ some (cwd, f)) × Shows p h n t f
  unfolding press
  press_down zero t r l v e fits = (at_line p r l, refl, (r, l, refl, v, omega arith))
  press_down (suc s) t r l v e fits =
      let (f, moved, (r', l', stands, v', sel)) = handle_key-Shows r l down v tt in
      let (f', pressed, shown) = press_down s t r' l' v' (omega (arith, sel)) fits in
      (f', ground (arith, moved, stands, pressed), shown)

  -- From the first entry every one of the `n` is reached: after `s` times down the entry of number
  -- `s` is selected.
  pub press-down_reaches :
      (s : ℕ)
      → 0 < h
      → s < n
      → (f : Field) × (press (replicate s down) (at_line p 0 0) ≡ some (cwd, f)) × Shows p h n s f
  press-down_reaches s tall fits = press_down s s 0 0 (omega arith) (omega arith) fits
