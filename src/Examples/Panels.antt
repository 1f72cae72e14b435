-- ===== src/Examples/Panels.antt =====
-- The file manager on a directory of three entries in a window of two lines.
use eltex.Base.{
  ◌<◌, ◌⊎◌, inl, inr, ltb, Bool-cases, if◌then◌else◌, ◌≤◌, Bool, true, false, ◌≢◌, ℕ, ◌+◌, ◌≡◌,
  refl, Option, none, some, List, [], ◌∷◌, arith,
}
use eltex.Base.Int.{ℤ, pos}
use eltex.TextManager.Files.{
  Dirent, Field, FileSystem, listed, print_files, read_files, print_region, clear_path,
}
use eltex.TextManager.Navigate.{
  down, handle_key, key_of, start, round, open_directory, open_parent, line_down, line_up,
  region_down, region_up, files_per_region, min,
}
use eltex.TextManager.Navigate.Loop.{
  Mode, choosing, asking, hanging, ended, Session, press, press_key, press_popup, rounds, navigate,
}
use eltex.TextManager.Copy.{popup_turn}
use eltex.TextManager.Redraw.{total_refresh, redraw}
use eltex.TextManager.Navigate.Panels.{IsClosed, IsPanel}
use eltex.TextManager.Navigate.Rounds.{IsManager}
use eltex.TextManager.Navigate.Sessions.{asks, navigate-IsManager}
use eltex.TextManager.Start.{Window, Ncurses, home, main}
use eltex.TextManager.Start.Placed.{placed, main-IsManager}
use eltex.TextManager.Navigate.Cursor.{at_line, Shows, cursor_after, handle_key-Shows}

abbrev entries : List Dirent
entries =
    record { d_name = b'.' ∷ []; d_type = 4 }
    ∷ record { d_name = b'a' ∷ []; d_type = 8 }
    ∷ record { d_name = b'b' ∷ []; d_type = 8 }
    ∷ []

abbrev fs : FileSystem
fs = record {
  list = λ path. some entries;
  after_closedir = λ es. es;
  as_many = λ es. refl;
  chdir = λ cwd path. some path;
}

abbrev root : List ℕ
root = b'/' ∷ []

handle_key-Shows_example :
    (f : Field) × (handle_key fs (pos 2) (pos 3) entries down root (at_line root 0 1)
      ≡ some (root, f))
    × Shows root 2 3 (cursor_after 2 3 0 1 down) f
handle_key-Shows_example = handle_key-Shows fs entries root root 2 3 0 1 down (omega arith) tt

-- Every path leads to the root.
abbrev rooted : FileSystem
rooted = record {
  list = λ path. some entries;
  after_closedir = λ es. es;
  as_many = λ es. refl;
  chdir = λ cwd path. some root;
}

abbrev IsRoot : List ℕ → Type 0
IsRoot p = p ≡ root

only_root : (there : List ℕ) → some root ≡ some there → IsRoot there
only_root there e = ground (arith, e)

abbrev closed_root : IsClosed rooted IsRoot
closed_root = record {
  short = λ p k. rw k (omega arith);
  list_of = λ p k. (
    entries,
    (unfold listed in refl),
    omega arith,
    omega arith,
    (omega arith, (omega arith, (omega arith, tt))),
  );
  leads = λ cwd q there k e. only_root there e;
}

-- Down to the directory's last line, up to its parent, to the other panel, into ".", the dialogue with
-- "no" chosen and answered, and out.
abbrev keys : List ℕ
keys = 258 ∷ b'h' ∷ 9 ∷ 10 ∷ 338 ∷ b'y' ∷ b'q' ∷ 9 ∷ 10 ∷ b'q' ∷ b'j' ∷ []

top-IsPanel : IsPanel rooted IsRoot closed_root 2 (omega arith) (at_line root 0 0)
top-IsPanel = record {
  path = root;
  known = refl;
  region = 0;
  line = 0;
  stands = refl;
  visible = omega arith;
}

navigate-IsManager_example :
    (s : Session) × (navigate rooted 2 true (at_line root 0 0) (at_line root 0 0) root [] keys
      ≡ some s)
    × IsManager rooted IsRoot closed_root 2 (omega arith) s.manager
    × (true ≡ true → s.mode ≢ hanging)
    × (true ≡ false → asks keys ≡ true → s.mode ≡ hanging)
navigate-IsManager_example =
    navigate-IsManager rooted IsRoot closed_root 2 (omega arith) true (at_line root 0 0)
      (at_line root 0 0) root [] keys top-IsPanel top-IsPanel refl

-- The mode after keys, where nothing fails to be read.
abbrev mode_after : Bool → List ℕ → Option Mode
mode_after dialogue keys =
    elim (navigate rooted 2 dialogue (at_line root 0 0) (at_line root 0 0) root [] keys) [
      | none ↦ none
      | some s ↦ some s.mode
    ]

-- The q that is typed in the dialogue does not end the loop; without a window no key is taken.
modes-run :
    (mode_after true (b'y' ∷ b'q' ∷ []) ≡ some (asking 1))
    × (mode_after true (b'y' ∷ b'q' ∷ 10 ∷ []) ≡ some choosing)
    × (mode_after true keys ≡ some ended)
    × (mode_after false keys ≡ some hanging)
unfolding navigate start round rounds press press_key press_popup key_of popup_turn total_refresh
    redraw listed print_files read_files print_region clear_path handle_key open_directory
    open_parent line_down line_up region_down region_up files_per_region min
modes-run = (refl, refl, refl, refl)

-- A terminal of 24 lines and 80 columns, and a file system where every path leads home.
abbrev make : ℤ → ℤ → ℤ → ℤ → Option Window
make (pos h) (pos w) (pos y) (pos x) =
    some (record { maxy = h; maxx = w; begin_y = y; begin_x = x })
make _ _ _ _ = none

abbrev inside : Window → ℕ → ℕ → ℤ → ℤ → Option Window
inside outer h w (pos y) (pos x) =
    some (record { maxy = h; maxx = w; begin_y = outer.begin_y + y; begin_x = outer.begin_x + x })
inside _ _ _ _ _ = none

abbrev derive : Window → ℤ → ℤ → ℤ → ℤ → Option Window
derive outer (pos h) (pos w) y x =
    if ltb outer.maxy h then none else if ltb outer.maxx w then none else inside outer h w y x
derive _ _ _ _ _ = none

derive-made :
    (outer : Window) (h w y x : ℕ)
    → y + h ≤ outer.maxy
    → x + w ≤ outer.maxx
    → derive outer (pos h) (pos w) (pos y) (pos x)
      ≡ some
          (record { maxy = h; maxx = w; begin_y = outer.begin_y + y; begin_x = outer.begin_x + x })
derive-made outer h w y x low side =
    let a : ltb outer.maxy h ≡ false = ground arith in
    let b : ltb outer.maxx w ≡ false = ground arith in rw (a, b) refl

derive-refused :
    (outer : Window) (h w : ℕ) (y x : ℤ)
    → (outer.maxy < h) ⊎ (outer.maxx < w)
    → derive outer (pos h) (pos w) y x ≡ none
derive-refused outer h w y x (inl low) = let a : ltb outer.maxy h ≡ true = ground arith in rw a refl
derive-refused outer h w y x (inr side) =
    let b : ltb outer.maxx w ≡ true = ground arith in
    elim (Bool-cases (ltb outer.maxy h)) [ inl a ↦ rw a refl | inr a ↦ rw (a, b) refl ]

abbrev terminal : Ncurses
terminal = record {
  newwin = make;
  derwin = derive;
  lines = 24;
  cols = 80;
  makes = λ h w y x _ _ _ _. refl;
  derives = λ outer h w y x _ _ low side. derive-made outer h w y x low side;
  refuses = derive-refused;
}

abbrev homed : FileSystem
homed = record {
  list = λ path. some entries;
  after_closedir = λ es. es;
  as_many = λ es. refl;
  chdir = λ cwd path. some home;
}

abbrev IsHome : List ℕ → Type 0
IsHome p = p ≡ home

only_home : (there : List ℕ) → some home ≡ some there → IsHome there
only_home there e = ground (arith, e)

abbrev closed_home : IsClosed homed IsHome
closed_home = record {
  short = λ p k. rw k (omega arith);
  list_of = λ p k. (
    entries,
    (unfold listed in refl),
    omega arith,
    omega arith,
    (omega arith, (omega arith, (omega arith, tt))),
  );
  leads = λ cwd q there k e. only_home there e;
}

main-IsManager_example :
    (s : Session) × (main terminal homed home [] keys ≡ some (placed 24 80 0, (placed 24 80 1, s)))
    × IsManager homed IsHome closed_home 21 (omega arith) s.manager
    × (7 ≤ 24 → 18 ≤ 80 → s.mode ≢ hanging)
    × ((24 < 7) ⊎ (80 < 18) → asks keys ≡ true → s.mode ≡ hanging)
main-IsManager_example =
    main-IsManager homed IsHome closed_home terminal 21 (omega arith) home [] keys refl
      (omega arith) refl refl
