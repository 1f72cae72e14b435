-- ===== src/TextManager/Start/Placed.antt =====
-- The panels that main of text_manager opens, and the session on them.
use eltex.Base.{
  ◌⊎◌, false, [], ◌≢◌, true, leb, refl, ℕ, ◌+◌, ◌-◌, ◌*◌, ◌/◌, ◌≤◌, ◌<◌, ◌≡◌, some, List, arith,
}
use eltex.Base.Int.{pos}
use eltex.TextManager.Files.{Dirent, Field, FileSystem}
use eltex.TextManager.Navigate.Loop.{Session, hanging}
use eltex.TextManager.Navigate.Panels.{IsClosed, top_of-IsPanel}
use eltex.TextManager.Navigate.Rounds.{IsManager}
use eltex.TextManager.Navigate.Sessions.{asks, navigate-IsManager}
use eltex.Cstring.{text, strlen}
use eltex.Cstring.Laws.{zero-IsTerminated}
use eltex.TextManager.Dialogue.{layout}
use eltex.TextManager.Dialogue.Inside.{layout-fits}
use eltex.TextManager.Start.{
  Ncurses, Panel, home, open_panel, letters, question, stdscr, popup_window, is_made, main,
}

abbrev start_field : Field
start_field = record { current_path = home; current_region = pos 0; current_line = pos 0 }

-- The panel on a screen, by its number.
abbrev pub placed : ℕ → ℕ → ℕ → Panel
placed lines cols i = record {
  out = record { maxy = lines - 1; maxx = cols / 2; begin_y = 0; begin_x = cols / 2 * i };
  w = record { maxy = lines - 1 - 2; maxx = cols / 2 - 2; begin_y = 1; begin_x = cols / 2 * i + 1 };
  field = start_field;
}

open_panel-placed :
    (n : Ncurses) (i : ℕ)
    → 4 ≤ n.lines
    → 6 ≤ n.cols
    → n.cols / 2 * i + n.cols / 2 ≤ n.cols
    → open_panel n i ≡ some (placed n.lines n.cols i)
unfolding open_panel
open_panel-placed n i tall wide fits =
    let made =
      n.makes (n.lines - 1) (n.cols / 2) 0 (n.cols / 2 * i) (omega arith) (omega arith)
        (omega arith) fits in
    let outer = (placed n.lines n.cols i).out in
    let derived =
      n.derives outer (n.lines - 1 - 2) (n.cols / 2 - 2) 1 1 (omega arith) (omega arith)
        (omega arith) (omega arith) in
    let one : leb 1 n.lines ≡ true = ground arith in
    let two : leb 2 (n.lines - 1) ≡ true = ground arith in
    let three : leb 2 (n.cols / 2) ≡ true = ground arith in rw (one, made, two, three, derived) refl

-- On a screen of 7 lines and 18 columns, the dialogue of navigate has its window.
popup_window-made : (n : Ncurses) → 7 ≤ n.lines → 18 ≤ n.cols → is_made (popup_window n) ≡ true
unfolding popup_window text
popup_window-made n tall wide =
    let (l, y, x, _, _, _, laid, top, side, _, _, _, low, inside, _, _, _, _, room) =
      layout-fits n.lines n.cols question (zero-IsTerminated letters []) tall (omega arith)
        (omega arith) in
    rw (laid, top, side)
      (let made =
          n.derives (stdscr n) 7 l.width y x (omega arith) (omega (arith, room)) low inside in
        rw made refl)

popup_window-refused :
    (n : Ncurses) → (n.lines < 7) ⊎ (n.cols < 18) → is_made (popup_window n) ≡ false
unfolding popup_window layout strlen
popup_window-refused n small = rw (n.refuses (stdscr n) 7 18 _ _ small) refl

module _ (fs : FileSystem) (Known : List ℕ → Type 0) (closed : IsClosed fs Known) (n : Ncurses)
    (h : ℕ) (high : 0 < h) where
  -- On a screen of at least 4 lines and 6 columns, over a file system as navigate needs it, in which
  -- /home/eltex and the working directory are known: main opens the two panels beside each other, each
  -- half the screen wide and one line less high, their inner windows equally high and inside
  -- them; whatever is typed, the session reads no entry that was never filled and writes past no
  -- path, and both panels fit their directories at the end. On a screen of at least 7 lines and 18
  -- columns it never comes to a dialogue that takes no keys; on a smaller one it does, if a y is typed
  -- before any q.
  pub main-IsManager :
      (cwd : List ℕ) (d : List Dirent) (keys : List ℕ)
      → n.lines ≡ h + 3
      → 6 ≤ n.cols
      → Known home
      → Known cwd
      → (s : Session) × (main n fs cwd d keys
          ≡ some (placed n.lines n.cols 0, (placed n.lines n.cols 1, s)))
        × IsManager fs Known closed h high s.manager
        × (7 ≤ n.lines → 18 ≤ n.cols → s.mode ≢ hanging)
        × ((n.lines < 7) ⊎ (n.cols < 18) → asks keys ≡ true → s.mode ≡ hanging)
  unfolding main
  main-IsManager cwd d keys size wide at_home here =
      let left = open_panel-placed n 0 (omega arith) wide (omega arith) in
      let right = open_panel-placed n 1 (omega arith) wide (omega arith) in
      let inner : n.lines - 1 - 2 ≡ h = omega arith in
      let p = top_of-IsPanel fs Known closed h high home start_field at_home in
      let (s, done, v, goes, hangs) =
        navigate-IsManager fs Known closed h high (is_made (popup_window n)) start_field start_field
          cwd d keys p p here in
      (
        s,
        rw (left, right, inner, done) refl,
        v,
        λ tall broad. goes (popup_window-made n tall broad),
        λ small typed. hangs (popup_window-refused n small) typed,
      )
