-- ===== src/TextManager/Start.antt =====
-- text_manager/main.c: the two panels that main makes of the screen, and navigate on them.
-- newwin and derwin of ncurses are parameters; `none` is a window that could not be made.
-- Not modelled: the status line's window, colours, and what is drawn.
pub mod Placed
use eltex.Base.{
  ◌⊎◌, Bool, true, false, ℕ, ◌+◌, ◌-◌, ◌*◌, ◌/◌, ◌≤◌, ◌<◌, ◌≡◌, Option, none, some, List, [], ◌∷◌,
  ◌++◌, ◌>>=◌,
}
use eltex.Base.Int.{ℤ, pos, sub_ℕ, ◌-ℤ◌}
use eltex.TextManager.Files.{Dirent, Field, FileSystem}
use eltex.TextManager.Navigate.Loop.{Session, navigate}
use eltex.TextManager.Dialogue.{Layout, height, layout}

-- getmaxy, getmaxx, and where it stands on the screen.
pub record Window : Type 0 where
  pub maxy : ℕ
  pub maxx : ℕ
  pub begin_y : ℕ
  pub begin_x : ℕ

-- Both take the lines, the columns and the place, derwin inside its window. A window that lies on the
-- screen, or inside the other, is documented to be made as it is asked for, and derwin to fail where the
-- window does not fit the other, as none does that is larger.
pub record Ncurses : Type 0 where
  pub newwin : ℤ → ℤ → ℤ → ℤ → Option Window
  pub derwin : Window → ℤ → ℤ → ℤ → ℤ → Option Window
  pub lines : ℕ
  pub cols : ℕ
  pub makes :
      (h w y x : ℕ)
      → 0 < h
      → 0 < w
      → y + h ≤ lines
      → x + w ≤ cols
      → newwin (pos h) (pos w) (pos y) (pos x)
        ≡ some (record { maxy = h; maxx = w; begin_y = y; begin_x = x })
  pub derives :
      (outer : Window) (h w y x : ℕ)
      → 0 < h
      → 0 < w
      → y + h ≤ outer.maxy
      → x + w ≤ outer.maxx
      → derwin outer (pos h) (pos w) (pos y) (pos x)
        ≡ some (record {
          maxy = h;
          maxx = w;
          begin_y = outer.begin_y + y;
          begin_x = outer.begin_x + x;
        })
  pub refuses :
      (outer : Window) (h w : ℕ) (y x : ℤ)
      → (outer.maxy < h) ⊎ (outer.maxx < w)
      → derwin outer (pos h) (pos w) y x ≡ none

-- WINDOW_COUNT.
abbrev pub window_count : ℕ
window_count = 2

-- "/home/eltex"
abbrev pub home : List ℕ
home = b'/' ∷ b'h' ∷ b'o' ∷ b'm' ∷ b'e' ∷ b'/' ∷ b'e' ∷ b'l' ∷ b't' ∷ b'e' ∷ b'x' ∷ []

-- An element of `windows`, with its two windows.
pub record Panel : Type 0 where
  pub out : Window
  pub w : Window
  pub field : Field

-- A round of the loop.
unfoldable pub open_panel : Ncurses → ℕ → Option Panel
open_panel n i = do
  out ←
      n.newwin (sub_ℕ n.lines 1) (pos (n.cols / window_count)) (pos 0)
        (pos (n.cols / window_count * i))
  w ← n.derwin out (sub_ℕ out.maxy 2) (sub_ℕ out.maxx 2) (pos 1) (pos 1)
  some (record {
    out = out;
    w = w;
    field = record { current_path = home; current_region = pos 0; current_line = pos 0 };
  })

-- The window on the whole screen.
abbrev pub stdscr : Ncurses → Window
stdscr n = record { maxy = n.lines; maxx = n.cols; begin_y = 0; begin_x = 0 }

-- "Tessting popup"
abbrev pub letters : List ℕ
letters =
    b'T' ∷ b'e' ∷ b's' ∷ b's' ∷ b't' ∷ b'i' ∷ b'n' ∷ b'g' ∷ 32 ∷ b'p' ∷ b'o' ∷ b'p' ∷ b'u' ∷ b'p'
    ∷ []

abbrev pub question : List ℕ
question = letters ++ 0 ∷ []

-- The window of popup.
unfoldable pub popup_window : Ncurses → Option Window
popup_window n = do
  l ← layout n.lines n.cols question
  n.derwin (stdscr n) (pos height) (pos l.width) l.begin_y l.begin_x

abbrev pub is_made : Option Window → Bool
is_made none = false
is_made (some w) = true

-- What the panels are and what navigate leaves; both panels are equally high.
unfoldable pub main :
    Ncurses → FileSystem → List ℕ → List Dirent → List ℕ → Option (Panel × (Panel × Session))
main n fs cwd d keys = do
  left ← open_panel n 0
  right ← open_panel n 1
  s ← navigate fs left.w.maxy (is_made (popup_window n)) left.field right.field cwd d keys
  some (left, (right, s))
