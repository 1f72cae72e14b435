-- ===== src/TextManager/Dialogue/Inside.antt =====
-- The dialogue of ui.c on the screen.
use eltex.Base.{refl, ℕ, ◌+◌, ◌-◌, ◌/◌, ◌≤◌, ◌<◌, ◌≡◌, List, some, length, arith, leb, true}
use eltex.Base.Int.{pos}
use eltex.Cstring.{text, IsTerminated}
use eltex.Cstring.Laws.{strlen-text}
use eltex.TextManager.Dialogue.{Layout, layout, max}

width-bounds :
    (n cols : ℕ)
    → n + 4 ≤ cols
    → 13 ≤ cols
    → (13 ≤ max (n + 4) 13) × (n + 4 ≤ max (n + 4) 13) × (max (n + 4) 13 ≤ cols)
width-bounds n cols fits wide = ground arith

-- Where a terminated message and its frame of two columns on each side fit a screen of at least 7
-- lines and 13 columns, the window lies on the screen, the message and both buttons inside its
-- frame, and the buttons do not touch.
pub layout-fits :
    (lines cols : ℕ) (message : List ℕ)
    → IsTerminated message
    → 7 ≤ lines
    → 13 ≤ cols
    → length (text message) + 4 ≤ cols
    → (l : Layout) × (y x m yes no : ℕ) × (layout lines cols message ≡ some l)
      × (l.begin_y ≡ pos y)
      × (l.begin_x ≡ pos x)
      × (l.message_x ≡ pos m)
      × (l.yes_x ≡ pos yes)
      × (l.no_x ≡ pos no)
      × (y + 7 ≤ lines)
      × (x + l.width ≤ cols)
      × (1 ≤ m)
      × (m + length (text message) < l.width)
      × (1 ≤ yes)
      × (yes + 3 < no)
      × (no + 2 < l.width)
unfolding layout
layout-fits lines cols message ended tall wide fits =
    let n = length (text message) in
    let w = max (n + 4) 13 in
    let (narrow, broad, within) = width-bounds n cols fits wide in
    let long = strlen-text message ended in
    let a : leb 7 lines ≡ true = ground arith in
    let b : leb w cols ≡ true = ground arith in
    let c : leb n w ≡ true = ground arith in
    let e : leb 3 (w / 2 + 0) ≡ true = ground arith in
    (
      record {
        width = w;
        begin_y = pos ((lines - 7) / 2);
        begin_x = pos ((cols - w) / 2);
        message_x = pos ((w - n) / 2);
        yes_x = pos (w / 2 + 0 - 3);
        no_x = pos (w / 2 + 1);
      },
      _,
      _,
      _,
      _,
      _,
      rw (long, a, b, c, e) refl,
      refl,
      refl,
      refl,
      refl,
      refl,
      omega arith,
      omega arith,
      omega arith,
      omega arith,
      omega arith,
      omega arith,
      omega arith,
    )
