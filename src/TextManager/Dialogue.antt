-- ===== src/TextManager/Dialogue.antt =====
-- ui.c, where popup places its window and what it writes in it. The numbers are small, so `int` is ℤ,
-- and `/` cuts towards zero. Not modelled: the frame and the colours, which Copy has as the choice.
pub mod Inside
use eltex.Base.{ℕ, ◌+◌, ◌-◌, ◌/◌, List, [], ◌∷◌, Option, some, ◌>>=◌, if◌then◌else◌, ltb}
use eltex.Base.Int.{ℤ, pos, negsuc, ◌-ℤ◌, ◌+ℤ◌, ltb_ℤ, sub_ℕ}
use eltex.Cstring.{strlen}

-- max of ui.c, and division by 2.
abbrev pub max : ℕ → ℕ → ℕ
max a b = if ltb b a then a else b

abbrev pub half : ℤ → ℤ
half (pos n) = pos (n / 2)
half (negsuc n) = sub_ℕ 0 ((n + 1) / 2)

-- derwin's arguments, and the columns of the message in line 2 and of the buttons in line 4.
pub record Layout : Type 0 where
  pub width : ℕ
  pub begin_y : ℤ
  pub begin_x : ℤ
  pub message_x : ℤ
  pub yes_x : ℤ
  pub no_x : ℤ

abbrev pub height : ℕ
height = 7

unfoldable pub layout : ℕ → ℕ → List ℕ → Option Layout
layout lines cols message = do
  n ← strlen message
  let width = max (n + 4) 13
  some (record {
    width = width;
    begin_y = half (sub_ℕ lines height);
    begin_x = half (sub_ℕ cols width);
    message_x = half (sub_ℕ width n);
    yes_x = pos (width / 2) -ℤ pos 3;
    no_x = pos (width / 2 + 1);
  })
