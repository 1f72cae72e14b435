-- ===== src/TextManager/Copy.antt =====
-- copy.c, the loop that copies a file in blocks of 1024 bytes, by itself, and ui.c, the dialogue that asks for it.
-- A file is its bytes. Of a short last read fread gives 0 whole blocks, which ends the loop.
-- `copy` and the two threads that it starts and joins are in Progress.
-- Not modelled: the drawing, which Dialogue and Redraw have a part of, and failures of malloc and fwrite.
pub mod Blocks
use eltex.Base.{
  ◌>>=◌, ℕ, Bool, zero, suc, ◌+◌, ◌%◌, Option, none, some, List, [], ◌∷◌, ◌++◌, ◌==◌, ltb,
  if◌then◌else◌, length, take, drop,
}
use eltex.Cstring.{equal, strcmp, text, lex}

-- What the paths name, each its own file, and whether fopen "wb" can make a file at a path.
pub record Files : Type 0 where
  pub content : List ℕ → Option (List ℕ)
  pub writable : List ℕ → Bool

abbrev pub block : ℕ
block = 1024

abbrev pub store : List ℕ → List ℕ → Files → Files
store path bytes fs = record fs {
  content = λ p. elim (lex p path) [ equal ↦ some bytes | _ ↦ fs.content p ];
}

-- `while (true)`: from what is left of the source, what is appended to the destination; `none` is
-- a loop that the fuel does not see the end of.
unfoldable pub copy_blocks : ℕ → List ℕ → List ℕ → Option (List ℕ)
copy_blocks zero src dst = none
copy_blocks (suc fuel) src dst =
    let more = copy_blocks fuel (drop block src) (dst ++ take block src) in
    if ltb (length src) block then some dst else more

-- A round of the dialogue's loop: it goes on with a button, or is answered with one.
pub data Turn : Type 0 where
  goes_on_with answered : ℕ → Turn

-- Tab, Enter, any other key.
unfoldable pub popup_turn : ℕ → ℕ → Turn
popup_turn current_button c =
    if c == 9
    then goes_on_with ((current_button + 1) % 2)
    else if c == 10
    then answered current_button
    else goes_on_with current_button

unfoldable pub popup_loop : ℕ → List ℕ → Option ℕ
popup_loop current_button [] = none
popup_loop current_button (c ∷ keys) = elim (popup_turn current_button c) [
  | goes_on_with button ↦ popup_loop button keys
  | answered button ↦ some button
]

-- What `popup` returns for the keys typed: 1 is "yes", on which it opens; `none` waits on.
unfoldable pub popup : List ℕ → Option ℕ
unfolding popup_loop
popup keys = popup_loop 1 keys
