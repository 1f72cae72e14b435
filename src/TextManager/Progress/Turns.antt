-- ===== src/TextManager/Progress/Turns.antt =====
-- How many steps `_copy` of copy.c can take, in whatever order they come.
use eltex.Base.{ap, ℕ, ◌+◌, ◌*◌, ◌≤◌, some, none, length, length-drop, arith}
use eltex.TextManager.Progress.{
  Phase, more, last, Copier, opening, reading, locking, storing, signalling, unlocking, cancelling,
  returned, System, Step, open_files, refuse, copy_block, stop, acquire, store, signal,
  signal_earlier, signal_nobody, release, cancel, draw, draw_earlier, Reach, here, later,
}

-- An upper bound of the steps that `_copy` still takes.
abbrev pub todo_phase : Phase → ℕ
todo_phase (more rest) = 6 + 5 * length rest
todo_phase last = 1

abbrev pub todo : Copier → ℕ
todo (opening none) = 2
todo (opening (some bytes)) = 7 + 5 * length bytes
todo (reading rest) = 6 + 5 * length rest
todo (unlocking p) = 1 + todo_phase p
todo (signalling p) = 2 + todo_phase p
todo (storing p) = 3 + todo_phase p
todo (locking p) = 4 + todo_phase p
todo cancelling = 1
todo returned = 0

module _ (percent_of : ℕ → ℕ → ℕ) where
  -- The steps of `_copy` among those of a run.
  abbrev pub turn_of : {s t : System} → Step percent_of s t → ℕ
  turn_of (draw same move) = 0
  turn_of (draw_earlier move) = 0
  turn_of _ = 1

  abbrev pub turns : {s t : System} → Reach percent_of s t → ℕ
  turns here = 0
  turns (later way step) = turns way + turn_of step

  Step-todo :
      (s t : System) (step : Step percent_of s t) → turn_of step + todo t.copier ≤ todo s.copier
  Step-todo s _ (open_files at) = let now = ap todo at in omega arith
  Step-todo s _ (refuse at) = let now = ap todo at in omega arith
  Step-todo s _ (copy_block {rest} at long) =
      let now = ap todo at in omega (arith, length-drop 1024 rest)
  Step-todo s _ (stop at short) = let now = ap todo at in omega arith
  Step-todo s _ (acquire at free) = let now = ap todo at in omega arith
  Step-todo s _ (store at) = let now = ap todo at in omega arith
  Step-todo s _ (signal at asleep) = let now = ap todo at in omega arith
  Step-todo s _ (signal_earlier at asleep) = let now = ap todo at in omega arith
  Step-todo s _ (signal_nobody at up left) = let now = ap todo at in omega arith
  Step-todo s _ (release {p = more rest} at) = let now = ap todo at in omega arith
  Step-todo s _ (release {p = last} at) = let now = ap todo at in omega arith
  Step-todo s _ (cancel at) = let now = ap todo at in omega arith
  Step-todo s _ (draw same move) = omega arith
  Step-todo s _ (draw_earlier move) = omega arith

  pub turns-todo :
      (s t : System) (way : Reach percent_of s t) → turns way + todo t.copier ≤ todo s.copier
  turns-todo s _ here = omega arith
  turns-todo s t (later {t = u} way step) = omega (arith, turns-todo s u way, Step-todo u t step)
