-- ===== src/Examples/Drawings.antt =====
-- copy.c on a file of three bytes, with both of its threads, and the line that it draws.
use eltex.Base.{refl, ℕ, ◌+◌, ◌≤◌, ◌<◌, ◌≡◌, ◌≢◌, some, List, [], ◌∷◌, min, arith}
use eltex.TextManager.Copy.{copy_blocks}
use eltex.TextManager.Progress.{
  cancelling, returned, starting, waiting, gone, System, lock, wait, retake, print, Step,
  open_files, stop, acquire, store, signal, release, cancel, draw, Reach, here, later, call,
}
use eltex.TextManager.Progress.Exclusive.{
  copier_holds, drawer_holds, has_returned, flag, Reach-exclusive,
}
use eltex.TextManager.Progress.Finishing.{finish-copy_blocks}
use eltex.TextManager.Progress.Numbers.{Falls, shown-Falls}
use eltex.TextManager.Progress.Stuck.{call-stuck}

abbrev percent_of : ℕ → ℕ → ℕ
percent_of copied size = min 100 copied

abbrev bytes : List ℕ
bytes = 1 ∷ 2 ∷ 3 ∷ []

-- The drawer waits before the files are open, and is woken by the last signal.
abbrev drawn : (s : System) × Reach percent_of (call (some bytes) 7 gone) s
unfolding call
drawn = (
  _,
  later
      (later
        (later
          (later
            (later
              (later
                (later
                  (later (later (later here (draw (λ _. refl) lock)) (draw (λ _. refl) wait))
                    (open_files refl))
                  (stop refl (omega arith)))
                (acquire refl refl))
              (store refl))
            (signal refl refl))
          (release refl))
        (draw (λ _. refl) retake))
      (draw (λ _. refl) print),
)

finish-copy_blocks_example :
    (6 ≤ 22)
    × ((t : System) × Reach percent_of drawn.0 t × (t.copier ≡ returned))
    × (drawn.0.copier ≡ returned → copy_blocks 4 bytes [] ≡ some drawn.0.written)
unfolding call
finish-copy_blocks_example = finish-copy_blocks percent_of bytes 7 drawn.0 drawn.1

Reach-exclusive_example :
    (copier_holds drawn.0.copier + drawer_holds drawn.0.drawer ≤ 1)
    × (flag drawn.0.locked ≡ copier_holds drawn.0.copier + drawer_holds drawn.0.drawer)
    × (drawn.0.drawer ≡ gone → (has_returned drawn.0.copier ≡ 1) × (flag drawn.0.locked ≡ 1))
unfolding call
Reach-exclusive_example = Reach-exclusive percent_of (some bytes) 7 drawn.0 drawn.1

rises : (a b n : ℕ) → 0 < a → a ≤ b → b ≤ n → percent_of a n ≤ percent_of b n
rises a b n some_copied le le' = omega arith

bounded : (a n : ℕ) → 0 < a → a ≤ n → percent_of a n ≤ 100
bounded a n some_copied le = omega arith

not_returned : cancelling ≢ returned
not_returned = λ e. cc

shown-Falls_example : Falls 7 100 (100 ∷ [])
unfolding call
shown-Falls_example = shown-Falls percent_of rises bounded bytes 7 drawn.0 drawn.1 not_returned

call-stuck_example :
    (t : System) × Step percent_of (call (some bytes) 7 waiting) t
    × ((s : System) → Reach percent_of t s → (s.copier ≢ returned) × (s.drawer ≡ starting))
call-stuck_example = call-stuck percent_of bytes 7

-- A drawer can be left waiting: the one above after its copy returned.
left_waiting :
    (s : System) × Reach percent_of (call (some bytes) 7 gone) s
    × (s.copier ≡ returned)
    × (s.drawer ≡ waiting)
unfolding call
left_waiting = (_, later (later drawn.1 (draw (λ _. refl) wait)) (cancel refl), refl, refl)
