-- ===== src/TextManager/Progress/Stuck.antt =====
-- A copy of copy.c that meets the drawer of the copy before it.
use eltex.Base.{refl, ℕ, ◌≡◌, ◌≢◌, ap, Bool, true, false, some, List}
use eltex.TextManager.Progress.{
  Copier, opening, reading, locking, returned, Drawer, starting, waiting, gone, System, Draw, lock,
  wait, wake, retake, print, end_entering, end_waiting, end_woken, end_drawing, Step, open_files,
  refuse, copy_block, stop, acquire, store, signal, signal_earlier, signal_nobody, release, cancel,
  draw, draw_earlier, Reach, here, later, call,
}
use eltex.TextManager.Progress.Exclusive.{no_steps}

-- Before the first lock of a copy whose files open.
abbrev is_before : Copier → Bool
is_before (opening (some bytes)) = true
is_before (reading rest) = true
is_before (locking p) = true
is_before _ = false

-- The mutex was taken by a thread that is gone.
abbrev IsStuck : System → Type 0
IsStuck s =
    (s.locked ≡ true) × (s.earlier ≡ gone) × (s.drawer ≡ starting) × (is_before s.copier ≡ true)

barred :
    (x : ℕ) (cancelled : Bool) (d d' : Drawer) (l l' : Bool) (drawn : List ℕ)
    → d ≡ starting
    → l ≡ true
    → Draw x cancelled d l d' l' drawn
    → ⊥
barred x cancelled _ _ _ _ _ e shut lock = cc
barred x cancelled _ _ _ _ _ e shut wait = cc
barred x cancelled _ _ _ _ _ e shut wake = cc
barred x cancelled _ _ _ _ _ e shut retake = cc
barred x cancelled _ _ _ _ _ e shut print = cc
barred x cancelled _ _ _ _ _ e shut (end_entering told) = cc
barred x cancelled _ _ _ _ _ e shut (end_waiting told) = cc
barred x cancelled _ _ _ _ _ e shut (end_woken told) = cc
barred x cancelled _ _ _ _ _ e shut (end_drawing told) = cc

module _ (percent_of : ℕ → ℕ → ℕ) where
  Step-IsStuck : (s t : System) → Step percent_of s t → IsStuck s → IsStuck t
  Step-IsStuck s _ (open_files at) h = (h.0, h.1, h.2, refl)
  Step-IsStuck s _ (refuse at) h = let before = ap is_before at in absurd cc
  Step-IsStuck s _ (copy_block at long) h = (h.0, h.1, h.2, refl)
  Step-IsStuck s _ (stop at short) h = (h.0, h.1, h.2, refl)
  Step-IsStuck s _ (acquire at free) h = absurd cc
  Step-IsStuck s _ (store at) h = let before = ap is_before at in absurd cc
  Step-IsStuck s _ (signal at asleep) h = let before = ap is_before at in absurd cc
  Step-IsStuck s _ (signal_earlier at asleep) h = let before = ap is_before at in absurd cc
  Step-IsStuck s _ (signal_nobody at up left) h = let before = ap is_before at in absurd cc
  Step-IsStuck s _ (release at) h = let before = ap is_before at in absurd cc
  Step-IsStuck s _ (cancel at) h = let before = ap is_before at in absurd cc
  Step-IsStuck s _ (draw {x} same move) h = absurd (barred x _ _ _ _ _ _ h.2 h.0 move)
  Step-IsStuck s _ (draw_earlier {x} move) h = absurd (no_steps x _ _ _ _ _ h.1 move)

  Reach-IsStuck : (s t : System) → Reach percent_of s t → IsStuck s → IsStuck t
  Reach-IsStuck s _ here h = h
  Reach-IsStuck s t (later {t = u} way step) h = Step-IsStuck u t step (Reach-IsStuck s u way h)

  -- Where `copy` is called while the cancelled drawer of the copy before still stands in
  -- pthread_cond_wait, and that drawer takes the mutex before the new threads do: whatever order of
  -- steps follows, the new copy never returns and its drawer never starts.
  pub call-stuck :
      (bytes : List ℕ) (garbage : ℕ)
      → (t : System) × Step percent_of (call (some bytes) garbage waiting) t
        × ((s : System) → Reach percent_of t s → (s.copier ≢ returned) × (s.drawer ≡ starting))
  unfolding call
  call-stuck bytes garbage = (
    _,
    draw_earlier {x = garbage} (end_waiting refl),
    λ s way.
        let h = Reach-IsStuck _ s way (refl, refl, refl, refl) in
        (λ over. let before = ap is_before over in cc, h.2),
  )
