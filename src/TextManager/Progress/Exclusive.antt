-- ===== src/TextManager/Progress/Exclusive.antt =====
-- Who holds the mutex of copy.c while no drawer of an earlier copy is alive.
use eltex.Base.{refl, sym, ℕ, ◌≡◌, ap, Bool, true, false, Option, List, arith, ◌+◌, ◌≤◌}
use eltex.TextManager.Progress.{
  more, last, Copier, storing, signalling, unlocking, returned, Drawer, entering, drawing, gone,
  System, Draw, lock, wait, wake, retake, print, end_entering, end_waiting, end_woken, end_drawing,
  Step, open_files, refuse, copy_block, stop, acquire, store, signal, signal_earlier, signal_nobody,
  release, cancel, draw, draw_earlier, Reach, here, later, call,
}

abbrev pub flag : Bool → ℕ
flag false = 0
flag true = 1

-- Between the return of pthread_mutex_lock and pthread_mutex_unlock.
abbrev pub copier_holds : Copier → ℕ
copier_holds (storing p) = 1
copier_holds (signalling p) = 1
copier_holds (unlocking p) = 1
copier_holds _ = 0

-- Between the return of pthread_mutex_lock, or of pthread_cond_wait, and the next wait; a drawer that
-- was cancelled keeps what it held.
abbrev pub drawer_holds : Drawer → ℕ
drawer_holds entering = 1
drawer_holds drawing = 1
drawer_holds gone = 1
drawer_holds _ = 0

abbrev pub has_returned : Copier → ℕ
has_returned returned = 1
has_returned _ = 0

abbrev pub is_gone : Drawer → ℕ
is_gone gone = 1
is_gone _ = 0

-- The mutex is locked exactly if one of the two holds it, never both; the drawer is told to end
-- when the copier returns, and ends only then.
abbrev pub Agree : Bool → Bool → Copier → Drawer → Type 0
Agree locked cancelled c d =
    (flag locked ≡ copier_holds c + drawer_holds d)
    × (flag cancelled ≡ has_returned c)
    × (is_gone d ≤ has_returned c)

abbrev pub IsOrderly : System → Type 0
IsOrderly s = (s.earlier ≡ gone) × Agree s.locked s.cancelled s.copier s.drawer

flag_bound : (b : Bool) → flag b ≤ 1
flag_bound false = omega arith
flag_bound true = omega arith

flag-true : (b : Bool) → b ≡ true → flag b ≡ 1
flag-true b e = ap flag e

-- At a known point of the copier.
pub copier_at :
    (s : System) (c : Copier) → s.copier ≡ c → IsOrderly s → Agree s.locked s.cancelled c s.drawer
copier_at s c e h = rw (sym e) h.1

drawer_turn :
    (x : ℕ) (c : Copier) (cancelled : Bool) (d d' : Drawer) (l l' : Bool) (drawn : List ℕ)
    → Draw x cancelled d l d' l' drawn
    → Agree l cancelled c d
    → Agree l' cancelled c d'
drawer_turn x c cancelled _ _ _ _ _ lock h = (omega arith, h.1, omega arith)
drawer_turn x c cancelled _ _ l _ _ wait h = (omega (arith, flag_bound l), h.1, omega arith)
drawer_turn x c cancelled _ _ _ _ _ wake h = h
drawer_turn x c cancelled _ _ _ _ _ retake h = (omega arith, h.1, omega arith)
drawer_turn x c cancelled _ _ _ _ _ print h = h
drawer_turn x c cancelled _ _ _ _ _ (end_entering told) h =
    (omega arith, h.1, omega (arith, flag-true cancelled told))
drawer_turn x c cancelled _ _ _ _ _ (end_waiting told) h =
    (omega arith, h.1, omega (arith, flag-true cancelled told))
drawer_turn x c cancelled _ _ _ _ _ (end_woken told) h =
    (omega arith, h.1, omega (arith, flag-true cancelled told))
drawer_turn x c cancelled _ _ _ _ _ (end_drawing told) h =
    (omega arith, h.1, omega (arith, flag-true cancelled told))

-- A drawer that is gone stays so.
pub no_steps :
    (x : ℕ) (d d' : Drawer) (l l' : Bool) (drawn : List ℕ)
    → d ≡ gone
    → Draw x true d l d' l' drawn
    → ⊥
no_steps x _ _ _ _ _ e lock = cc
no_steps x _ _ _ _ _ e wait = cc
no_steps x _ _ _ _ _ e wake = cc
no_steps x _ _ _ _ _ e retake = cc
no_steps x _ _ _ _ _ e print = cc
no_steps x _ _ _ _ _ e (end_entering told) = cc
no_steps x _ _ _ _ _ e (end_waiting told) = cc
no_steps x _ _ _ _ _ e (end_woken told) = cc
no_steps x _ _ _ _ _ e (end_drawing told) = cc

module _ (percent_of : ℕ → ℕ → ℕ) where
  pub Step-IsOrderly : (s t : System) → Step percent_of s t → IsOrderly s → IsOrderly t
  Step-IsOrderly s _ (open_files at) h = (h.0, copier_at s _ at h)
  Step-IsOrderly s _ (refuse at) h = (h.0, copier_at s _ at h)
  Step-IsOrderly s _ (copy_block at long) h = (h.0, copier_at s _ at h)
  Step-IsOrderly s _ (stop at short) h = (h.0, copier_at s _ at h)
  Step-IsOrderly s _ (acquire at free) h =
      let now = copier_at s _ at h in
      let open_now = ap flag free in (h.0, (omega arith, now.1, now.2))
  Step-IsOrderly s _ (store at) h = (h.0, copier_at s _ at h)
  Step-IsOrderly s _ (signal at asleep) h =
      let now = copier_at s _ at h in
      let held = ap drawer_holds asleep in (h.0, (omega arith, now.1, omega arith))
  Step-IsOrderly s _ (signal_earlier at asleep) h = absurd cc
  Step-IsOrderly s _ (signal_nobody at up left) h = (h.0, copier_at s _ at h)
  Step-IsOrderly s _ (release {p = more rest} at) h =
      let now = copier_at s _ at h in (h.0, (omega (arith, flag_bound s.locked), now.1, now.2))
  Step-IsOrderly s _ (release {p = last} at) h =
      let now = copier_at s _ at h in (h.0, (omega (arith, flag_bound s.locked), now.1, now.2))
  Step-IsOrderly s _ (cancel at) h =
      let now = copier_at s _ at h in (h.0, (now.0, refl, omega arith))
  Step-IsOrderly s _ (draw {x} same move) h =
      (h.0, drawer_turn x s.copier s.cancelled s.drawer _ s.locked _ _ move h.1)
  Step-IsOrderly s _ (draw_earlier {x} move) h = absurd (no_steps x _ _ _ _ _ h.0 move)

  -- In whatever order the threads take their steps, while no drawer of an earlier copy is alive.
  pub Reach-IsOrderly :
      (source : Option (List ℕ)) (garbage : ℕ) (s : System)
      → Reach percent_of (call source garbage gone) s
      → IsOrderly s
  unfolding call
  Reach-IsOrderly source garbage _ here = (refl, (refl, refl, omega arith))
  Reach-IsOrderly source garbage s (later {t} so_far step) =
      Step-IsOrderly t s step (Reach-IsOrderly source garbage t so_far)

  -- While no drawer of an earlier copy is alive, the two threads never hold the mutex together and it
  -- is locked exactly while one of them holds it; the drawer ends only after `_copy` returned, and
  -- then the mutex stays locked.
  pub Reach-exclusive :
      (source : Option (List ℕ)) (garbage : ℕ) (s : System)
      → Reach percent_of (call source garbage gone) s
      → (copier_holds s.copier + drawer_holds s.drawer ≤ 1)
        × (flag s.locked ≡ copier_holds s.copier + drawer_holds s.drawer)
        × (s.drawer ≡ gone → (has_returned s.copier ≡ 1) × (flag s.locked ≡ 1))
  Reach-exclusive source garbage s way =
      let h = Reach-IsOrderly source garbage s way in
      let one = flag_bound s.locked in
      (
        omega arith,
        h.1.0,
        λ ended.
            let left = ap is_gone ended in
            let held = ap drawer_holds ended in
            let told = flag_bound s.cancelled in (omega arith, omega arith),
      )
