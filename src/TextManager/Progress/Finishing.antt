-- ===== src/TextManager/Progress/Finishing.antt =====
-- That `_copy` of copy.c is never kept from going on, and where it ends.
use eltex.Base.{
  ◌≤◌, ◌⊎◌, inl, inr, refl, sym, ℕ, ◌+◌, ◌*◌, ◌<◌, ◌≡◌, ◌≢◌, ◌∙◌, ap, zero, suc, Bool, true, false,
  some, none, List, [], length, length-drop, ◌++◌, arith,
}
use native.Mathlib.Decide.{dec_lt}
use eltex.TextManager.Copy.{copy_blocks}
use eltex.TextManager.Copy.Blocks.{copy_blocks-take}
use eltex.TextManager.Progress.{
  Phase, more, last, Copier, opening, reading, locking, storing, signalling, unlocking, cancelling,
  returned, Drawer, starting, entering, waiting, woken, drawing, gone, System, Draw, wait, print,
  Step, open_files, refuse, copy_block, stop, acquire, store, signal, signal_nobody, release,
  cancel, draw, Reach, here, later, call,
}
use eltex.TextManager.Progress.Exclusive.{
  flag, drawer_holds, is_gone, IsOrderly, Step-IsOrderly, Reach-IsOrderly, copier_at,
}
use eltex.TextManager.Progress.Turns.{todo, turns, turns-todo}
use eltex.TextManager.Progress.Content.{copied_at, Reach-HasCopied}

unlocked : (b : Bool) → flag b ≡ 0 → b ≡ false
unlocked false e = refl
unlocked true e = absurd (omega arith)

module _ (percent_of : ℕ → ℕ → ℕ) where
  then : {s t u : System} → Step percent_of s t → Reach percent_of t u → Reach percent_of s u
  then step here = later here step
  then step (later rest next) = later (then step rest) next

  turn :
      {d' : Drawer} {l : Bool} {drawn : List ℕ} (s : System) (d : Drawer)
      → s.drawer ≡ d
      → Draw s.percent s.cancelled d s.locked d' l drawn
      → Step percent_of s (record s { drawer = d'; locked = l; shown = drawn ++ s.shown })
  turn s d e move = draw (λ _. refl) (rw e move)

  -- Where `_copy` waits for the mutex the drawer can be let go on until it is free.
  free_mutex :
      (s : System) (p : Phase) (d : Drawer)
      → s.copier ≡ locking p
      → s.drawer ≡ d
      → IsOrderly s
      → (t : System) × Reach percent_of s t × (t.copier ≡ locking p) × (t.locked ≡ false)
  free_mutex s p starting at e h =
      let now = copier_at s _ at h in
      let held = ap drawer_holds e in (s, here, at, unlocked s.locked (omega arith))
  free_mutex s p entering at e h = (_, then (turn s entering e wait) here, at, refl)
  free_mutex s p waiting at e h =
      let now = copier_at s _ at h in
      let held = ap drawer_holds e in (s, here, at, unlocked s.locked (omega arith))
  free_mutex s p woken at e h =
      let now = copier_at s _ at h in
      let held = ap drawer_holds e in (s, here, at, unlocked s.locked (omega arith))
  free_mutex s p drawing at e h =
      (_, then (turn s drawing e print) (then (draw (λ _. refl) wait) here), at, refl)
  free_mutex s p gone at e h =
      let now = copier_at s _ at h in let ended = ap is_gone e in absurd (omega arith)

  Reach-IsOrderly_from : {s t : System} → Reach percent_of s t → IsOrderly s → IsOrderly t
  Reach-IsOrderly_from here h = h
  Reach-IsOrderly_from (later {t} {u} so_far step) h =
      Step-IsOrderly percent_of t u step (Reach-IsOrderly_from so_far h)

  and_then : {s t u : System} → Reach percent_of s t → Reach percent_of t u → Reach percent_of s u
  and_then so_far here = so_far
  and_then so_far (later rest next) = later (and_then so_far rest) next

  -- Signalling, whether the drawer waits or not.
  signalled :
      (s : System) (p : Phase) (d : Drawer)
      → s.drawer ≡ d
      → s.copier ≡ signalling p
      → s.earlier ≡ gone
      → (t : System) × Step percent_of s t × (t.copier ≡ unlocking p)
  signalled s p waiting e at old = (_, signal at e, refl)
  signalled s p starting e at old = (_, signal_nobody at (λ w. cc) (λ w. cc), refl)
  signalled s p entering e at old = (_, signal_nobody at (λ w. cc) (λ w. cc), refl)
  signalled s p woken e at old = (_, signal_nobody at (λ w. cc) (λ w. cc), refl)
  signalled s p drawing e at old = (_, signal_nobody at (λ w. cc) (λ w. cc), refl)
  signalled s p gone e at old = (_, signal_nobody at (λ w. cc) (λ w. cc), refl)

  fewer : {c c' : Copier} → c ≡ c' → (n : ℕ) → todo c' < n → todo c < n
  fewer e n h = rw e h

  -- A turn of `_copy`, with what the drawer has to do before it.
  advance :
      (s : System) (c : Copier)
      → s.copier ≡ c
      → c ≢ returned
      → IsOrderly s
      → (t : System) × Reach percent_of s t × (todo t.copier < todo c)
  advance s (opening none) at on h = (_, then (refuse at) here, omega arith)
  advance s (opening (some bytes)) at on h = (_, then (open_files at) here, omega arith)
  advance s (reading rest) at on h = elim (dec_lt (length rest) 1024) [
    | yes short ↦ (_, then (stop at short) here, omega arith)
    | no long ↦ (_, then (copy_block at (omega arith)) here, omega (arith, length-drop 1024 rest))
  ]
  advance s (locking p) at on h =
      let (t, way, there, free) = free_mutex s p s.drawer at refl h in
      (_, later way (acquire there free), omega arith)
  advance s (storing p) at on h = (_, then (store at) here, omega arith)
  advance s (signalling p) at on h =
      let (t, step, there) = signalled s p s.drawer refl at h.0 in
      (t, then step here, fewer there _ (omega arith))
  advance s (unlocking (more rest)) at on h = (_, then (release at) here, omega arith)
  advance s (unlocking last) at on h = (_, then (release at) here, omega arith)
  advance s cancelling at on h = (_, then (cancel at) here, omega arith)
  advance s returned at on h = absurd (on refl)

  -- Either it has returned or it has a turn to take.
  is_over : (c : Copier) → (c ≡ returned) ⊎ (c ≢ returned)
  is_over returned = inl refl
  is_over (opening source) = inr (λ e. cc)
  is_over (reading rest) = inr (λ e. cc)
  is_over (locking p) = inr (λ e. cc)
  is_over (storing p) = inr (λ e. cc)
  is_over (signalling p) = inr (λ e. cc)
  is_over (unlocking p) = inr (λ e. cc)
  is_over cancelling = inr (λ e. cc)

  finish :
      (n : ℕ) (s : System)
      → todo s.copier < n
      → IsOrderly s
      → (t : System) × Reach percent_of s t × (t.copier ≡ returned)
  finish zero s enough h = absurd (omega arith)
  finish (suc n) s enough h = elim (is_over s.copier) [
    | inl over ↦ (s, here, over)
    | inr on ↦
        let (t, way, less) = advance s s.copier refl on h in
        let (u, rest, over) = finish n t (omega arith) (Reach-IsOrderly_from way h) in
        (u, and_then way rest, over)
  ]

  -- Of two files that open, with no drawer of an earlier copy alive: whatever order the threads took
  -- their steps in so far, `_copy` took at most seven of them and five for each byte of the source,
  -- and there is an order of further steps in which it returns, so it is never kept from going on;
  -- and wherever it returned, the destination holds what the copying loop without the other thread
  -- makes of the source.
  pub finish-copy_blocks :
      (bytes : List ℕ) (garbage : ℕ) (s : System)
      (way : Reach percent_of (call (some bytes) garbage gone) s)
      → (turns percent_of way ≤ 7 + 5 * length bytes)
        × ((t : System) × Reach percent_of s t × (t.copier ≡ returned))
        × (s.copier ≡ returned → copy_blocks (suc (length bytes)) bytes [] ≡ some s.written)
  unfolding call
  finish-copy_blocks bytes garbage s way = (
    omega (arith, turns-todo percent_of (call (some bytes) garbage gone) s way),
    finish (suc (todo s.copier)) s (omega arith)
        (Reach-IsOrderly percent_of (some bytes) garbage s way),
    λ over.
        let now = copied_at bytes s _ over (Reach-HasCopied percent_of bytes garbage gone s way) in
        copy_blocks-take (suc (length bytes)) bytes [] (omega arith) ∙ ap some (sym now),
  )
