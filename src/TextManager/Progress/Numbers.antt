-- ===== src/TextManager/Progress/Numbers.antt =====
-- The numbers that show_progress of copy.c draws.
use eltex.Base.{
  refl, sym, ℕ, ◌≤◌, ◌<◌, ◌≡◌, ◌≢◌, ◌⊎◌, inl, inr, suc, zero, Bool, List, [], ◌∷◌, ◌++◌, All,
  length, ◌∙◌, length-append, length-take, take, arith, some,
}
use eltex.TextManager.Progress.{
  Phase, more, last, Copier, opening, reading, locking, storing, signalling, unlocking, cancelling,
  returned, Drawer, gone, System, Draw, lock, wait, wake, retake, print, end_entering, end_waiting,
  end_woken, end_drawing, Step, open_files, refuse, copy_block, stop, acquire, store, signal,
  signal_earlier, signal_nobody, release, cancel, draw, draw_earlier, Reach, here, later, call,
}
use eltex.TextManager.Progress.Exclusive.{IsOrderly, no_steps, Reach-IsOrderly}
use eltex.TextManager.Progress.Content.{HasCopied, copied_at, Reach-HasCopied}

-- Newest first, numbers that fall, from at most `top`, until only `garbage` follows.
abbrev pub Falls : ℕ → ℕ → List ℕ → Type 0
Falls garbage top [] = Unit
Falls garbage top (x ∷ xs) = All (λ y. y ≡ garbage) (x ∷ xs) ⊎ (x ≤ top) × Falls garbage x xs

Falls-weaken :
    (garbage low high : ℕ) (xs : List ℕ) → low ≤ high → Falls garbage low xs → Falls garbage high xs
Falls-weaken garbage low high [] le h = tt
Falls-weaken garbage low high (x ∷ xs) le (inl h) = inl h
Falls-weaken garbage low high (x ∷ xs) le (inr h) = inr (omega arith, h.1)

Falls-garbage : (garbage top : ℕ) (xs : List ℕ) → All (λ y. y ≡ garbage) xs → Falls garbage top xs
Falls-garbage garbage top [] h = tt
Falls-garbage garbage top (x ∷ xs) h = inl h

module _ (percent_of : ℕ → ℕ → ℕ) where
  -- The number that stands for the bytes written; before the first block there is none.
  abbrev reached : ℕ → ℕ → ℕ
  reached zero size = 0
  reached (suc n) size = percent_of (suc n) size

  -- What the stored number is at most.
  abbrev top_phase : Phase → ℕ → ℕ → ℕ
  top_phase (more rest) n size = reached n size
  top_phase last n size = 100

  abbrev top : Copier → ℕ → ℕ → ℕ
  top (opening source) n size = 0
  top (reading rest) n size = reached n size
  top (locking p) n size = top_phase p n size
  top (storing p) n size = top_phase p n size
  top (signalling p) n size = top_phase p n size
  top (unlocking p) n size = top_phase p n size
  top _ n size = 100

-- Before the first number was stored, and from then on.
abbrev Told : ℕ → ℕ → List ℕ → ℕ → Type 0
Told garbage percent shown high =
    (percent ≡ garbage) × All (λ y. y ≡ garbage) shown
    ⊎ (percent ≤ high) × Falls garbage percent shown

Told-weaken :
    (garbage percent : ℕ) (shown : List ℕ) (low high : ℕ)
    → low ≤ high
    → Told garbage percent shown low
    → Told garbage percent shown high
Told-weaken garbage percent shown low high le (inl h) = inl h
Told-weaken garbage percent shown low high le (inr h) = inr (omega arith, h.1)

Told-store :
    (garbage percent : ℕ) (shown : List ℕ) (high : ℕ)
    → Told garbage percent shown high
    → Told garbage high shown high
Told-store garbage percent shown high (inl h) =
    inr (omega arith, Falls-garbage garbage high shown h.1)
Told-store garbage percent shown high (inr h) =
    inr (omega arith, Falls-weaken garbage percent high shown h.0 h.1)

Told-print :
    (garbage percent : ℕ) (shown : List ℕ) (high : ℕ)
    → Told garbage percent shown high
    → Told garbage percent (percent ∷ shown) high
Told-print garbage percent shown high (inl h) = inl (h.0, h)
Told-print garbage percent shown high (inr h) = inr (h.0, inr (omega arith, h.1))

Told-draw :
    (garbage percent x : ℕ) (cancelled : Bool) (d d' : Drawer) (l l' : Bool) (drawn shown : List ℕ)
    (high : ℕ)
    → x ≡ percent
    → Draw x cancelled d l d' l' drawn
    → Told garbage percent shown high
    → Told garbage percent (drawn ++ shown) high
Told-draw garbage percent x cancelled _ _ _ _ _ shown high e lock h = h
Told-draw garbage percent x cancelled _ _ _ _ _ shown high e wait h = h
Told-draw garbage percent x cancelled _ _ _ _ _ shown high e wake h = h
Told-draw garbage percent x cancelled _ _ _ _ _ shown high e retake h = h
Told-draw garbage percent x cancelled _ _ _ _ _ shown high e print h =
    rw e (Told-print garbage percent shown high h)
Told-draw garbage percent x cancelled _ _ _ _ _ shown high e (end_entering told) h = h
Told-draw garbage percent x cancelled _ _ _ _ _ shown high e (end_waiting told) h = h
Told-draw garbage percent x cancelled _ _ _ _ _ shown high e (end_woken told) h = h
Told-draw garbage percent x cancelled _ _ _ _ _ shown high e (end_drawing told) h = h

module _ (percent_of : ℕ → ℕ → ℕ)
    (rises : (a b n : ℕ) → 0 < a → a ≤ b → b ≤ n → percent_of a n ≤ percent_of b n)
    (bounded : (a n : ℕ) → 0 < a → a ≤ n → percent_of a n ≤ 100) where
  reached-rises : (a b n : ℕ) → a ≤ b → b ≤ n → reached percent_of a n ≤ reached percent_of b n
  reached-rises zero b n le le' = omega arith
  reached-rises (suc a) zero n le le' = absurd (omega arith)
  reached-rises (suc a) (suc b) n le le' = rises (suc a) (suc b) n (omega arith) le le'

  reached-bounded : (a n : ℕ) → a ≤ n → reached percent_of a n ≤ 100
  reached-bounded zero n le = omega arith
  reached-bounded (suc a) n le = bounded (suc a) n (omega arith) le

  progress_reached : (a n : ℕ) → 0 < a → percent_of a n ≡ reached percent_of a n
  progress_reached zero n h = absurd (omega arith)
  progress_reached (suc a) n h = refl

  abbrev IsTold : ℕ → System → Copier → Type 0
  IsTold garbage s c = Told garbage s.percent s.shown (top percent_of c (length s.written) s.size)

  IsTold-at :
      (garbage : ℕ) (s : System) (c : Copier)
      → s.copier ≡ c
      → (s.copier ≢ returned → IsTold garbage s s.copier)
      → c ≢ returned
      → IsTold garbage s c
  IsTold-at garbage s c e h on = rw (sym e) (h (λ over. on (sym e ∙ over)))

  Step-IsTold :
      (bytes : List ℕ) (garbage : ℕ) (s t : System)
      → Step percent_of s t
      → IsOrderly s
      → HasCopied bytes s.written s.size s.copier
      → (s.copier ≢ returned → IsTold garbage s s.copier)
      → t.copier ≢ returned
      → IsTold garbage t t.copier
  Step-IsTold bytes garbage s _ (open_files at) o c h on =
      let now = IsTold-at garbage s _ at h (λ e. cc) in
      Told-weaken garbage s.percent s.shown 0 _ (omega arith) now
  Step-IsTold bytes garbage s _ (refuse at) o c h on =
      let now = IsTold-at garbage s _ at h (λ e. cc) in
      Told-weaken garbage s.percent s.shown 0 _ (omega arith) now
  Step-IsTold bytes garbage s _ (copy_block {rest} at long) o c h on =
      let now = IsTold-at garbage s _ at h (λ e. cc) in
      let copied = copied_at bytes s _ at c in
      let grown = length-append s.written (take 1024 rest) in
      let taken = length-take 1024 rest in
      Told-weaken garbage s.percent s.shown _ _
        (reached-rises (length s.written) (length (s.written ++ take 1024 rest)) s.size
          (omega (arith, grown)) (omega (arith, grown, taken)))
        now
  Step-IsTold bytes garbage s _ (stop at short) o c h on =
      let now = IsTold-at garbage s _ at h (λ e. cc) in
      let copied = copied_at bytes s _ at c in
      Told-weaken garbage s.percent s.shown _ _
        (reached-bounded (length s.written) s.size (omega arith)) now
  Step-IsTold bytes garbage s _ (acquire at free) o c h on = IsTold-at garbage s _ at h (λ e. cc)
  Step-IsTold bytes garbage s _ (store {p = more rest} at) o c h on =
      let now = IsTold-at garbage s _ at h (λ e. cc) in
      let copied = copied_at bytes s _ at c in
      rw (progress_reached (length s.written) s.size copied.1)
        (Told-store garbage s.percent s.shown _ now)
  Step-IsTold bytes garbage s _ (store {p = last} at) o c h on =
      let now = IsTold-at garbage s _ at h (λ e. cc) in Told-store garbage s.percent s.shown _ now
  Step-IsTold bytes garbage s _ (signal at asleep) o c h on = IsTold-at garbage s _ at h (λ e. cc)
  Step-IsTold bytes garbage s _ (signal_earlier at asleep) o c h on =
      IsTold-at garbage s _ at h (λ e. cc)
  Step-IsTold bytes garbage s _ (signal_nobody at up left) o c h on =
      IsTold-at garbage s _ at h (λ e. cc)
  Step-IsTold bytes garbage s _ (release {p = more rest} at) o c h on =
      IsTold-at garbage s _ at h (λ e. cc)
  Step-IsTold bytes garbage s _ (release {p = last} at) o c h on =
      IsTold-at garbage s _ at h (λ e. cc)
  Step-IsTold bytes garbage s _ (cancel at) o c h on = absurd (on refl)
  Step-IsTold bytes garbage s _ (draw {x} same move) o c h on =
      Told-draw garbage s.percent x s.cancelled s.drawer _ s.locked _ _ s.shown _ (same on) move
        (h on)
  Step-IsTold bytes garbage s _ (draw_earlier {x} move) o c h on =
      absurd (no_steps x _ _ _ _ _ o.0 move)

  Reach-IsTold :
      (bytes : List ℕ) (garbage : ℕ) (s : System)
      → Reach percent_of (call (some bytes) garbage gone) s
      → s.copier ≢ returned
      → IsTold garbage s s.copier
  unfolding call
  Reach-IsTold bytes garbage _ here on = inl (refl, tt)
  Reach-IsTold bytes garbage s (later {t} so_far step) on =
      Step-IsTold bytes garbage t s step (Reach-IsOrderly percent_of (some bytes) garbage t so_far)
        (Reach-HasCopied percent_of bytes garbage gone t so_far)
        (Reach-IsTold bytes garbage t so_far) on

  top-bounded :
      (bytes : List ℕ) (s : System) (c : Copier)
      → HasCopied bytes s.written s.size c
      → top percent_of c (length s.written) s.size ≤ 100
  top-bounded bytes s (opening source) h = omega arith
  top-bounded bytes s (reading rest) h = reached-bounded (length s.written) s.size (omega arith)
  top-bounded bytes s (locking (more rest)) h =
      reached-bounded (length s.written) s.size (omega arith)
  top-bounded bytes s (storing (more rest)) h =
      reached-bounded (length s.written) s.size (omega arith)
  top-bounded bytes s (signalling (more rest)) h =
      reached-bounded (length s.written) s.size (omega arith)
  top-bounded bytes s (unlocking (more rest)) h =
      reached-bounded (length s.written) s.size (omega arith)
  top-bounded bytes s (locking last) h = omega arith
  top-bounded bytes s (storing last) h = omega arith
  top-bounded bytes s (signalling last) h = omega arith
  top-bounded bytes s (unlocking last) h = omega arith
  top-bounded bytes s cancelling h = omega arith
  top-bounded bytes s returned h = omega arith

  -- Where the quotient of doubles rises with the bytes copied and is at most 100, with no drawer of an
  -- earlier copy alive, until `_copy` returns: the numbers that were drawn, from the newest back, fall
  -- from at most 100, until only what the number held before it was stored follows.
  pub shown-Falls :
      (bytes : List ℕ) (garbage : ℕ) (s : System)
      → Reach percent_of (call (some bytes) garbage gone) s
      → s.copier ≢ returned
      → Falls garbage 100 s.shown
  shown-Falls bytes garbage s way on = elim (Reach-IsTold bytes garbage s way on) [
    | inl h ↦ Falls-garbage garbage 100 s.shown h.1
    | inr h ↦
        let below =
          top-bounded bytes s s.copier (Reach-HasCopied percent_of bytes garbage gone s way) in
        Falls-weaken garbage s.percent 100 s.shown (omega arith) h.1
  ]
