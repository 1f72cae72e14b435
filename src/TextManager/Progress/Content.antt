-- ===== src/TextManager/Progress/Content.antt =====
-- What the destination of copy.c holds while the threads run, beside the loop of Copy by itself.
use eltex.Base.{
  refl, sym, ℕ, ◌+◌, ◌*◌, ◌/◌, ◌≤◌, ◌<◌, ◌≡◌, ap, ◌∙◌, some, List, [], ◌++◌, length, length-drop,
  length-append, length-take, take, drop, arith,
}
use mathlib.Core.List.{append_assoc, append-nil}
use eltex.TextManager.Copy.Blocks.{take-drop-take}
use eltex.TextManager.Progress.{
  Phase, more, last, Copier, opening, reading, locking, storing, signalling, unlocking, Drawer,
  System, Step, open_files, refuse, copy_block, stop, acquire, store, signal, signal_earlier,
  signal_nobody, release, cancel, draw, draw_earlier, Reach, here, later, call,
}

-- The whole blocks of a file.
abbrev pub whole : List ℕ → List ℕ
whole bytes = take (1024 * (length bytes / 1024)) bytes

whole_next : (xs : List ℕ) → 1024 ≤ length xs → whole xs ≡ take 1024 xs ++ whole (drop 1024 xs)
whole_next xs long =
    let left = length-drop 1024 xs in
    let sizes : 1024 * (length xs / 1024) ≡ 1024 + 1024 * (length (drop 1024 xs) / 1024) =
      omega (arith, left) in
    rw sizes (sym (take-drop-take 1024 (1024 * (length (drop 1024 xs) / 1024)) xs))

whole_short : (xs : List ℕ) → length xs < 1024 → whole xs ≡ []
whole_short xs short = let none_whole : 1024 * (length xs / 1024) ≡ 0 = omega arith in rw none_whole

-- Between two blocks: what is written, with the whole blocks of what is left, makes the file's.
abbrev pub IsBetween : List ℕ → List ℕ → ℕ → List ℕ → Type 0
IsBetween bytes written size rest =
    (written ++ whole rest ≡ whole bytes)
    × (size ≡ length bytes)
    × (length written + length rest ≡ length bytes)

abbrev pub InPhase : List ℕ → List ℕ → ℕ → Phase → Type 0
InPhase bytes written size (more rest) = IsBetween bytes written size rest × (0 < length written)
InPhase bytes written size last = written ≡ whole bytes

abbrev pub HasCopied : List ℕ → List ℕ → ℕ → Copier → Type 0
HasCopied bytes written size (opening source) = (source ≡ some bytes) × (written ≡ [])
HasCopied bytes written size (reading rest) = IsBetween bytes written size rest
HasCopied bytes written size (locking p) = InPhase bytes written size p
HasCopied bytes written size (storing p) = InPhase bytes written size p
HasCopied bytes written size (signalling p) = InPhase bytes written size p
HasCopied bytes written size (unlocking p) = InPhase bytes written size p
HasCopied bytes written size _ = written ≡ whole bytes

between_next :
    (bytes written rest : List ℕ) (size : ℕ)
    → 1024 ≤ length rest
    → IsBetween bytes written size rest
    → InPhase bytes (written ++ take 1024 rest) size (more (drop 1024 rest))
between_next bytes written rest size long h =
    let grown = length-append written (take 1024 rest) in
    let taken = length-take 1024 rest in
    let left = length-drop 1024 rest in
    (
      (
        append_assoc written (take 1024 rest) (whole (drop 1024 rest))
            ∙ ap (◌++◌ written) (sym (whole_next rest long))
            ∙ h.0,
        h.1,
        omega (arith, grown, taken, left),
      ),
      omega (arith, grown, taken),
    )

opened :
    (bytes read written : List ℕ)
    → some read ≡ some bytes
    → written ≡ []
    → IsBetween bytes written (length read) read
opened bytes read written e empty =
    let same : read ≡ bytes = cc in rw (same, empty) (refl, refl, omega arith)

-- At a known point of the copier.
pub copied_at :
    (bytes : List ℕ) (s : System) (c : Copier)
    → s.copier ≡ c
    → HasCopied bytes s.written s.size s.copier
    → HasCopied bytes s.written s.size c
copied_at bytes s c e h = rw (sym e) h

module _ (percent_of : ℕ → ℕ → ℕ) (bytes : List ℕ) where
  Step-HasCopied :
      (s t : System)
      → Step percent_of s t
      → HasCopied bytes s.written s.size s.copier
      → HasCopied bytes t.written t.size t.copier
  Step-HasCopied s _ (open_files {bytes = read} at) h =
      let now = copied_at bytes s _ at h in opened bytes read s.written now.0 now.1
  Step-HasCopied s _ (refuse at) h = let now = copied_at bytes s _ at h in absurd cc
  Step-HasCopied s _ (copy_block {rest} at long) h =
      between_next bytes s.written rest s.size long (copied_at bytes s _ at h)
  Step-HasCopied s _ (stop {rest} at short) h =
      let now = copied_at bytes s _ at h in
      sym (append-nil s.written) ∙ ap (◌++◌ s.written) (sym (whole_short rest short)) ∙ now.0
  Step-HasCopied s _ (acquire at free) h = copied_at bytes s _ at h
  Step-HasCopied s _ (store at) h = copied_at bytes s _ at h
  Step-HasCopied s _ (signal at asleep) h = copied_at bytes s _ at h
  Step-HasCopied s _ (signal_earlier at asleep) h = copied_at bytes s _ at h
  Step-HasCopied s _ (signal_nobody at up left) h = copied_at bytes s _ at h
  Step-HasCopied s _ (release {p = more rest} at) h = (copied_at bytes s _ at h).0
  Step-HasCopied s _ (release {p = last} at) h = copied_at bytes s _ at h
  Step-HasCopied s _ (cancel at) h = copied_at bytes s _ at h
  Step-HasCopied s _ (draw same move) h = h
  Step-HasCopied s _ (draw_earlier move) h = h

  pub Reach-HasCopied :
      (garbage : ℕ) (left : Drawer) (s : System)
      → Reach percent_of (call (some bytes) garbage left) s
      → HasCopied bytes s.written s.size s.copier
  unfolding call
  Reach-HasCopied garbage left _ here = (refl, refl)
  Reach-HasCopied garbage left s (later {t} so_far step) =
      Step-HasCopied t s step (Reach-HasCopied garbage left t so_far)
