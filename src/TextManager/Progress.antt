-- ===== src/TextManager/Progress.antt =====
-- copy.c, the two threads of a copy: `_copy`, which copies and stores how far it is, and
-- `show_progress`, which draws that. Each step is up to the next access to what they share: the
-- mutex, the condition, and the variables of `_copy` that the other thread reads.
-- A thread that is cancelled in pthread_cond_wait takes the mutex again before it ends. A drawer
-- that is still alive when `copy` returns meets the threads of the next call: it is `earlier`.
-- The loop by itself is in Copy. Not modelled: failures of malloc, fwrite and pthread_create, and a drawer that outlives two calls.
pub mod Exclusive
pub mod Stuck
pub mod Numbers
pub mod Finishing
pub mod Turns
pub mod Content
pub mod Whole
use eltex.Base.{
  ℕ, ◌≤◌, ◌<◌, ◌≡◌, ◌≢◌, Bool, true, false, Option, none, some, List, [], ◌∷◌, ◌++◌, length, take,
  drop, ◌>>=◌, if◌then◌else◌,
}
use eltex.TextManager.Copy.{Files, block}
use eltex.TextManager.Copy
use eltex.Cstring.{equal, strcmp, text}

-- What a turn at the mutex is for: the block just written, with what is left of the source, or the end.
pub data Phase : Type 0 where
  more : List ℕ → Phase
  last : Phase

-- Where `_copy` stands: before fopen, with the bytes of the source if both files open, at fread, at
-- the three accesses under the mutex and before and behind them, before pthread_cancel, and gone.
pub data Copier : Type 0 where
  opening : Option (List ℕ) → Copier
  reading : List ℕ → Copier
  locking storing signalling unlocking : Phase → Copier
  cancelling returned : Copier

-- Where `show_progress` stands: before its lock, before pthread_cond_wait, in it, in it and woken,
-- at the drawing, and gone.
pub data Drawer : Type 0 where
  starting entering waiting woken drawing gone : Drawer

pub record System : Type 0 where
  pub locked : Bool
  pub cancelled : Bool
  pub percent : ℕ
  pub size : ℕ
  pub written : List ℕ
  pub shown : List ℕ  -- the numbers drawn, newest first; the code does not store them
  pub copier : Copier
  pub drawer : Drawer
  pub earlier : Drawer

-- A step of `show_progress`: from where it stands and the mutex, to those and what it draws.
pub data Draw (percent : ℕ) (cancelled : Bool)
    : Drawer → Bool → Drawer → Bool → List ℕ → Type 0 where
  lock : Draw percent cancelled starting false entering true []
  wait : {l : Bool} → Draw percent cancelled entering l waiting false []
  wake : {l : Bool} → Draw percent cancelled waiting l woken l []
  retake : Draw percent cancelled woken false drawing true []
  print : {l : Bool} → Draw percent cancelled drawing l entering l (percent ∷ [])
  end_entering : {l : Bool} → cancelled ≡ true → Draw percent cancelled entering l gone l []
  end_waiting : cancelled ≡ true → Draw percent cancelled waiting false gone true []
  end_woken : cancelled ≡ true → Draw percent cancelled woken false gone true []
  end_drawing : {l : Bool} → cancelled ≡ true → Draw percent cancelled drawing l gone l []

-- Behind pthread_mutex_unlock.
abbrev pub after : Phase → Copier
after (more rest) = reading rest
after last = cancelling

module _ (percent_of : ℕ → ℕ → ℕ) where
  -- The number stored; `percent_of` is the quotient of two doubles times 100, cut to an int.
  abbrev pub progress : Phase → ℕ → ℕ → ℕ
  progress (more rest) copied size = percent_of copied size
  progress last copied size = 100

  -- One step of one thread. The number is a variable of `_copy`: once that has returned, a drawer
  -- reads whatever stands there.
  pub data Step (s : System) : System → Type 0 where
    open_files :
        {bytes : List ℕ}
        → s.copier ≡ opening (some bytes)
        → Step s (record s { copier = reading bytes; size = length bytes })
    refuse : s.copier ≡ opening none → Step s (record s { copier = cancelling })
    copy_block :
        {rest : List ℕ}
        → s.copier ≡ reading rest
        → block ≤ length rest
        → Step s (record s {
          copier = locking (more (drop block rest));
          written = s.written ++ take block rest;
        })
    stop :
        {rest : List ℕ}
        → s.copier ≡ reading rest
        → length rest < block
        → Step s (record s { copier = locking last })
    acquire :
        {p : Phase}
        → s.copier ≡ locking p
        → s.locked ≡ false
        → Step s (record s { copier = storing p; locked = true })
    store :
        {p : Phase}
        → s.copier ≡ storing p
        → Step s
            (record s { copier = signalling p; percent = progress p (length s.written) s.size })
    signal :
        {p : Phase}
        → s.copier ≡ signalling p
        → s.drawer ≡ waiting
        → Step s (record s { copier = unlocking p; drawer = woken })
    signal_earlier :
        {p : Phase}
        → s.copier ≡ signalling p
        → s.earlier ≡ waiting
        → Step s (record s { copier = unlocking p; earlier = woken })
    signal_nobody :
        {p : Phase}
        → s.copier ≡ signalling p
        → s.drawer ≢ waiting
        → s.earlier ≢ waiting
        → Step s (record s { copier = unlocking p })
    release :
        {p : Phase}
        → s.copier ≡ unlocking p
        → Step s (record s { copier = after p; locked = false })
    cancel : s.copier ≡ cancelling → Step s (record s { copier = returned; cancelled = true })
    draw :
        {x : ℕ} {d : Drawer} {l : Bool} {drawn : List ℕ}
        → (s.copier ≢ returned → x ≡ s.percent)
        → Draw x s.cancelled s.drawer s.locked d l drawn
        → Step s (record s { drawer = d; locked = l; shown = drawn ++ s.shown })
    draw_earlier :
        {x : ℕ} {d : Drawer} {l : Bool} {drawn : List ℕ}
        → Draw x true s.earlier s.locked d l drawn
        → Step s (record s { earlier = d; locked = l; shown = drawn ++ s.shown })

  pub data Reach (s : System) : System → Type 0 where
    here : Reach s s
    later : {t u : System} → Reach s t → Step t u → Reach s u

-- Where `copy` goes on to pthread_join: the mutex is unlocked, whoever holds it, and the two threads start.
-- `garbage` is what the number holds before it is stored.
unfoldable pub call : Option (List ℕ) → ℕ → Drawer → System
call source garbage left = record {
  locked = false;
  cancelled = false;
  percent = garbage;
  size = 0;
  written = [];
  shown = [];
  copier = opening source;
  drawer = starting;
  earlier = left;
}

-- The bytes of the source, where both files open.
abbrev pub opened : Files → List ℕ → List ℕ → Option (List ℕ)
opened fs source destination = if fs.writable destination then fs.content source else none

-- `copy` up to pthread_join, which returns when the copier has: nothing is started for equal paths.
-- The paths are arrays, of which strcmp may read past the end.
unfoldable pub copy : Files → List ℕ → List ℕ → ℕ → Drawer → Option (Option System)
copy fs source destination garbage left = strcmp source destination >>= λ order. elim order [
  | equal ↦ some none
  | _ ↦ some (some (call (opened fs (text source) (text destination)) garbage left))
]

-- What the paths hold behind pthread_join: fopen makes the destination empty, also where the source
-- cannot be opened.
unfoldable pub files_after : Files → List ℕ → System → Files
files_after fs destination s =
    if fs.writable (text destination) then Copy.store (text destination) s.written fs else fs
