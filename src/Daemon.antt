-- ===== src/Daemon.antt =====
-- daemon/main.c: daemonize, as what it does in the process that returns from fork with an answer.
-- Not modelled: what is printed when it fails, and the options of the log.
pub mod Detached
use eltex.Base.{
  refl, ℕ, ◌≡◌, ◌≢◌, ◌⊎◌, inl, inr, Bool, true, false, ◌&&◌, List, [], ◌∷◌, ◌++◌, if◌then◌else◌,
  ltb, arith,
}
use eltex.Base.Int.{ℤ, pos, negsuc}

-- What the kernel answers.
pub record Answers : Type 0 where
  pub fork : ℤ
  pub setsid : ℤ
  pub chdir : ℤ

pub data Act : Type 0 where
  cleared_umask became_leader ignored_children moved_to_root logged : Act
  closed : ℕ → Act

pub data End : Type 0 where
  returned exit_success exit_failure : End

pub record Run : Type 0 where
  pub acts : List Act
  pub end : End

abbrev is_negative : ℤ → Bool
is_negative (pos n) = false
is_negative (negsuc n) = true

abbrev is_positive : ℤ → Bool
is_positive (pos n) = ltb 0 n
is_positive (negsuc n) = false

abbrev stop : List Act → End → Run
stop acts end = record { acts = acts; end = end }

-- Behind setsid and chdir.
abbrev pub detach : List Act → Run
detach acts = stop (acts ++ moved_to_root ∷ closed 0 ∷ closed 1 ∷ closed 2 ∷ logged ∷ []) returned

unfoldable pub daemonize : Answers → Run
daemonize a =
    if is_negative a.fork
    then stop [] exit_failure
    else if is_positive a.fork
    then stop [] exit_success
    else if is_negative a.setsid
    then stop (cleared_umask ∷ []) exit_failure
    else if is_negative a.chdir
    then stop (cleared_umask ∷ became_leader ∷ ignored_children ∷ []) exit_failure
    else detach (cleared_umask ∷ became_leader ∷ ignored_children ∷ [])
