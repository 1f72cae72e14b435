-- ===== src/Shadow/Raised.antt =====
-- Whose rights core/shadow raises.
use eltex.Base.{ℕ, suc, ◌≤◌, ◌<◌, ◌≡◌, ◌≢◌, refl, none, some, List, ◌∷◌, ◌++◌, arith, length, drop}
use eltex.Base.Int.{ℤ, pos}
use eltex.Cstring.{text, IsTerminated}
use eltex.Cstring.Laws.{strlen-text, zero-IsTerminated}
use eltex.Decimal.{decimal}
use eltex.Decimal.Printed.{length-decimal_short, length-decimal_long, decimal-text}
use eltex.Decimal.ReadBack.{scan_int-decimal}
use eltex.Shadow.{UserCopy, System, Cred, procfile_write, print_pid, main, max_len_msg, raise}

module _ (user : UserCopy) (s : System) (pid : ℕ) (cred : Cred)
    (there : s.tasks (pos pid) ≡ some cred) (short : pid < 1000) (rest : List ℕ) where
  abbrev buffer : List ℕ
  buffer = decimal pid ++ 0 ∷ rest

  buffer-text : (text buffer ≡ decimal pid) × IsTerminated buffer
  buffer-text = (decimal-text pid rest, zero-IsTerminated (decimal pid) rest)

  fits : length (text buffer) < max_len_msg
  fits = rw buffer-text.0 (omega (arith, length-decimal_short pid short))

  abbrev copied : List ℕ
  copied = decimal pid ++ 0 ∷ drop (suc (length (decimal pid))) s.msg

  abbrev raised : System
  raised = raise (pos pid) (record s { msg = copied; m_pid_task = pos pid })

  stored : user.strncpy_from_user max_len_msg s.msg buffer ≡ copied
  stored = rw buffer-text.0 at (user.copies max_len_msg s.msg buffer buffer-text.1 fits)

  written : procfile_write user s buffer ≡ some (raised, length (decimal pid))
  unfolding procfile_write
  written = ground (
    arith,
    stored,
    strlen-text copied (zero-IsTerminated (decimal pid) _),
    scan_int-decimal pid 0 (drop (suc (length (decimal pid))) s.msg) (omega arith) refl,
    there,
    strlen-text buffer buffer-text.1,
    buffer-text.0,
  )

-- Where its process exists and its number is below 1000, user_shadow.c raises the rights of its own
-- process to those of root and of no other, whatever the buffers held before, and the write
-- returns the length of the number's print.
pub main-raises :
    (user : UserCopy) (s : System) (old : List ℕ) (pid : ℕ) (cred : Cred)
    → s.tasks (pos pid) ≡ some cred
    → pid < 1000
    → (t : System) × (main user s old pid ≡ some (t, length (decimal pid)))
      × (t.tasks (pos pid) ≡ some (record { euid = 0; fsuid = 0 }))
      × ((p : ℤ) → p ≢ pos pid → t.tasks p ≡ s.tasks p)
unfolding main print_pid
main-raises user s old pid cred there short =
    let rest = drop (suc (length (decimal pid))) old in
    (
      raised user s pid cred there short rest,
      ground (arith, length-decimal_short pid short, written user s pid cred there short rest),
      ground arith,
      λ p other. ground arith,
    )

-- The print of a number of four digits or more does not fit the four bytes that user_shadow.c
-- allocates for it.
pub main_overflows :
    (user : UserCopy) (s : System) (old : List ℕ) (pid : ℕ)
    → 1000 ≤ pid
    → main user s old pid ≡ none
unfolding main print_pid
main_overflows user s old pid long = ground (arith, length-decimal_long pid long)
