-- ===== src/Shadow.antt =====
-- core/shadow: kernel_shadow.c gives the process whose number is written to its /proc file the rights
-- of root, and user_shadow.c writes its own number there. `none` is an access outside a buffer or
-- through a NULL pointer. Listing is the printing of
-- /etc/shadow at the end. Not modelled: opening the files and the wait for SIGUSR1.
pub mod Raised
pub mod Listing
use eltex.Base.{
  ℕ, suc, ◌+◌, ◌≤◌, ◌<◌, ◌≡◌, Option, none, some, List, [], ◌∷◌, ◌++◌, ltb, ◌==◌, if◌then◌else◌,
  ◌>>=◌, length, take, drop,
}
use eltex.Base.Int.{ℤ, pos, negsuc, eqb_ℤ}
use eltex.Cstring.{strlen, text, IsTerminated}
use eltex.Decimal.{decimal, scan_int}

-- MAX_LEN_MSG.
abbrev pub max_len_msg : ℕ
max_len_msg = 5

pub record Cred : Type 0 where
  pub euid : ℕ
  pub fsuid : ℕ

-- The statics of the module, and the credentials of the processes that there are.
pub record System : Type 0 where
  pub msg : List ℕ
  pub m_pid_task : ℤ
  pub tasks : ℤ → Option Cred

-- strncpy_from_user as it is documented for a string that fits the count: the string and its zero.
pub record UserCopy : Type 0 where
  pub strncpy_from_user : ℕ → List ℕ → List ℕ → List ℕ
  pub copies :
      (n : ℕ) (old source : List ℕ)
      → IsTerminated source
      → length (text source) < n
      → strncpy_from_user n old source ≡ text source ++ 0 ∷ drop (suc (length (text source))) old

-- What sscanf leaves in the variable: a matching failure keeps what it held.
abbrev pub converted : ℤ → Option (ℤ × List ℕ) → ℤ
converted old none = old
converted old (some (v, rest)) = v

abbrev pub raise : ℤ → System → System
raise pid s = record s {
  tasks = λ p. if eqb_ℤ p pid then some (record { euid = 0; fsuid = 0 }) else s.tasks p;
}

-- What it returns is the length of the user's buffer.
unfoldable pub procfile_write : UserCopy → System → List ℕ → Option (System × ℕ)
procfile_write user s buffer = do
  let msg = user.strncpy_from_user max_len_msg s.msg buffer
  shown ← strlen msg
  scanned ← scan_int msg
  let pid = converted s.m_pid_task scanned
  cred ← s.tasks pid
  n ← strlen buffer
  some (raise pid (record s { msg = msg; m_pid_task = pid }), n)

-- `sprintf(buffer, "%d", pid)` into the four bytes of malloc(sizeof(int)); `old` is what they held.
unfoldable pub print_pid : List ℕ → ℕ → Option (List ℕ)
print_pid old pid =
    let s = decimal pid in
    if ltb (length s) 4 then some (s ++ 0 ∷ drop (suc (length s)) old) else none

-- main of user_shadow.c up to its wait: the buffer printed, and written to the file of the module.
unfoldable pub main : UserCopy → System → List ℕ → ℕ → Option (System × ℕ)
main user s old pid = print_pid old pid >>= λ buffer. procfile_write user s buffer
