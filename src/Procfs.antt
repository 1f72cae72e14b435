-- ===== src/Procfs.antt =====
-- core/procdev/procfs.c: the two handlers of a /proc file with a buffer of ten bytes. `none` is a
-- strlen that runs past its memory. Creating and removing the file are calls of the kernel and are
-- not modelled, nor is what printk prints; a user's buffer is a list of bytes.
pub mod Once
use eltex.Base.{
  ◌>>=◌, ℕ, suc, ◌-◌, Bool, true, false, Option, none, some, List, [], ◌∷◌, ◌++◌, if◌then◌else◌,
  drop, length,
}
use eltex.Base.Int.{ℤ, pos}
use eltex.Cstring.{strlen}

abbrev pub max_len_msg : ℕ
max_len_msg = 10

-- `msg` and the static flags of the two handlers.
pub record Proc : Type 0 where
  pub msg : List ℕ
  pub f_read : Bool
  pub f_write : Bool

-- strncpy_from_user(msg, buffer, n): what it returns, and what it makes of `msg`.
pub record UserCopy : Type 0 where
  pub strncpy_from_user : ℕ → List ℕ → List ℕ → ℤ × List ℕ

-- What is returned, and the user's buffer, of which the message replaces the first ten bytes;
-- strlen measures that buffer.
unfoldable pub procfile_read : Proc → List ℕ → Option (Proc × ℕ × List ℕ)
procfile_read s buffer =
    let filled = s.msg ++ drop max_len_msg buffer in
    if s.f_read
    then some (record s { f_read = false }, 0, filled)
    else strlen filled >>= λ n. some (record s { f_read = true }, n, filled)

unfoldable pub procfile_write : UserCopy → Proc → List ℕ → Option (Proc × ℤ)
procfile_write user s buffer =
    if s.f_write
    then (strlen buffer >>= λ n. some (s, pos n))
    else let (count_read, msg) = user.strncpy_from_user (max_len_msg - 1) s.msg buffer in
      some (record s { msg = msg; f_write = true }, count_read)

pub data Call : Type 0 where
  read write : List ℕ → Call

-- The file after a call.
unfoldable pub call : UserCopy → Proc → Call → Option Proc
call user s (read buffer) = procfile_read s buffer >>= λ r. some r.0
call user s (write buffer) = procfile_write user s buffer >>= λ r. some r.0

unfoldable pub calls : UserCopy → Proc → List Call → Option Proc
calls user s [] = some s
calls user s (c ∷ cs) = elim (call user s c) [ none ↦ none | some t ↦ calls user t cs ]
