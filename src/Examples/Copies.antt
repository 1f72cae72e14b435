-- ===== src/Examples/Copies.antt =====
-- copy.c and ui.c on a file of three bytes, and procfs.c with the message "hi".
use eltex.Base.{ℕ, ◌≡◌, refl, true, false, some, List, [], ◌∷◌, replicate}
use eltex.Base.Int.{pos}
use eltex.Cstring.{strlen}
use eltex.TextManager.Copy.{Files}
use eltex.Procfs.{Proc, UserCopy, procfile_read, procfile_write, call, calls, read, write}
use eltex.Procfs.Once.{write_once}

abbrev files : Files
files = record { content = λ path. some (1 ∷ 2 ∷ 3 ∷ []); writable = λ path. true }

abbrev a : List ℕ
a = b'a' ∷ 0 ∷ []

abbrev b : List ℕ
b = b'b' ∷ 0 ∷ []

abbrev hi_msg : List ℕ
hi_msg = b'h' ∷ b'i' ∷ replicate 8 0

abbrev proc : Proc
proc = record { msg = hi_msg; f_read = false; f_write = false }

-- It copies the string "hi", whatever is asked for.
abbrev user : UserCopy
user = record { strncpy_from_user = λ n old source. (pos 2, hi_msg) }

abbrev written : Proc
written = record proc { f_write = true }

first_write : call user proc (write hi_msg) ≡ some written
unfolding call procfile_write
first_write = refl

abbrev seen : Proc
seen = record written { f_read = true }

later_calls : calls user written (write a ∷ read (replicate 16 1) ∷ []) ≡ some seen
unfolding calls call procfile_write procfile_read strlen
later_calls = refl

write_once_example : seen.msg ≡ written.msg
write_once_example =
    write_once user proc written seen hi_msg (write a ∷ read (replicate 16 1) ∷ []) first_write
      later_calls
