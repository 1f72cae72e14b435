-- ===== src/Procfs/Once.antt =====
-- What a reader of the /proc file of procfs.c sees, and what a second writer achieves.
use eltex.Base.{
  ℕ, ◌≡◌, ◌∙◌, true, false, some, List, [], ◌∷◌, ◌++◌, arith, Option-cases, inl, inr, length, drop,
}
use eltex.Cstring.{text, IsTerminated}
use eltex.Cstring.Laws.{strlen-text, text-append}
use eltex.Procfs.{
  Proc, UserCopy, procfile_read, procfile_write, Call, read, write, call, calls, max_len_msg,
}

-- As `cat` reads it: where the message is terminated, a first call returns its length and leaves
-- it at the front of the buffer, the next returns 0, the end of the file, and the file is as before,
-- so that it can be read again.
pub read_twice :
    (s : Proc) (buffer again : List ℕ)
    → s.f_read ≡ false
    → IsTerminated s.msg
    → (t : Proc) × (filled : List ℕ) × (procfile_read s buffer
        ≡ some (t, length (text s.msg), filled))
      × (text filled ≡ text s.msg)
      × (procfile_read t again ≡ some (s, 0, s.msg ++ drop max_len_msg again))
unfolding procfile_read
read_twice s buffer again first ended =
    let filled = s.msg ++ drop max_len_msg buffer in
    let (filled_ended, same) = text-append s.msg (drop max_len_msg buffer) ended in
    (
      record s { f_read = true },
      filled,
      ground (arith, first, strlen-text filled filled_ended, same),
      same,
      ground (arith, first),
    )

call_kept :
    (user : UserCopy) (s t : Proc) (c : Call)
    → s.f_write ≡ true
    → call user s c ≡ some t
    → (t.msg ≡ s.msg) × (t.f_write ≡ true)
unfolding call procfile_read procfile_write
call_kept user s t (read buffer) w h = ground arith
call_kept user s t (write buffer) w h = ground arith

calls_kept :
    (user : UserCopy) (cs : List Call) (s t : Proc)
    → s.f_write ≡ true
    → calls user s cs ≡ some t
    → t.msg ≡ s.msg
unfolding calls
calls_kept user [] s t w h = ground arith
calls_kept user (c ∷ cs) s t w h = elim (Option-cases (call user s c)) [
  | inl stops ↦ ground (arith, stops)
  | inr (m, goes) ↦
      let (same, still) = call_kept user s m c w goes in
      calls_kept user cs m t still (rw (goes, calls) at h) ∙ same
]

-- The first write is the only one: after it no sequence of reads and writes changes the message.
pub write_once :
    (user : UserCopy) (s t u : Proc) (buffer : List ℕ) (cs : List Call)
    → call user s (write buffer) ≡ some t
    → calls user t cs ≡ some u
    → u.msg ≡ t.msg
unfolding call procfile_write
write_once user s t u buffer cs h k = calls_kept user cs t u (ground arith) k
