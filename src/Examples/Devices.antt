-- ===== src/Examples/Devices.antt =====
-- ioctl_dev.c with the message "hi", and with a buffer that has no zero.
use eltex.Base.{
  ℕ, ◌≡◌, refl, true, some, List, [], ◌∷◌, ◌++◌, arith, length, take, drop, replicate, suc, inl,
  inr,
}
use eltex.Base.Int.{pos}
use eltex.Cstring.{text}
use eltex.IoctlDev.{
  device_open, device_release, Device, UserCopy, device_write, ioctl_set_msg, read_bytes,
}
use eltex.IoctlDev.Exclusive.{FileCall, open_file, close_file, file_call, file_calls}
use eltex.IoctlDev.Reading.{Holds}
use eltex.IoctlDev.Written.{Copies, read_pieces, sum, write-read, read_bytes-message}

-- The copy of a string that fits; the size of a longer one does not matter here.
abbrev user : UserCopy
user = record {
  strncpy_from_user = λ old source.
      (pos (length (text source)), text source ++ 0 ∷ drop (suc (length (text source))) old);
}

user-Copies : Copies user
user-Copies old source ended short sized = refl

abbrev hi : List ℕ
hi = b'h' ∷ b'i' ∷ 0 ∷ []

abbrev fresh : Device
fresh = record { device_open = pos 1; msg = replicate 80 b'x'; msg_ptr = some 0 }

abbrev holding : Device
holding = record { device_open = pos 1; msg = hi ++ replicate 77 b'x'; msg_ptr = some 1 }

holding-Holds : Holds holding (b'h' ∷ b'i' ∷ []) 1
holding-Holds = record {
  rest = replicate 77 b'x';
  stored = refl;
  no_zero = omega arith;
  pointer = refl;
  inside = omega arith;
}

write-read_example :
    (read_pieces (device_write user fresh hi).0 (1 ∷ 5 ∷ [])
      ≡ some (take (sum (1 ∷ 5 ∷ [])) (text hi)))
    × (read_pieces (ioctl_set_msg user fresh hi).0 (1 ∷ 5 ∷ [])
        ≡ some (take (sum (1 ∷ 5 ∷ [])) (text hi)))
    × ((device_write user fresh hi).1 ≡ pos (length (text hi)))
write-read_example =
    write-read user user-Copies hi (inr (inr (inl refl))) (unfold text in omega arith) fresh
      (1 ∷ 5 ∷ []) refl

read_bytes-message_example : read_bytes holding 3 0 ≡ some (b'h' ∷ b'i' ∷ 0 ∷ [], true)
read_bytes-message_example =
    read_bytes-message holding (b'h' ∷ b'i' ∷ []) 1 3 holding-Holds (omega arith) (omega arith)

abbrev unused : Device
unused = record fresh { device_open = pos 0 }

-- The second of two attempts fails, and after a close the next succeeds.
abbrev attempts : List FileCall
attempts = open_file ∷ open_file ∷ close_file ∷ open_file ∷ []

attempts-file_calls : file_calls unused 0 attempts ≡ some (fresh, 1)
unfolding file_calls file_call device_open device_release
attempts-file_calls = refl
