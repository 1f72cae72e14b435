-- ===== src/IoctlDev.antt =====
-- core/ioctldev/ioctl_dev.c, a character device that hands out one message, and the loops of
-- core/ioctldev/main.c that read it. `none` is a read outside `msg` or through a NULL msg_ptr.
-- Registering the device and what the programs print beside the message are not modelled.
pub mod Exclusive
pub mod Reading
pub mod Written
use eltex.Base.{
  ◌>>=◌, ℕ, zero, suc, ◌+◌, Bool, true, false, Option, none, some, List, [], ◌∷◌, ◌++◌, ◌==◌, leb,
  if◌then◌else◌, get_elem?,
}
use eltex.Base.Int.{ℤ, pos, negsuc, ◌+ℤ◌, ◌-ℤ◌, eqb_ℤ}

abbrev pub buf_len : ℕ
buf_len = 80

-- The kernel's -EBUSY.
abbrev pub ebusy : ℤ
ebusy = negsuc 15

-- The statics of the module; `msg_ptr` is an index into `msg`, and NULL before the first open.
pub record Device : Type 0 where
  pub device_open : ℤ
  pub msg : List ℕ
  pub msg_ptr : Option ℕ

-- strncpy_from_user(msg, source, BUF_LEN): what it returns, and what it makes of `msg`.
pub record UserCopy : Type 0 where
  pub strncpy_from_user : List ℕ → List ℕ → ℤ × List ℕ

unfoldable pub device_open : Device → Device × ℤ
device_open s =
    if eqb_ℤ s.device_open (pos 0)
    then (record s { device_open = s.device_open +ℤ pos 1; msg_ptr = some 0 }, pos 0)
    else (s, ebusy)

unfoldable pub device_release : Device → Device × ℤ
device_release s = (record s { device_open = s.device_open -ℤ pos 1 }, pos 0)

-- `while (length && *msg_ptr)`: what was put to the user, and where msg_ptr stands.
unfoldable pub read_loop : List ℕ → ℕ → ℕ → Option (List ℕ × ℕ)
read_loop msg zero at = some ([], at)
read_loop msg (suc n) at =
    let next = read_loop msg n (at + 1) in
    get_elem? msg at >>= λ b. if b == 0 then some ([], at) else next >>= λ r. some (b ∷ r.0, r.1)

-- The bytes put to the user; their number is what device_read returns.
unfoldable pub device_read : Device → ℕ → Option (Device × List ℕ)
device_read s n = do
  at ← s.msg_ptr
  first ← get_elem? s.msg at
  if first == 0
      then some (s, [])
      else do (bytes, at') ← read_loop s.msg n at; some (record s { msg_ptr = some at' }, bytes)

module _ (user : UserCopy) where
  unfoldable pub device_write : Device → List ℕ → Device × ℤ
  device_write s source =
      let (i, msg) = user.strncpy_from_user s.msg source in
      (record s { msg = msg; msg_ptr = some 0 }, i)

  -- IOCTL_SET_MSG copies into `msg`, and then writes the same buffer.
  unfoldable pub ioctl_set_msg : Device → List ℕ → Device × ℤ
  unfolding device_write
  ioctl_set_msg s source =
      let (i, msg) = user.strncpy_from_user s.msg source in
      let (s', written) = device_write (record s { msg = msg }) source in (s', pos 0)

-- IOCTL_GET_MSG: at most 99 bytes, and a zero behind them.
unfoldable pub ioctl_get_msg : Device → Option (Device × List ℕ)
ioctl_get_msg s = do (s', bytes) ← device_read s 99; some (s', bytes ++ (0 ∷ []))

-- IOCTL_GET_NTH_BYTE: `return msg[ioctl_param]`, of any parameter.
unfoldable pub ioctl_get_nth_byte : Device → ℕ → Option ℕ
ioctl_get_nth_byte s n = get_elem? s.msg n

-- The loop of main.c that asks for one byte after another up to the zero, with the bytes that it
-- prints. A char is signed there, and a byte of 128 or more reads as a failure: `false`.
unfoldable pub read_bytes : Device → ℕ → ℕ → Option (List ℕ × Bool)
read_bytes s zero i = none
read_bytes s (suc fuel) i =
    let rest = read_bytes s fuel (i + 1) in
    ioctl_get_nth_byte s i >>= λ c.
    if leb 128 c
    then some ([], false)
    else if c == 0
    then some (0 ∷ [], true)
    else rest >>= λ r. some (c ∷ r.0, r.1)
