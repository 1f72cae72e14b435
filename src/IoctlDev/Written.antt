-- ===== src/IoctlDev/Written.antt =====
-- The message of ioctl_dev.c written, and read back in the ways its clients have.
use eltex.Base.{
  take-nil, drop-nil, ℕ, zero, suc, ◌+◌, ◌-◌, ◌≤◌, ◌<◌, ◌≡◌, refl, ap, true, Option, none, some,
  List, [], ◌∷◌, ◌++◌, ◌==◌, arith, length, length-append, length-drop, Bool-cases, inl, inr, take,
  drop, min, All, get_elem?-none,
}
use mathlib.Core.Option
use eltex.Base.Int.{ℤ, pos}
use mathlib.Core.Path.{subst}
use native.Mathlib.Decide.{dec_lt}
use eltex.Cstring.{text, IsTerminated}
use eltex.IoctlDev.{
  Device, UserCopy, read_loop, device_read, device_write, ioctl_get_nth_byte, ioctl_get_msg,
  ioctl_set_msg, read_bytes, buf_len,
}
use eltex.IoctlDev.Reading.{NoZero, Holds, drop-cons, device_read-Holds}

-- strncpy_from_user as the kernel documents it, for a string that fits with its zero: it returns
-- the length, and stores the string and the zero.
abbrev pub Copies : UserCopy → Type 0
Copies user =
    (old source : List ℕ)
    → IsTerminated source
    → length (text source) < buf_len
    → length old ≡ buf_len
    → user.strncpy_from_user old source
      ≡ (pos (length (text source)), text source ++ 0 ∷ drop (suc (length (text source))) old)

-- Reads of given sizes, one after another, and all that they gave.
unfoldable pub read_pieces : Device → List ℕ → Option (List ℕ)
read_pieces s [] = some []
read_pieces s (n ∷ ns) = elim (device_read s n) [
  | none ↦ none
  | some (s', bytes) ↦ Option.map (◌++◌ bytes) (read_pieces s' ns)
]

unfoldable pub sum : List ℕ → ℕ
sum [] = 0
sum (n ∷ ns) = n + sum ns

take-split :
    (t : List ℕ) (n m : ℕ) → take n t ++ take m (drop (min n (length t)) t) ≡ take (n + m) t
take-split [] n m = rw (take-nil n, take-nil (n + m), drop-nil, take-nil m)
take-split (b ∷ t) zero m =
    let none_taken : min zero (suc (length t)) ≡ 0 = omega arith in
    let same : zero + m ≡ m = omega arith in rw (none_taken, same)
take-split (b ∷ t) (suc n) m =
    let less : min (suc n) (suc (length t)) ≡ suc (min n (length t)) = omega arith in
    let more : suc n + m ≡ suc (n + m) = omega arith in
    rw (less, more) (ap (◌∷◌ b) (take-split t n m))

take-drop-more :
    (t : List ℕ) (k n m : ℕ)
    → take n (drop k t) ++ take m (drop (k + min n (length t - k)) t) ≡ take (n + m) (drop k t)
take-drop-more t zero n m =
    let all : 0 + min n (length t - 0) ≡ min n (length t) = omega arith in rw all (take-split t n m)
take-drop-more [] (suc k) n m = rw (take-nil n, take-nil (n + m), drop-nil, take-nil m)
take-drop-more (b ∷ t) (suc k) n m =
    let shifted : suc k + min n (suc (length t) - suc k) ≡ suc (k + min n (length t - k)) =
      omega arith in
    rw shifted (take-drop-more t k n m)

read_pieces-take :
    (ns : List ℕ) (s : Device) (t : List ℕ) (k : ℕ)
    → Holds s t k
    → read_pieces s ns ≡ some (take (sum ns) (drop k t))
unfolding read_pieces sum
read_pieces-take [] s t k v = refl
read_pieces-take (n ∷ ns) s t k v =
    let (s', got, v', same, same_open) = device_read-Holds s t k n v in
    let later = read_pieces-take ns s' t (k + min n (length t - k)) v' in
    rw (← take-drop-more t k n (sum ns)) (ground (arith, got, later))

text-NoZero : (xs : List ℕ) → NoZero (text xs)
unfolding text
text-NoZero [] = tt
text-NoZero (b ∷ xs) = elim (Bool-cases (b == 0)) [
  | inl ends ↦ rw ends tt
  | inr goes_on ↦ rw goes_on (ground (arith, goes_on), text-NoZero xs)
]

module _ (user : UserCopy) (copies : Copies user) (source : List ℕ) (ended : IsTerminated source)
    (short : length (text source) < buf_len) where
  device_write-Holds :
      (s : Device)
      → length s.msg ≡ buf_len
      → Holds (device_write user s source).0 (text source) 0
        × ((device_write user s source).1 ≡ pos (length (text source)))
  unfolding device_write
  device_write-Holds s sized =
      let stored = copies s.msg source ended short sized in
      (
        record {
          rest = drop (suc (length (text source))) s.msg;
          stored = ap (λ (r : ℤ × List ℕ). r.1) stored;
          no_zero = text-NoZero source;
          pointer = refl;
          inside = omega arith;
        },
        ap (λ (r : ℤ × List ℕ). r.0) stored,
      )

  -- The buffer keeps its 80 bytes.
  copied_length :
      (old : List ℕ) → length old ≡ buf_len → length (user.strncpy_from_user old source).1 ≡ buf_len
  copied_length old sized = rw (copies old source ended short sized) (
      omega (
        arith,
        length-append (text source) (0 ∷ drop (suc (length (text source))) old),
        length-drop (suc (length (text source))) old,
      ))

  ioctl_set_msg-Holds :
      (s : Device) → length s.msg ≡ buf_len → Holds (ioctl_set_msg user s source).0 (text source) 0
  unfolding ioctl_set_msg
  ioctl_set_msg-Holds s sized =
      (device_write-Holds (record s { msg = (user.strncpy_from_user s.msg source).1 })
        (copied_length s.msg sized)).0

  -- After a string of less than 80 bytes was written, by `write` or by IOCTL_SET_MSG, reads of any
  -- sizes give, put together, its first bytes, as many as were asked for: all of it if that is
  -- enough, and never a byte of an older message. `write` returns its length.
  pub write-read :
      (s : Device) (ns : List ℕ)
      → length s.msg ≡ buf_len
      → (read_pieces (device_write user s source).0 ns ≡ some (take (sum ns) (text source)))
        × (read_pieces (ioctl_set_msg user s source).0 ns ≡ some (take (sum ns) (text source)))
        × ((device_write user s source).1 ≡ pos (length (text source)))
  write-read s ns sized = (
    read_pieces-take ns (device_write user s source).0 (text source) 0
        (device_write-Holds s sized).0,
    read_pieces-take ns (ioctl_set_msg user s source).0 (text source) 0
        (ioctl_set_msg-Holds s sized),
    (device_write-Holds s sized).1,
  )

-- The loop of main.c over a message of ASCII bytes.
read_bytes-Holds :
    (fuel : ℕ) (s : Device) (t rest : List ℕ) (i : ℕ)
    → All (λ b. b < 128) t
    → NoZero t
    → drop i s.msg ≡ t ++ 0 ∷ rest
    → length t < fuel
    → read_bytes s fuel i ≡ some (t ++ 0 ∷ [], true)
unfolding read_bytes ioctl_get_nth_byte
read_bytes-Holds zero s t rest i low nz e enough = absurd (omega arith)
read_bytes-Holds (suc fuel) s [] rest i low nz e enough =
    ground (arith, (drop-cons s.msg rest i 0 e).0)
read_bytes-Holds (suc fuel) s (b ∷ t) rest i low nz e enough =
    let (there, behind) = drop-cons s.msg (t ++ 0 ∷ rest) i b e in
    let more = read_bytes-Holds fuel s t rest (i + 1) low.1 nz.1 behind (omega arith) in
    ground (arith, there, more, nz.0, low.0)

-- The loop of main.c that asks a device which holds an ASCII string for byte 0, 1, … ends without
-- a failure in one round more than the string is long, and prints the string and its zero.
pub read_bytes-message :
    (s : Device) (t : List ℕ) (k fuel : ℕ)
    → Holds s t k
    → All (λ b. b < 128) t
    → length t < fuel
    → read_bytes s fuel 0 ≡ some (t ++ 0 ∷ [], true)
read_bytes-message s t k fuel v low enough =
    read_bytes-Holds fuel s t v.rest 0 low v.no_zero v.stored enough

drop-some : (m : List ℕ) (i : ℕ) → i < length m → (b : ℕ) × (xs : List ℕ) × (drop i m ≡ b ∷ xs)
drop-some [] i h = absurd (omega arith)
drop-some (b ∷ m) zero h = (b, m, refl)
drop-some (b ∷ m) (suc i) h = drop-some m i (omega arith)

read_loop-over :
    (n : ℕ) (msg : List ℕ) (i : ℕ)
    → NoZero (drop i msg)
    → length msg < i + n
    → i ≤ length msg
    → read_loop msg n i ≡ none
unfolding read_loop
read_loop-over zero msg i nz over inside = absurd (omega arith)
read_loop-over (suc n) msg i nz over inside = elim (dec_lt i (length msg)) [
  | no end ↦ rw (get_elem?-none msg i (omega arith))
  | yes more ↦
      let (b, xs, split) = drop-some msg i more in
      let (there, behind) = drop-cons msg xs i b split in
      let nz' : NoZero (b ∷ xs) = subst NoZero split nz in
      let rest = read_loop-over n msg (i + 1) (rw behind nz'.1) (omega arith) (omega arith) in
      ground (arith, there, rest, nz'.0)
]

-- A message that fills the buffer with no zero in it makes IOCTL_GET_MSG read past the end of it.
pub ioctl_get_msg_over :
    (s : Device)
    → length s.msg ≡ buf_len
    → NoZero s.msg
    → s.msg_ptr ≡ some 0
    → ioctl_get_msg s ≡ none
unfolding ioctl_get_msg device_read
ioctl_get_msg_over s sized nz at =
    let (b, xs, split) = drop-some s.msg 0 (omega arith) in
    let there = (drop-cons s.msg xs 0 b split).0 in
    let nz' : NoZero (b ∷ xs) = subst NoZero split nz in
    ground (arith, at, there, nz'.0, read_loop-over 99 s.msg 0 nz (omega arith) (omega arith))
