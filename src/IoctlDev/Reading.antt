-- ===== src/IoctlDev/Reading.antt =====
-- Reading the message back: by device_read in pieces, by the loop of main.c byte by byte.
use eltex.Base.{
  take-nil, ℕ, zero, suc, ◌+◌, ◌-◌, ◌≤◌, ◌≡◌, ◌≢◌, refl, ap, some, List, [], ◌∷◌, ◌++◌, arith,
  length, length-drop, take, drop, min, All, get_elem?,
}
use eltex.IoctlDev.{Device, read_loop, device_read}

-- No byte of a string is zero.
abbrev pub NoZero : List ℕ → Type 0
NoZero = All (λ b. b ≢ 0)

-- What stands at an index, from what stands behind it.
pub drop-cons :
    (m xs : List ℕ) (k b : ℕ) → drop k m ≡ b ∷ xs → (get_elem? m k ≡ some b) × (drop (k + 1) m ≡ xs)
drop-cons [] xs zero b e = cc
drop-cons [] xs (suc k) b e = cc
drop-cons (x ∷ m) xs zero b e = ground arith
drop-cons (x ∷ m) xs (suc k) b e =
    let shifted : suc k + 1 ≡ suc (k + 1) = omega arith in rw shifted (drop-cons m xs k b e)

-- From a pointer at which a zero-terminated string stands, the loop puts its first `n` bytes.
pub read_loop-take :
    (n : ℕ) (msg t rest : List ℕ) (k : ℕ)
    → NoZero t
    → drop k msg ≡ t ++ 0 ∷ rest
    → read_loop msg n k ≡ some (take n t, k + min n (length t))
unfolding read_loop
read_loop-take zero msg t rest k nz e = ap (λ (j : ℕ). some ([], j)) (omega arith)
read_loop-take (suc n) msg [] rest k nz e =
    rw (drop-cons msg rest k 0 e).0 (ap (λ (j : ℕ). some ([], j)) (omega arith))
read_loop-take (suc n) msg (b ∷ t) rest k nz e =
    let (there, behind) = drop-cons msg (t ++ 0 ∷ rest) k b e in
    let more = read_loop-take n msg t rest (k + 1) nz.1 behind in ground (arith, there, more, nz.0)

-- A device whose message holds the string `t`, of which `k` bytes were read.
pub record Holds (s : Device) (t : List ℕ) (k : ℕ) : Type 0 where
  pub rest : List ℕ
  pub stored : s.msg ≡ t ++ 0 ∷ rest
  pub no_zero : NoZero t
  pub pointer : s.msg_ptr ≡ some k
  pub inside : k ≤ length t

drop-append_le : (t xs : List ℕ) (k : ℕ) → k ≤ length t → drop k (t ++ xs) ≡ drop k t ++ xs
drop-append_le t xs zero h = refl
drop-append_le [] xs (suc k) h = absurd (omega arith)
drop-append_le (b ∷ t) xs (suc k) h = drop-append_le t xs k (omega arith)

NoZero-drop : (t : List ℕ) (k : ℕ) → NoZero t → NoZero (drop k t)
NoZero-drop t zero nz = nz
NoZero-drop [] (suc k) nz = tt
NoZero-drop (b ∷ t) (suc k) nz = NoZero-drop t k nz.1

-- `device_read` once its first test has been made.
read_there :
    (s : Device) (n k : ℕ) (left rest : List ℕ)
    → NoZero left
    → drop k s.msg ≡ left ++ 0 ∷ rest
    → s.msg_ptr ≡ some k
    → device_read s n ≡ some (record s { msg_ptr = some (k + min n (length left)) }, take n left)
unfolding device_read
read_there s n k [] rest nz behind at =
    let there = (drop-cons s.msg rest k 0 behind).0 in ground (arith, at, there, take-nil {A = ℕ} n)
read_there s n k (b ∷ left) rest nz behind at =
    let there = (drop-cons s.msg (left ++ 0 ∷ rest) k b behind).0 in
    let looped = read_loop-take n s.msg (b ∷ left) rest k nz behind in
    ground (arith, at, there, looped, nz.0)

-- A read of `n` bytes from a device that holds a string gives the next `n` of its bytes, or what
-- is left, stays inside `msg`, and moves the pointer past them and nothing else.
pub device_read-Holds :
    (s : Device) (t : List ℕ) (k n : ℕ)
    → Holds s t k
    → (s' : Device) × (device_read s n ≡ some (s', take n (drop k t)))
      × Holds s' t (k + min n (length t - k))
      × (s'.msg ≡ s.msg)
      × (s'.device_open ≡ s.device_open)
device_read-Holds s t k n v =
    let behind : drop k s.msg ≡ drop k t ++ 0 ∷ v.rest =
      rw v.stored (drop-append_le t (0 ∷ v.rest) k v.inside) in
    let measured : length (drop k t) ≡ length t - k = length-drop k t in
    (
      record s { msg_ptr = some (k + min n (length t - k)) },
      rw (← measured)
          (read_there s n k (drop k t) v.rest (NoZero-drop t k v.no_zero) behind v.pointer),
      record {
        rest = v.rest;
        stored = v.stored;
        no_zero = v.no_zero;
        pointer = refl;
        inside = omega (arith, v.inside);
      },
      refl,
      refl,
    )
