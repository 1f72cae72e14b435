-- ===== src/IoctlDev/Exclusive.antt =====
-- Who has the device of ioctl_dev.c open, over any sequence of open and close calls.
use eltex.Base.{
  ℕ, zero, suc, ◌+◌, ◌≤◌, ◌≡◌, Option, none, some, List, [], ◌∷◌, arith, if◌then◌else◌,
  Option-cases, inl, inr,
}
use eltex.Base.Int.{pos, eqb_ℤ}
use eltex.IoctlDev.{Device, device_open, device_release}

pub data FileCall : Type 0 where
  open_file close_file : FileCall

-- The device and the number of files that are open on it; only an open file can be closed, and then
-- the kernel calls device_release.
unfoldable pub file_call : FileCall → Device → ℕ → Option (Device × ℕ)
file_call open_file s n =
    let (t, result) = device_open s in some (t, if eqb_ℤ result (pos 0) then n + 1 else n)
file_call close_file s zero = none
file_call close_file s (suc n) = some ((device_release s).0, n)

unfoldable pub file_calls : Device → ℕ → List FileCall → Option (Device × ℕ)
file_calls s n [] = some (s, n)
file_calls s n (c ∷ cs) = elim (file_call c s n) [ none ↦ none | some (t, m) ↦ file_calls t m cs ]

call_exclusive :
    (c : FileCall) (s t : Device) (n m : ℕ)
    → s.device_open ≡ pos n
    → n ≤ 1
    → file_call c s n ≡ some (t, m)
    → (t.device_open ≡ pos m) × (m ≤ 1)
unfolding file_call device_open device_release
call_exclusive open_file s t n m counts one h = ground arith
call_exclusive close_file s t zero m counts one h = ground arith
call_exclusive close_file s t (suc n) m counts one h = ground arith

calls_exclusive :
    (cs : List FileCall) (s t : Device) (n m : ℕ)
    → s.device_open ≡ pos n
    → n ≤ 1
    → file_calls s n cs ≡ some (t, m)
    → (t.device_open ≡ pos m) × (m ≤ 1)
unfolding file_calls
calls_exclusive [] s t n m counts one h = ground arith
calls_exclusive (c ∷ cs) s t n m counts one h = elim (Option-cases (file_call c s n)) [
  | inl stops ↦ ground (arith, stops)
  | inr ((u, k), goes) ↦
      let (counts', one') = call_exclusive c s u n k counts one goes in
      calls_exclusive cs u t k m counts' one' (rw (goes, file_calls) at h)
]

-- From a device that nobody has open, whatever is opened and closed one call after another, at most
-- one file is open at a time, and the module's count is the number of open files.
pub device_open-exclusive :
    (cs : List FileCall) (s t : Device) (m : ℕ)
    → s.device_open ≡ pos 0
    → file_calls s 0 cs ≡ some (t, m)
    → (t.device_open ≡ pos m) × (m ≤ 1)
device_open-exclusive cs s t m unused h = calls_exclusive cs s t 0 m unused (omega arith) h
