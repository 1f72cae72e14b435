-- ===== src/Base/Word.antt =====
-- Machine words as native numbers, and the byte order of the little-endian hosts that the
-- sources are built for: a `u_short` in memory has its low byte first.
use Prim.Native.Nat.{ℕ, ◌+◌, ◌*◌, ◌/◌, ◌%◌, ◌^◌, ◌<◌}
use mathlib.Core.Path.{◌≡◌}
use native.Mathlib.Omega.{arith}

abbrev pub u8 : ℕ → ℕ
u8 n = n % 256

abbrev pub u16 : ℕ → ℕ
u16 n = n % 65536

abbrev pub u32 : ℕ → ℕ
u32 n = n % 4294967296

-- x >> k.
abbrev pub shr : ℕ → ℕ → ℕ
shr x k = x / 2 ^ k

-- htons and ntohs are one function: the two bytes of a 16-bit word change places.
abbrev pub htons : ℕ → ℕ
htons x = u16 x % 256 * 256 + u16 x / 256

pub htons_involutive : (x : ℕ) → x < 65536 → htons (htons x) ≡ x
htons_involutive x h = omega arith
