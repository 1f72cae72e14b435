-- ===== src/Base/Memory.antt =====
-- Words in a run of bytes, low byte first; `none` is a read past its end.
use Prim.Native.Nat.{ℕ, suc, zero, ◌+◌, ◌*◌, ◌/◌, ◌%◌}
use mathlib.Core.Path.{◌≡◌}
use mathlib.Core.List.{List, [], ◌∷◌, ◌++◌}
use mathlib.Core.Option.{Option, some}
use native.Mathlib.Omega.{arith}
use eltex.Base.Fallible.{◌>>=◌}
use eltex.Base.Lists.{get_elem?, drop, length}

abbrev pub u16_at : List ℕ → ℕ → Option ℕ
u16_at mem i = do lo ← get_elem? mem i; hi ← get_elem? mem (i + 1); some (lo + 256 * hi)

abbrev pub u32_at : List ℕ → ℕ → Option ℕ
u32_at mem i = do
  a ← get_elem? mem i
  b ← get_elem? mem (i + 1)
  c ← get_elem? mem (i + 2)
  d ← get_elem? mem (i + 3)
  some (a + 256 * b + 65536 * c + 16777216 * d)

-- The bytes of a word in front of a run.
abbrev pub bytes16 : ℕ → List ℕ → List ℕ
bytes16 w rest = w % 256 ∷ w / 256 ∷ rest

abbrev pub bytes32 : ℕ → List ℕ → List ℕ
bytes32 w rest = w % 256 ∷ w / 256 % 256 ∷ w / 65536 % 256 ∷ w / 16777216 % 256 ∷ rest

-- Behind a run.
pub get_elem?-append_add :
    (xs ys : List ℕ) (n i : ℕ) → length xs ≡ n → get_elem? (xs ++ ys) (n + i) ≡ get_elem? ys i
get_elem?-append_add [] ys zero i e = let same : 0 + i ≡ i = omega arith in rw same
get_elem?-append_add [] ys (suc n) i e = absurd (omega arith)
get_elem?-append_add (x ∷ xs) ys zero i e = absurd (omega arith)
get_elem?-append_add (x ∷ xs) ys (suc n) i e =
    let next : suc n + i ≡ suc (n + i) = omega arith in
    rw next (get_elem?-append_add xs ys n i (omega arith))

pub drop-append_add :
    (xs ys : List ℕ) (n i : ℕ) → length xs ≡ n → drop (n + i) (xs ++ ys) ≡ drop i ys
drop-append_add [] ys zero i e = let same : 0 + i ≡ i = omega arith in rw same
drop-append_add [] ys (suc n) i e = absurd (omega arith)
drop-append_add (x ∷ xs) ys zero i e = absurd (omega arith)
drop-append_add (x ∷ xs) ys (suc n) i e =
    let next : suc n + i ≡ suc (n + i) = omega arith in
    rw next (drop-append_add xs ys n i (omega arith))
