-- ===== src/Cstring.antt =====
-- The functions of <string.h> that the sources call, on char arrays: lists of bytes, of which a
-- call may read no byte past the end. `none` is such a read.
pub mod Laws
use eltex.Base.{
  ℕ, zero, suc, ◌≡◌, ◌⊎◌, Option, none, some, List, [], ◌∷◌, ltb, ◌==◌, if◌then◌else◌, replicate,
}
use mathlib.Core.Option

-- The sign of what strcmp returns.
pub data Sign : Type 0 where
  less equal greater : Sign

unfoldable pub strlen : List ℕ → Option ℕ
strlen [] = none
strlen (b ∷ rest) = if b == 0 then some 0 else Option.map suc (strlen rest)

unfoldable pub strcmp : List ℕ → List ℕ → Option Sign
strcmp [] ys = none
strcmp (x ∷ xs) [] = none
strcmp (x ∷ xs) (y ∷ ys) =
    let rest = strcmp xs ys in
    if ltb x y
    then some less
    else if ltb y x
    then some greater
    else if x == 0
    then some equal
    else rest

-- The `n` bytes that strncpy stores: the string, then zeros, or its first `n` bytes with no zero.
unfoldable pub strncpy : ℕ → List ℕ → Option (List ℕ)
strncpy zero src = some []
strncpy (suc n) [] = none
strncpy (suc n) (b ∷ rest) =
    if b == 0 then some (replicate (suc n) 0) else Option.map (◌∷◌ b) (strncpy n rest)

-- The string that an array holds: what stands before the first zero.
unfoldable pub text : List ℕ → List ℕ
text [] = []
text (b ∷ rest) = if b == 0 then [] else b ∷ text rest

-- A zero stands in the array.
abbrev pub IsTerminated : List ℕ → Type 0
IsTerminated [] = ⊥
IsTerminated (b ∷ rest) = (b ≡ 0) ⊎ IsTerminated rest

-- Lexicographic order of strings.
unfoldable pub lex : List ℕ → List ℕ → Sign
lex [] [] = equal
lex [] (y ∷ ys) = less
lex (x ∷ xs) [] = greater
lex (x ∷ xs) (y ∷ ys) = if ltb x y then less else if ltb y x then greater else lex xs ys
