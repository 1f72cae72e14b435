-- ===== src/Cstring/Laws.antt =====
-- strlen, strcmp and strncpy on terminated arrays, in terms of the strings that these hold.
use eltex.Base.{
  ℕ, zero, suc, ◌<◌, ◌≡◌, refl, ap, some, List, [], ◌∷◌, ◌++◌, ◌==◌, replicate, arith, length,
  Bool-cases, Option-cases, length-replicate, inl, inr, ◌⊎◌, ◌≢◌,
}
use eltex.Cstring.{Sign, less, equal, greater, strlen, strcmp, strncpy, text, IsTerminated, lex}

pub strlen-text : (xs : List ℕ) → IsTerminated xs → strlen xs ≡ some (length (text xs))
unfolding strlen text
strlen-text [] t = absurd t
strlen-text (b ∷ rest) t = ground (arith, strlen-text rest)

pub strlen-IsTerminated : (xs : List ℕ) {n : ℕ} → strlen xs ≡ some n → IsTerminated xs
unfolding strlen
strlen-IsTerminated [] e = cc
strlen-IsTerminated (b ∷ rest) e = elim (Option-cases (strlen rest)) [
  | inl none_left ↦ inl (ground (arith, none_left))
  | inr (m, found) ↦ inr (strlen-IsTerminated rest found)
]

pub Sign-cases : (s : Sign) → (s ≡ less) ⊎ ((s ≡ equal) ⊎ (s ≡ greater))
Sign-cases less = inl refl
Sign-cases equal = inr (inl refl)
Sign-cases greater = inr (inr refl)

pub lex_refl : (xs : List ℕ) → lex xs xs ≡ equal
unfolding lex
lex_refl [] = refl
lex_refl (x ∷ xs) = ground (arith, lex_refl xs)

pub lex_eq : (xs ys : List ℕ) → lex xs ys ≡ equal → xs ≡ ys
unfolding lex
lex_eq [] [] h = refl
lex_eq [] (y ∷ ys) h = cc
lex_eq (x ∷ xs) [] h = cc
lex_eq (x ∷ xs) (y ∷ ys) h = ground (arith, lex_eq xs ys)

pub lex_decides : (xs ys : List ℕ) → (xs ≡ ys) ⊎ (xs ≢ ys)
lex_decides xs ys = elim (Sign-cases (lex xs ys)) [
  | inl e ↦ inr (λ p. ground (arith, e, p, lex_refl xs))
  | inr (inl e) ↦ inl (lex_eq xs ys e)
  | inr (inr e) ↦ inr (λ p. ground (arith, e, p, lex_refl xs))
]

abbrev pub flip : Sign → Sign
flip less = greater
flip equal = equal
flip greater = less

pub lex-flip : (xs ys : List ℕ) → lex ys xs ≡ flip (lex xs ys)
unfolding lex
lex-flip [] [] = refl
lex-flip [] (y ∷ ys) = refl
lex-flip (x ∷ xs) [] = refl
lex-flip (x ∷ xs) (y ∷ ys) = ground (arith, lex-flip xs ys)

pub lex_trans : (xs ys zs : List ℕ) → lex xs ys ≡ less → lex ys zs ≡ less → lex xs zs ≡ less
unfolding lex
lex_trans [] [] zs h k = cc
lex_trans [] (y ∷ ys) [] h k = cc
lex_trans [] (y ∷ ys) (z ∷ zs) h k = refl
lex_trans (x ∷ xs) [] zs h k = cc
lex_trans (x ∷ xs) (y ∷ ys) [] h k = cc
lex_trans (x ∷ xs) (y ∷ ys) (z ∷ zs) h k = ground (arith, lex_trans xs ys zs)

pub strcmp-lex :
    (xs ys : List ℕ)
    → IsTerminated xs
    → IsTerminated ys
    → strcmp xs ys ≡ some (lex (text xs) (text ys))
unfolding strcmp text lex
strcmp-lex [] ys t u = absurd t
strcmp-lex (x ∷ xs) [] t u = absurd u
strcmp-lex (x ∷ xs) (y ∷ ys) t u = ground (arith, strcmp-lex xs ys)

-- What strncpy stores is terminated where the string is shorter than the room for it, and then
-- it holds the same string.
pub strncpy-text :
    (n : ℕ) (src : List ℕ)
    → IsTerminated src
    → length (text src) < n
    → (dst : List ℕ) × (strncpy n src ≡ some dst)
      × IsTerminated dst
      × (text dst ≡ text src)
      × (length dst ≡ n)
unfolding strncpy text
strncpy-text zero src t h = absurd (omega arith)
strncpy-text (suc n) [] t h = absurd t
strncpy-text (suc n) (b ∷ rest) t h = elim (Bool-cases (b == 0)) [
  | inl z ↦ rw z (replicate (suc n) 0, refl, inl refl, refl, ap suc (length-replicate n 0))
  | inr nz ↦
      let (dst, e, ends, same, full) =
        strncpy-text n rest (ground (arith, t)) (ground (arith, h, nz)) in
      rw (nz, e) (b ∷ dst, refl, inr ends, rw (nz, same), ap suc full)
]

-- Where what strncpy stored is terminated, it is the string that stood at its source.
pub strncpy-text_inv :
    (n : ℕ) (src dst : List ℕ)
    → strncpy n src ≡ some dst
    → IsTerminated dst
    → IsTerminated src × (text dst ≡ text src) × (length (text src) < n)
unfolding strncpy text
strncpy-text_inv zero src [] e t = absurd t
strncpy-text_inv zero src (d ∷ dst) e t = cc
strncpy-text_inv (suc n) [] dst e t = cc
strncpy-text_inv (suc n) (b ∷ rest) [] e t = absurd t
strncpy-text_inv (suc n) (b ∷ rest) (d ∷ dst) e t = elim (Option-cases (strncpy n rest)) [
  | inl over ↦ ground (arith, over)
  | inr (stored, enough) ↦ ground (arith, enough, strncpy-text_inv n rest stored enough)
]

-- What follows a terminated array in memory does not matter to its string.
pub text-append :
    (xs ys : List ℕ) → IsTerminated xs → IsTerminated (xs ++ ys) × (text (xs ++ ys) ≡ text xs)
unfolding text
text-append [] ys t = absurd t
text-append (x ∷ xs) ys t = ground (arith, text-append xs ys)

pub zero-IsTerminated : (xs ys : List ℕ) → IsTerminated (xs ++ 0 ∷ ys)
zero-IsTerminated [] ys = inl refl
zero-IsTerminated (x ∷ xs) ys = inr (zero-IsTerminated xs ys)
