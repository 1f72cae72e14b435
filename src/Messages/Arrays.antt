-- ===== src/Messages/Arrays.antt =====
-- The array of 256 bytes behind a message shorter than it, and behind one that is not.
use eltex.Base.{
  ℕ, zero, suc, ◌<◌, ◌≤◌, ◌≡◌, refl, ap, some, none, List, [], ◌∷◌, ◌++◌, arith, length, take, drop,
  set, ltb, true, true, length-append, length-drop,
}
use eltex.Messages.{Turn, msg_size, nread, terminate}

-- The turns of messages that arrive one by one, where every send succeeds.
unfoldable pub turns : List (List ℕ) → List Turn
turns [] = []
turns (m ∷ ms) = record { received = some m; delivered = true } ∷ turns ms

-- The array behind a message and its zero.
abbrev pub ended : List ℕ → List ℕ → List ℕ
ended buf m = m ++ 0 ∷ drop (suc (length m)) buf

set-append : (xs ys : List ℕ) (y v : ℕ) → set (xs ++ y ∷ ys) (length xs) v ≡ xs ++ v ∷ ys
set-append [] ys y v = refl
set-append (x ∷ xs) ys y v = ap (◌∷◌ x) (set-append xs ys y v)

take-length : (xs : List ℕ) → take (length xs) xs ≡ xs
take-length [] = refl
take-length (x ∷ xs) = ap (◌∷◌ x) (take-length xs)

drop-suc : (n : ℕ) (xs : List ℕ) → n < length xs → (x : ℕ) × (drop n xs ≡ x ∷ drop (suc n) xs)
drop-suc n [] h = absurd (omega arith)
drop-suc zero (x ∷ xs) h = (x, refl)
drop-suc (suc n) (x ∷ xs) h = drop-suc n xs (omega arith)

nread-short : (m : List ℕ) → length m < msg_size → nread m ≡ length m
nread-short m h = omega arith

pub terminate-short :
    (buf m : List ℕ)
    → length buf ≡ msg_size
    → length m < msg_size
    → terminate buf m ≡ some (ended buf m)
unfolding terminate
terminate-short buf m full short =
    let (b, e) = drop-suc (length m) buf (omega arith) in
    let inside : ltb (length m) msg_size ≡ true = ground arith in
    rw (nread-short m short, inside, take-length m, e, set-append m (drop (suc (length m)) buf) b 0)

pub terminate-long : (buf m : List ℕ) → msg_size ≤ length m → terminate buf m ≡ none
unfolding terminate
terminate-long buf m long = ground arith

pub length-ended :
    (buf m : List ℕ) → length buf ≡ msg_size → length m < msg_size → length (ended buf m) ≡ msg_size
length-ended buf m full short =
    let e = length-append m (0 ∷ drop (suc (length m)) buf) in
    let d = length-drop (suc (length m)) buf in omega (arith, e, d)
