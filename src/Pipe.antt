-- ===== src/Pipe.antt =====
-- pipe/main.c: a parent that writes its array of 256 bytes to a pipe, and a child that reads from it into
-- its own and prints it. `none` is a read behind an array.
-- Not modelled: closing the descriptors, waiting for the child, and failures of pipe and fork, which
-- only end the program.
use eltex.Base.{
  drop-replicate, All, ◌≢◌, inl, inr, refl, ℕ, zero, suc, ◌+◌, ◌-◌, ◌≤◌, ◌<◌, ◌≡◌, Option, some,
  List, [], ◌∷◌, ◌++◌, ◌>>=◌, length, replicate, take, drop, arith,
}
use eltex.Cstring.{strlen, text, IsTerminated}
use eltex.Cstring.Laws.{strlen-text}
use eltex.Messages.{strcpy}

abbrev pub size : ℕ
size = 256

-- "hello world\n"
abbrev pub hello : List ℕ
hello = b'h' ∷ b'e' ∷ b'l' ∷ b'l' ∷ b'o' ∷ 32 ∷ b'w' ∷ b'o' ∷ b'r' ∷ b'l' ∷ b'd' ∷ 10 ∷ []

-- bzero before the fork, which both processes have a copy of.
abbrev pub buffer : List ℕ
buffer = replicate size 0

-- What the parent prints, and what it writes.
unfoldable pub parent : Option (List ℕ × List ℕ)
parent =
    let filled = strcpy buffer hello in strlen filled >>= λ n. some (text filled, take size filled)

-- The child after a read that gave the first `n` bytes of what was written; what read returns is not
-- looked at, and a failure is one that gave none.
unfoldable pub child : List ℕ → ℕ → Option (List ℕ)
child written n =
    let filled = take n written ++ drop n buffer in strlen filled >>= λ k. some (text filled)

-- The whole of main where pipe and fork succeed: what the two print.
unfoldable pub main : ℕ → Option (List ℕ × List ℕ)
main n = do (sent, written) ← parent; received ← child written n; some (sent, received)

parent_written : parent ≡ some (hello, hello ++ replicate 244 0)
unfolding parent strlen text
parent_written = refl

zeros-text : (j : ℕ) → text (replicate j 0) ≡ []
unfolding text
zeros-text zero = refl
zeros-text (suc j) = refl

-- A prefix of a text with zeros behind it, and zeros behind that.
arrived-text :
    (n k j : ℕ) (xs : List ℕ)
    → All (λ b. b ≢ 0) xs
    → text (take n (xs ++ replicate (suc k) 0) ++ replicate j 0) ≡ take n xs
unfolding text
arrived-text zero k j xs h = zeros-text j
arrived-text (suc n) k j [] h = refl
arrived-text (suc n) k j (x ∷ xs) h = ground (arith, arrived-text n k j xs h.1)

arrived-IsTerminated :
    (n k j : ℕ) (xs : List ℕ)
    → length xs < n + j
    → IsTerminated (take n (xs ++ replicate (suc k) 0) ++ replicate j 0)
arrived-IsTerminated zero k zero xs h = absurd (omega arith)
arrived-IsTerminated zero k (suc j) xs h = inl refl
arrived-IsTerminated (suc n) k j [] h = inl refl
arrived-IsTerminated (suc n) k j (x ∷ xs) h = inr (arrived-IsTerminated n k j xs (omega arith))

hello_plain : All (λ b. b ≢ 0) hello
hello_plain = ground arith

-- Whatever number of the bytes arrives, none to all 256, both processes stay inside their arrays: the
-- parent prints the text, and the child the part of it that arrived.
pub main-prints : (n : ℕ) → n ≤ size → main n ≡ some (hello, take n hello)
unfolding main child
main-prints n h =
    let zeros = drop-replicate {A = ℕ} n size 0 in
    let shown = arrived-text n 243 (size - n) hello hello_plain in
    let ended = strlen-text _ (arrived-IsTerminated n 243 (size - n) hello (omega arith)) in
    rw (parent_written, zeros, ended, shown) refl
