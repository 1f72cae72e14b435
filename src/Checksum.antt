-- ===== src/Checksum.antt =====
-- raw_socket/utils.c (checksum), and the copies of it in ping/main.c and traceroute/main.c.
-- Memory is a list of bytes from the pointer on; `none` is undefined behaviour: a read past
-- that memory, or a sum that does not fit its signed type.
pub mod Sums
pub mod Reference
pub mod Verify
use eltex.Base.{
  ◌>>=◌, ℕ, ◌+◌, ◌-◌, ◌*◌, ◌%◌, ◌^◌, Option, none, some, List, [], ◌∷◌, ltb, ◌==◌, if◌then◌else◌,
  u16, shr,
}

-- `sum += w` in a signed type whose values lie below `limit`.
abbrev pub add_signed : ℕ → ℕ → ℕ → Option ℕ
add_signed limit sum w = if ltb (sum + w) limit then some (sum + w) else none

-- The value of the two bytes `*w` reads.
abbrev pub word_at : ℕ → ℕ → ℕ
word_at lo hi = lo + 256 * hi

abbrev pub odd_byte : ℕ → List ℕ → ℕ → Option ℕ
odd_byte limit [] sum = none
odd_byte limit (b ∷ rest) sum = add_signed limit sum (word_at b 0)

-- What is left after the loop: an odd byte becomes the low byte of a zeroed word.
abbrev pub last_byte : ℕ → List ℕ → ℕ → ℕ → Option ℕ
last_byte limit mem nleft sum = if nleft == 1 then odd_byte limit mem sum else some sum

-- `while (nleft > 1) { sum += *w++; nleft -= 2; }`, then the odd byte.
unfoldable pub add_words : ℕ → List ℕ → ℕ → ℕ → Option ℕ
add_words limit [] nleft sum = if ltb 1 nleft then none else last_byte limit [] nleft sum
add_words limit (lo ∷ []) nleft sum =
    if ltb 1 nleft then none else last_byte limit (lo ∷ []) nleft sum
add_words limit (lo ∷ hi ∷ rest) nleft sum =
    let next = add_signed limit sum (word_at lo hi) >>= λ s. add_words limit rest (nleft - 2) s in
    if ltb 1 nleft then next else last_byte limit (lo ∷ hi ∷ rest) nleft sum

-- `sum = (sum >> 16) + (sum & 0xFFFF); sum += (sum >> 16);`
unfoldable pub fold_carries : ℕ → ℕ
fold_carries sum = let once = shr sum 16 + sum % 65536 in once + shr once 16

-- `(u_short)~sum`.
unfoldable pub complement : ℕ → ℕ
complement sum = 65535 - u16 sum

checksum_within : ℕ → List ℕ → ℕ → Option ℕ
unfolding add_words fold_carries complement
checksum_within limit mem len = do
  sum ← add_words limit mem len 0
  some (complement (fold_carries sum))

-- raw_socket sums in `int`.
unfoldable pub checksum : List ℕ → ℕ → Option ℕ
unfolding checksum_within
checksum mem len = checksum_within (2 ^ 31) mem len

-- ping and traceroute sum in `long`, and pass the answer through a `short`.
unfoldable pub checksum_long : List ℕ → ℕ → Option ℕ
unfolding checksum_within
checksum_long mem len = checksum_within (2 ^ 63) mem len
