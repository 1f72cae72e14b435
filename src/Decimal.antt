-- ===== src/Decimal.antt =====
-- The "%d" of printf for numbers that are not negative, and of sscanf. A string is a list of bytes, and
-- `none` is a read past its memory, or a number that an int does not hold.
pub mod Printed
pub mod ReadBack
use eltex.Base.{
  ℕ, zero, suc, ◌+◌, ◌-◌, ◌*◌, ◌/◌, ◌%◌, ◌<◌, ◌≤◌, ◌≡◌, ◌⊎◌, Bool, ◌&&◌, ◌||◌, Option, none, some,
  List, [], ◌∷◌, ltb, leb, ◌==◌, if◌then◌else◌, ◌>>=◌,
}
use eltex.Base.Int.{ℤ, pos, negsuc}

-- The digits of a number, most significant first, before `out`; one unit of fuel for each digit.
unfoldable pub digits : ℕ → ℕ → List ℕ → List ℕ
digits zero n out = out
digits (suc k) n out =
    let more = digits k (n / 10) ((b'0' + n % 10) ∷ out) in
    if n / 10 == 0 then (b'0' + n % 10) ∷ out else more

-- The numbers that have at most `k` digits.
abbrev pub HasDigits : ℕ → ℕ → Type 0
HasDigits zero n = ⊥
HasDigits (suc k) n = (n / 10 ≡ 0) ⊎ HasDigits k (n / 10)

-- An int has at most ten.
unfoldable pub decimal : ℕ → List ℕ
unfolding digits
decimal n = digits 10 n []

abbrev pub int_limit : ℕ
int_limit = 2147483648

abbrev pub is_digit : ℕ → Bool
is_digit c = leb b'0' c && leb c b'9'

abbrev pub is_space : ℕ → Bool
is_space c = c == 32 || (leb 9 c && leb c 13)

-- From the first digit on: the number, and what follows its last digit.
unfoldable pub scan_digits : ℕ → List ℕ → Option (ℕ × List ℕ)
scan_digits n [] = none
scan_digits n (c ∷ s) =
    let more = scan_digits (n * 10 + (c - b'0')) s in
    if is_digit c
    then (if ltb (n * 10 + (c - b'0')) int_limit then more else none)
    else some (n, c ∷ s)

-- Behind the sign; `some none` is a matching failure.
unfoldable pub scan_unsigned : (ℕ → ℤ) → List ℕ → Option (Option (ℤ × List ℕ))
scan_unsigned signed [] = none
scan_unsigned signed (c ∷ s) =
    if is_digit c then (scan_digits 0 (c ∷ s) >>= λ r. some (some (signed r.0, r.1))) else some none

abbrev pub minus : ℕ → ℤ
minus zero = pos 0
minus (suc n) = negsuc n

unfoldable pub scan_int : List ℕ → Option (Option (ℤ × List ℕ))
scan_int [] = none
scan_int (c ∷ s) =
    let skipped = scan_int s in
    if is_space c
    then skipped
    else if c == b'-'
    then scan_unsigned minus s
    else if c == b'+'
    then scan_unsigned pos s
    else scan_unsigned pos (c ∷ s)
