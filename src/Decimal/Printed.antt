-- ===== src/Decimal/Printed.antt =====
-- How long the print of a number is, and what it is made of.
use eltex.Base.{
  [], refl, ℕ, ◌++◌, ◌∙◌, ap, zero, suc, ◌+◌, ◌/◌, ◌%◌, ◌≤◌, ◌<◌, ◌≡◌, inl, inr, List, ◌∷◌, arith,
  length, Bool-cases, ◌==◌,
}
use eltex.Cstring.{text}
use eltex.Decimal.{digits, decimal, HasDigits}

-- The first byte is a digit.
pub digits-cons :
    (k n : ℕ) (out : List ℕ)
    → HasDigits k n
    → (c : ℕ) × (s : List ℕ) × (digits k n out ≡ c ∷ s) × (b'0' ≤ c) × (c ≤ b'9')
unfolding digits
digits-cons zero n out h = absurd h
digits-cons (suc k) n out h = elim (Bool-cases (n / 10 == 0)) [
  | inl last ↦ (b'0' + n % 10, out, ground (arith, last), omega arith, omega arith)
  | inr more ↦
      let (c, s, e, low, high) =
        digits-cons k (n / 10) ((b'0' + n % 10) ∷ out) (ground (arith, more, h)) in
      (c, s, ground (arith, more, e), low, high)
]

pub length-digits : (k n : ℕ) (out : List ℕ) → length (digits k n out) ≤ length out + k
unfolding digits
length-digits zero n out = omega arith
length-digits (suc k) n out = ground (arith, length-digits k (n / 10) ((b'0' + n % 10) ∷ out))

-- The bytes of an address take three digits at most.
pub length-decimal_byte : (n : ℕ) → n < 256 → length (decimal n) ≤ 3
unfolding decimal digits
length-decimal_byte n h = ground arith

pub HasDigits-int : (n : ℕ) → n < 2147483648 → HasDigits 10 n
HasDigits-int n h = inr (inr (inr (inr (inr (inr (inr (inr (inr (inl (omega arith))))))))))

pub digits-append :
    (k n : ℕ) (out rest : List ℕ) → digits k n out ++ rest ≡ digits k n (out ++ rest)
unfolding digits
digits-append zero n out rest = refl
digits-append (suc k) n out rest =
    ground (arith, digits-append k (n / 10) ((b'0' + n % 10) ∷ out) rest)

digits_more :
    (k n : ℕ) (out : List ℕ)
    → 10 ≤ n
    → digits (suc k) n out ≡ digits k (n / 10) ((b'0' + n % 10) ∷ out)
unfolding digits
digits_more k n out h = ground arith

le-length-digits : (k n : ℕ) (out : List ℕ) → length out ≤ length (digits k n out)
unfolding digits
le-length-digits zero n out = omega arith
le-length-digits (suc k) n out = ground (arith, le-length-digits k (n / 10) ((b'0' + n % 10) ∷ out))

lt-length-digits : (k n : ℕ) (out : List ℕ) → length out < length (digits (suc k) n out)
unfolding digits
lt-length-digits k n out = ground (arith, le-length-digits k (n / 10) ((b'0' + n % 10) ∷ out))

pub length-decimal_short : (n : ℕ) → n < 1000 → length (decimal n) ≤ 3
unfolding decimal digits
length-decimal_short n h = ground arith

pub length-decimal_long : (n : ℕ) → 1000 ≤ n → 4 ≤ length (decimal n)
unfolding decimal
length-decimal_long n h =
    rw
      (
        digits_more 9 n [] (omega arith),
        digits_more 8 (n / 10) _ (omega arith),
        digits_more 7 (n / 10 / 10) _ (omega arith),
      )
      (lt-length-digits 6 (n / 10 / 10 / 10) _)

-- As a string, a print with a zero behind it is the print.
digits-text : (k n : ℕ) (out : List ℕ) → text (digits k n out) ≡ digits k n (text out)
unfolding digits text
digits-text zero n out = refl
digits-text (suc k) n out = ground (arith, digits-text k (n / 10) ((b'0' + n % 10) ∷ out))

pub decimal-text : (n : ℕ) (rest : List ℕ) → text (decimal n ++ 0 ∷ rest) ≡ decimal n
unfolding decimal
decimal-text n rest =
    ap text (digits-append 10 n [] (0 ∷ rest)) ∙ digits-text 10 n (0 ∷ rest) ∙ unfold text in refl
