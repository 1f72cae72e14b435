-- ===== src/Decimal/ReadBack.antt =====
-- sscanf reads what printf wrote.
use eltex.Base.{
  ℕ, zero, suc, ◌+◌, ◌/◌, ◌%◌, ◌≤◌, ◌<◌, ◌≡◌, ◌∙◌, false, some, List, [], ◌∷◌, ◌++◌, arith,
}
use eltex.Base.Int.{pos}
use eltex.Decimal.{
  digits, decimal, HasDigits, int_limit, is_digit, scan_digits, scan_unsigned, scan_int,
}
use eltex.Decimal.Printed.{digits-cons, digits-append, HasDigits-int}

scan_last :
    (n : ℕ) (out : List ℕ)
    → n < int_limit
    → scan_digits (n / 10) ((b'0' + n % 10) ∷ out) ≡ scan_digits n out
unfolding scan_digits
scan_last n out h = ground arith

scan_digits-digits :
    (k n : ℕ) (out : List ℕ)
    → HasDigits k n
    → n < int_limit
    → scan_digits 0 (digits k n out) ≡ scan_digits n out
unfolding digits
scan_digits-digits zero n out h fits = absurd h
scan_digits-digits (suc k) n out h fits =
    ground (arith, scan_last n out, scan_digits-digits k (n / 10) ((b'0' + n % 10) ∷ out))

scan_unsigned_digit :
    (c : ℕ) (s : List ℕ) → b'0' ≤ c → c ≤ b'9' → scan_int (c ∷ s) ≡ scan_unsigned pos (c ∷ s)
unfolding scan_int
scan_unsigned_digit c s low high = ground arith

scan_unsigned-scan_digits :
    (c : ℕ) (s t : List ℕ) (n : ℕ)
    → b'0' ≤ c
    → c ≤ b'9'
    → scan_digits 0 (c ∷ s) ≡ some (n, t)
    → scan_unsigned pos (c ∷ s) ≡ some (some (pos n, t))
unfolding scan_unsigned
scan_unsigned-scan_digits c s t n low high e = ground (arith, e)

scan_end :
    (n c : ℕ) (rest : List ℕ) → is_digit c ≡ false → scan_digits n (c ∷ rest) ≡ some (n, c ∷ rest)
unfolding scan_digits
scan_end n c rest stop = rw stop

-- What follows the number begins with something that is no digit.
pub scan_int-decimal :
    (n c : ℕ) (rest : List ℕ)
    → n < int_limit
    → is_digit c ≡ false
    → scan_int (decimal n ++ c ∷ rest) ≡ some (some (pos n, c ∷ rest))
unfolding decimal
scan_int-decimal n c rest fits stop =
    let h = HasDigits-int n fits in
    let whole : digits 10 n [] ++ c ∷ rest ≡ digits 10 n (c ∷ rest) =
      digits-append 10 n [] (c ∷ rest) in
    let (d, s, e, low, high) = digits-cons 10 n (c ∷ rest) h in
    let scanned : scan_digits 0 (digits 10 n (c ∷ rest)) ≡ some (n, c ∷ rest) =
      scan_digits-digits 10 n (c ∷ rest) h fits ∙ scan_end n c rest stop in
    rw whole (
      rw e (
        scan_unsigned_digit d s low high
        ∙ scan_unsigned-scan_digits d s (c ∷ rest) n low high (rw e at scanned)))
