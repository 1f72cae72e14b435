-- ===== src/TextManager/Status/Cells.antt =====
-- The line of show_progress, cell by cell.
use eltex.Base.{
  take-nil, drop-nil, refl, sym, ap, ◌∙◌, ◌>>=◌, ℕ, Bool, true, false, zero, suc, ◌+◌, ◌-◌, ◌/◌,
  ◌%◌, ◌≤◌, ◌<◌, ◌≡◌, ◌≢◌, none, some, List, [], ◌∷◌, ◌++◌, map, ltb, All, length, length-append,
  length-drop, length-replicate, get_elem?, set, take, drop, replicate, arith,
}
use mathlib.Core.List.{append_assoc}
use native.Mathlib.Decide.{dec_lt}
use eltex.Cstring.{strlen, text}
use eltex.Cstring.Laws.{strlen-text, zero-IsTerminated}
use eltex.Decimal.{decimal, digits}
use eltex.Decimal.Printed.{length-decimal_short}
use eltex.TextManager.Status.{copying, between, message, three_digits, pad, cells, show_status}

abbrev IsPlain : List ℕ → Type 0
IsPlain xs = All (λ b. b ≢ 0) xs

text-plain : (xs rest : List ℕ) → IsPlain xs → text (xs ++ 0 ∷ rest) ≡ xs
unfolding text
text-plain [] rest h = refl
text-plain (x ∷ xs) rest h = ground (arith, text-plain xs rest h.1)

text-IsPlain : (xs : List ℕ) → IsPlain (text xs)
unfolding text
text-IsPlain [] = tt
text-IsPlain (x ∷ xs) = ground (arith, text-IsPlain xs)

append-IsPlain : (xs ys : List ℕ) → IsPlain xs → IsPlain ys → IsPlain (xs ++ ys)
append-IsPlain [] ys h k = k
append-IsPlain (x ∷ xs) ys h k = (h.0, append-IsPlain xs ys h.1 k)

digits-IsPlain : (k n : ℕ) (out : List ℕ) → IsPlain out → IsPlain (digits k n out)
unfolding digits
digits-IsPlain zero n out h = h
digits-IsPlain (suc k) n out h =
    let out' : IsPlain ((b'0' + n % 10) ∷ out) = (λ e. absurd (omega arith), h) in
    ground (arith, digits-IsPlain k (n / 10) ((b'0' + n % 10) ∷ out) out')

decimal-IsPlain : (n : ℕ) → IsPlain (decimal n)
unfolding decimal
decimal-IsPlain n = digits-IsPlain 10 n [] tt

zeros-IsPlain : (n : ℕ) → IsPlain (replicate n b'0')
zeros-IsPlain zero = tt
zeros-IsPlain (suc n) = (λ e. absurd (omega arith), zeros-IsPlain n)

set_behind : (xs ys : List ℕ) (y v : ℕ) → set (xs ++ y ∷ ys) (length xs) v ≡ (xs ++ v ∷ []) ++ ys
set_behind [] ys y v = refl
set_behind (x ∷ xs) ys y v = ap (◌∷◌ x) (set_behind xs ys y v)

pad-replicate :
    (xs ys : List ℕ) → pad (length ys) (length xs) (xs ++ ys) ≡ xs ++ replicate (length ys) 32
unfolding pad
pad-replicate xs [] = refl
pad-replicate xs (y ∷ ys) =
    let one : suc (length xs) ≡ length (xs ++ 32 ∷ []) =
      omega (arith, length-append xs (32 ∷ [])) in
    let turn : pad (length ys) (suc (length xs)) (set (xs ++ y ∷ ys) (length xs) 32)
        ≡ pad (length ys) (length (xs ++ 32 ∷ [])) ((xs ++ 32 ∷ []) ++ ys) =
      rw (set_behind xs ys y 32, one) refl in
    turn ∙ pad-replicate (xs ++ 32 ∷ []) ys ∙ append_assoc xs (32 ∷ []) (replicate (length ys) 32)

abbrev pub coloured : Bool → List ℕ → List (ℕ × Bool)
coloured b xs = map (λ c. (c, b)) xs

get_elem?-behind : (xs ys : List ℕ) (y : ℕ) → get_elem? (xs ++ y ∷ ys) (length xs) ≡ some y
get_elem?-behind [] ys y = refl
get_elem?-behind (x ∷ xs) ys y = get_elem?-behind xs ys y

-- One cell more in front.
coloured_next :
    (i fill y : ℕ) (ys : List ℕ)
    → (y, ltb i fill)
        ∷ (coloured true (take (fill - suc i) ys) ++ coloured false (drop (fill - suc i) ys))
      ≡ coloured true (take (fill - i) (y ∷ ys)) ++ coloured false (drop (fill - i) (y ∷ ys))
coloured_next i fill y ys = elim (dec_lt i fill) [
  | yes filled ↦
      let left : fill - i ≡ suc (fill - suc i) = omega arith in
      let is : ltb i fill ≡ true = ground arith in rw (left, is) refl
  | no clear ↦
      let left : fill - i ≡ 0 = omega arith in
      let left' : fill - suc i ≡ 0 = omega arith in
      let is : ltb i fill ≡ false = ground arith in rw (left, left', is) refl
]

cells-coloured :
    (fill : ℕ) (xs ys : List ℕ)
    → cells (length ys) (length xs) fill (xs ++ ys)
      ≡ some (
          coloured true (take (fill - length xs) ys) ++ coloured false (drop (fill - length xs) ys))
unfolding cells
cells-coloured fill xs [] =
    ground (arith, take-nil {A = ℕ} (fill - length xs), drop-nil {A = ℕ} (fill - length xs))
cells-coloured fill xs (y ∷ ys) =
    let one : suc (length xs) ≡ length (xs ++ y ∷ []) = omega (arith, length-append xs (y ∷ [])) in
    let same = append_assoc xs (y ∷ []) ys in
    let rest : cells (length ys) (suc (length xs)) fill (xs ++ y ∷ ys)
        ≡ some (
            coloured true (take (fill - suc (length xs)) ys)
            ++ coloured false (drop (fill - suc (length xs)) ys)) =
      rw (one, sym same) (cells-coloured fill (xs ++ y ∷ []) ys) in
    rw (get_elem?-behind xs ys y, rest) (ap some (coloured_next (length xs) fill y ys))

copying-IsPlain : IsPlain copying
unfolding text
copying-IsPlain = text-IsPlain copying

between-IsPlain : IsPlain between
unfolding text
between-IsPlain = text-IsPlain between

message-IsPlain :
    (percent : ℕ) (source destination : List ℕ) → IsPlain (message percent source destination)
message-IsPlain percent source destination =
    let digits' : IsPlain (three_digits percent) =
      append-IsPlain (replicate (3 - length (decimal percent)) b'0') (decimal percent)
        (zeros-IsPlain _) (decimal-IsPlain percent) in
    let to_source =
      append-IsPlain (three_digits percent ++ copying) (text source)
        (append-IsPlain (three_digits percent) copying digits' copying-IsPlain)
        (text-IsPlain source) in
    let to_destination =
      append-IsPlain (three_digits percent ++ copying ++ text source ++ between) (text destination)
        (append-IsPlain (three_digits percent ++ copying ++ text source) between to_source
          between-IsPlain)
        (text-IsPlain destination) in
    let quote : IsPlain (39 ∷ []) = (λ e. absurd (omega arith), tt) in
    (
      λ e. absurd (omega arith),
      append-IsPlain (three_digits percent ++ copying ++ text source ++ between ++ text destination)
          (39 ∷ []) to_destination quote,
    )

length-message :
    (percent : ℕ) (source destination : List ℕ)
    → percent < 1000
    → length (message percent source destination)
      ≡ 22 + length (text source) + length (text destination)
length-message percent source destination small =
    simp (length-append, length-replicate) (omega (arith, length-decimal_short percent small))

-- The line with blanks behind it.
abbrev pub blanked : List ℕ → ℕ → List ℕ
blanked line width = line ++ replicate (width - length line) 32

length-blanked :
    (line : List ℕ) (width : ℕ) → length line < width → length (blanked line width) ≡ width
length-blanked line width fits =
    let blanks = replicate {A = ℕ} (width - length line) 32 in
    omega (arith, length-append line blanks, length-replicate {A = ℕ} (width - length line) 32)

drawn_line :
    (width fill : ℕ) (line held : List ℕ)
    → IsPlain line
    → length held ≡ width
    → length line < width
    → (strlen (line ++ 0 ∷ drop (suc (length line)) held) >>= λ n.
        cells width 0 fill (pad (width - n) n (line ++ 0 ∷ drop (suc (length line)) held)))
      ≡ some (
          coloured true (take fill (blanked line width))
          ++ coloured false (drop fill (blanked line width)))
drawn_line width fill line held plain size fits =
    let behind = 0 ∷ drop (suc (length line)) held in
    let left : length behind ≡ width - length line =
      omega (arith, size, length-drop (suc (length line)) held) in
    let n : strlen (line ++ behind) ≡ some (length line) =
      strlen-text (line ++ behind) (zero-IsTerminated line _)
      ∙ ap (λ (t : List ℕ). some (length t)) (text-plain line _ plain) in
    let padded : pad (width - length line) (length line) (line ++ behind) ≡ blanked line width =
      rw (sym left) (pad-replicate line behind) in
    let same : fill - 0 ≡ fill = omega arith in
    let drawn : cells (length (blanked line width)) 0 fill (blanked line width)
        ≡ some (
            coloured true (take fill (blanked line width))
            ++ coloured false (drop fill (blanked line width))) =
      rw same at (cells-coloured fill [] (blanked line width)) in
    rw (n, padded) (rw (length-blanked line width fits) at drawn)

-- In an array of the window's width and for a number of at most three digits: if the two names have
-- together fewer than `width - 22` bytes the array is kept to, and the whole width is drawn, the
-- message and blanks behind it, the first `fill` cells in the other colours; if they have more, the
-- message is written behind the array.
pub show_status-coloured :
    (width fill percent : ℕ) (held source destination : List ℕ)
    → length held ≡ width
    → percent < 1000
    → (22 + length (text source) + length (text destination) < width
        → (length (blanked (message percent source destination) width) ≡ width)
          × (show_status width fill held percent source destination
              ≡ some (
                  coloured true (take fill (blanked (message percent source destination) width))
                  ++ coloured false
                      (drop fill (blanked (message percent source destination) width)))))
      × (width ≤ 22 + length (text source) + length (text destination)
          → show_status width fill held percent source destination ≡ none)
unfolding show_status
show_status-coloured width fill percent held source destination size small =
    let long = length-message percent source destination small in
    (
      λ fits.
          let line = message percent source destination in
          let short : length line < width = omega (arith, long) in
          let is : ltb (length line) width ≡ true = ground arith in
          let plain = message-IsPlain percent source destination in
          (
            length-blanked line width short,
            rw is (drawn_line width fill line held plain size short),
          ),
      λ over. ground (arith, long),
    )
