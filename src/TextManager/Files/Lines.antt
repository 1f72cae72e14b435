-- ===== src/TextManager/Files/Lines.antt =====
-- Which lines of a directory `print_files` shows.
use eltex.Base.{
  ℕ, zero, suc, ◌+◌, ◌-◌, ◌≤◌, ◌<◌, ◌≡◌, refl, ◌∙◌, ap, some, false, List, [], ◌∷◌, ◌++◌, arith,
  length, length-append, get_elem?, take, drop,
}
use eltex.Base.Int.{pos, ◌+ℤ◌, eqb_ℤ}
use native.Mathlib.Decide.{dec_lt}
use eltex.TextManager.Files.{
  Dirent, Field, FileSystem, listed, Style, style_of, print_region, read_files, print_files,
}

-- Entries with their names and styles, the first of them the one of number `i`.
unfoldable pub styled : Field → ℕ → List Dirent → List (List ℕ × Style)
styled f i [] = []
styled f i (e ∷ es) = (e.d_name, style_of f (pos i) e) ∷ styled f (suc i) es

drop-get_elem? :
    (d : List Dirent) (i : ℕ)
    → i < length d
    → (e : Dirent) × (get_elem? d i ≡ some e) × (drop i d ≡ e ∷ drop (suc i) d)
drop-get_elem? [] i h = absurd (omega arith)
drop-get_elem? (e ∷ d) zero h = (e, refl, refl)
drop-get_elem? (e ∷ d) (suc i) h = drop-get_elem? d i (omega arith)

take-drop-append :
    (xs ys : List Dirent) (k i : ℕ)
    → k + i ≤ length xs
    → take k (drop i (xs ++ ys)) ≡ take k (drop i xs)
take-drop-append [] ys zero i h = refl
take-drop-append [] ys (suc k) i h = absurd (omega arith)
take-drop-append (x ∷ xs) ys zero i h = refl
take-drop-append (x ∷ xs) ys (suc k) zero h =
    ap (◌∷◌ x) (take-drop-append xs ys k zero (omega arith))
take-drop-append (x ∷ xs) ys (suc k) (suc i) h = take-drop-append xs ys (suc k) i (omega arith)

module _ (f : Field) (d : List Dirent) (m : ℕ) (fits : m ≤ length d) where
  print_region-end : (n : ℕ) → print_region f d (pos m) n (pos m) ≡ some []
  unfolding print_region
  print_region-end zero = refl
  print_region-end (suc n) = ground arith

  print_region-next :
      (n i : ℕ) (e : Dirent) (more : List (List ℕ × Style))
      → i < m
      → get_elem? d i ≡ some e
      → print_region f d (pos m) n (pos (suc i)) ≡ some more
      → print_region f d (pos m) (suc n) (pos i) ≡ some ((e.d_name, style_of f (pos i) e) ∷ more)
  unfolding print_region
  print_region-next n i e more inside there rest =
      let differs : eqb_ℤ (pos i) (pos m) ≡ false = ground arith in
      let next : pos i +ℤ pos 1 ≡ pos (suc i) = ground arith in
      rw (differs, there) (rw (next, rest))

  print_region-styled :
      (n i : ℕ)
      → i ≤ m
      → print_region f d (pos m) n (pos i) ≡ some (styled f i (take n (take (m - i) (drop i d))))
  print_region-styled zero i h = unfold print_region styled in refl
  print_region-styled (suc n) i h = elim (dec_lt i m) [
    | no end ↦
        let here : i ≡ m = omega arith in
        let none_left : m - m ≡ 0 = omega arith in
        rw (here, none_left) (print_region-end (suc n) ∙ unfold styled in refl)
    | yes inside ↦
        let (e, there, split) = drop-get_elem? d i (omega arith) in
        let left : m - i ≡ suc (m - suc i) = omega arith in
        rw (split, left)
          (print_region-next n i e (styled f (suc i) (take n (take (m - suc i) (drop (suc i) d))))
              inside there (print_region-styled n (suc i) (omega arith))
            ∙ unfold styled in refl)
  ]

read_files_lem :
    (fs : FileSystem) (path : List ℕ) (old : List Dirent) (entries : List Dirent) (m : ℕ)
    → listed fs path ≡ some entries
    → length entries ≡ suc m
    → suc m ≤ 256
    → read_files fs path old ≡ some (entries ++ drop (length entries) old, pos m)
unfolding read_files
read_files_lem fs path old entries m given long fits = ground (arith, given, long)

-- Of a directory of at most 256 entries, and at least one, `print_files` returns the index of the
-- last entry as the count, and shows the names from the region on, as many as the window has
-- lines, but never the last entry that readdir gave.
pub print_files-styled :
    (fs : FileSystem) (h : ℕ) (f : Field) (old entries : List Dirent) (m r : ℕ)
    → listed fs f.current_path ≡ some entries
    → length entries ≡ suc m
    → suc m ≤ 256
    → f.current_region ≡ pos r
    → r ≤ m
    → print_files fs h f old
      ≡ some (record {
        d = entries ++ drop (length entries) old;
        file_count = pos m;
        lines = styled f r (take h (take (m - r) (drop r entries)));
      })
unfolding print_files
print_files-styled fs h f old entries m r given long fits at inside =
    let d = entries ++ drop (length entries) old in
    let reaches : m ≤ length d = omega (arith, length-append entries (drop (length entries) old)) in
    let shown = print_region-styled f d m reaches h r inside in
    let kept : take (m - r) (drop r d) ≡ take (m - r) (drop r entries) =
      take-drop-append entries (drop (length entries) old) (m - r) r (omega arith) in
    let shown' : print_region f d (pos m) h f.current_region
        ≡ some (styled f r (take h (take (m - r) (drop r entries)))) =
      ap (print_region f d (pos m) h) at ∙ rw (← kept) shown in
    rw (read_files_lem fs f.current_path old entries m given long fits) (rw shown')
