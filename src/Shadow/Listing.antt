-- ===== src/Shadow/Listing.antt =====
-- user_shadow.c behind its wait: the loop that prints /etc/shadow, 64 bytes at a time.
use eltex.Base.{
  refl, ℕ, ◌≡◌, ◌≢◌, Option, none, some, List, [], ◌∷◌, ◌++◌, All, length, drop, replicate, arith,
}
use eltex.Base.{suc, zero, ap, ◌∙◌}
use mathlib.Core.List.{append-nil}
use eltex.Cstring.{strlen, text, IsTerminated}
use eltex.Cstring.Laws.{strlen-text}
use eltex.Messages.{printed, waiting, closed, overrun, Run, stopped, after}

-- BUFFER_LEN.
abbrev pub buffer_len : ℕ
buffer_len = 64

-- What a read leaves in the buffer; a failure leaves it alone.
abbrev pub read_into : List ℕ → Option (List ℕ) → List ℕ
read_into buffer none = buffer
read_into buffer (some bytes) = bytes ++ drop (length bytes) buffer

-- printf of the buffer, and what follows it.
abbrev pub print : List ℕ → Run → Option ℕ → Run
print buffer rest none = stopped overrun
print buffer rest (some n) = after (printed (text buffer)) rest

-- `while (read(...))`: the answers are what read gives, `none` for -1, which is not 0.
unfoldable pub print_shadow : List ℕ → List (Option (List ℕ)) → Run
print_shadow buffer [] = stopped waiting
print_shadow buffer (some [] ∷ answers) = stopped closed
print_shadow buffer (some (b ∷ bytes) ∷ answers) =
    let now = read_into buffer (some (b ∷ bytes)) in
    print now (print_shadow now answers) (strlen now)
print_shadow buffer (none ∷ answers) = print buffer (print_shadow buffer answers) (strlen buffer)

plain_unended : (xs : List ℕ) → All (λ b. b ≢ 0) xs → strlen xs ≡ none
unfolding strlen
plain_unended [] h = refl
plain_unended (x ∷ xs) h = ground (arith, plain_unended xs h.1)

drop_all : (xs : List ℕ) (n : ℕ) → length xs ≡ n → drop n xs ≡ []
drop_all [] zero e = refl
drop_all [] (suc n) e = refl
drop_all (x ∷ xs) zero e = absurd (omega arith)
drop_all (x ∷ xs) (suc n) e = drop_all xs n (omega arith)

-- A file of at least 64 bytes, none of which is 0, is never printed: its first 64 bytes fill the
-- buffer and printf reads behind it, whatever would follow.
pub print_shadow-overrun :
    (buffer bytes : List ℕ) (answers : List (Option (List ℕ)))
    → length buffer ≡ buffer_len
    → length bytes ≡ buffer_len
    → All (λ b. b ≢ 0) bytes
    → print_shadow buffer (some bytes ∷ answers) ≡ stopped overrun
unfolding print_shadow
print_shadow-overrun buffer [] answers size full plain = absurd (omega arith)
print_shadow-overrun buffer (b ∷ bytes) answers size full plain =
    let gone : drop (suc (length bytes)) buffer ≡ [] =
      drop_all buffer (suc (length bytes)) (omega arith) in
    let unended : strlen (b ∷ (bytes ++ [])) ≡ none =
      ap strlen (append-nil (b ∷ bytes)) ∙ plain_unended (b ∷ bytes) plain in
    rw (gone, unended) refl

-- Where the file cannot be opened every read fails: the loop never ends, however often it has gone
-- round, and prints what the buffer held each time, if a zero is in it.
pub print_shadow-failing :
    (buffer : List ℕ) (n : ℕ)
    → IsTerminated buffer
    → print_shadow buffer (replicate n none)
      ≡ record { outputs = replicate n (printed (text buffer)); stop = waiting }
unfolding print_shadow
print_shadow-failing buffer zero h = refl
print_shadow-failing buffer (suc n) h =
    rw (strlen-text buffer h, print_shadow-failing buffer n h) refl
