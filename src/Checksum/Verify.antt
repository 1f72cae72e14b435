-- ===== src/Checksum/Verify.antt =====
-- checksum of raw_socket/utils.c as senders and receivers use it, on messages with a checksum field.
use eltex.Base.{
  ℕ, zero, suc, ◌+◌, ◌*◌, ◌-◌, ◌/◌, ◌%◌, ◌≤◌, ◌<◌, ◌≡◌, ◌≢◌, refl, ap, ◌∙◌, some, List, [], ◌∷◌,
  ◌++◌, arith, length, length-append, All, IsByte,
}
use eltex.Checksum.{word_at, checksum}
use eltex.Checksum.Sums.{words, total, sum_of}
use eltex.Checksum.Reference.{residue, checksum-sum}

pub All-append : (xs ys : List ℕ) → All IsByte xs → All IsByte ys → All IsByte (xs ++ ys)
All-append [] ys h k = k
All-append (x ∷ xs) ys h k = (h.0, All-append xs ys h.1 k)

-- Words do not straddle a boundary at an even offset.
sum_of-append :
    (k : ℕ) (xs ys : List ℕ) → length xs ≡ 2 * k → sum_of (xs ++ ys) ≡ sum_of xs + sum_of ys
unfolding words total
sum_of-append k [] ys e = omega arith
sum_of-append k (x ∷ []) ys e = absurd (omega arith)
sum_of-append zero (x ∷ y ∷ xs) ys e = absurd (omega arith)
sum_of-append (suc k) (x ∷ y ∷ xs) ys e = omega (arith, sum_of-append k xs ys (omega arith))

sum_of-two : (lo hi : ℕ) (ys : List ℕ) → sum_of (lo ∷ hi ∷ ys) ≡ word_at lo hi + sum_of ys
unfolding words total
sum_of-two lo hi ys = refl

-- A message with the word `lo hi` at an even offset, between `pre` and `post`.
abbrev pub message : List ℕ → ℕ → ℕ → List ℕ → List ℕ
message pre lo hi post = pre ++ lo ∷ hi ∷ post

-- With its own complement as the last word, a sum has all ones for its residue.
residue_completed :
    (s : ℕ) → let c = 65535 - residue (s + 0) in residue (s + (c % 256 + 256 * (c / 256))) ≡ 65535
residue_completed s = ground arith

residue_differs :
    (s v w : ℕ) → v % 65535 ≢ w % 65535 → 65535 - residue (s + v) ≡ 65535 - residue (s + w) → ⊥
residue_differs s v w differ same = differ (ground arith)

module _ (k : ℕ) (pre post rest : List ℕ) (aligned : length pre ≡ 2 * k)
    (pre_bytes : All IsByte pre) (post_bytes : All IsByte post)
    (fits : length pre + length post + 2 ≤ 65535) where
  checksum-message :
      (lo hi : ℕ)
      → IsByte lo
      → IsByte hi
      → checksum (message pre lo hi post ++ rest) (length pre + length post + 2)
        ≡ some (65535 - residue (sum_of pre + sum_of post + word_at lo hi))
  checksum-message lo hi hlo hhi =
      let m = message pre lo hi post in
      let measured : length m ≡ length pre + length post + 2 =
        omega (arith, length-append pre (lo ∷ hi ∷ post)) in
      let summed : sum_of m ≡ sum_of pre + sum_of post + word_at lo hi =
        omega (arith, sum_of-append k pre (lo ∷ hi ∷ post) aligned, sum_of-two lo hi post) in
      rw (← measured, ← summed)
        (checksum-sum m rest (All-append pre (lo ∷ hi ∷ post) pre_bytes (hlo, (hhi, post_bytes)))
          (omega arith))

  -- A sender that zeroes the checksum word at an even offset of a message of at most 65535
  -- bytes, computes `checksum` and stores the answer there in memory order obtains a 16-bit value,
  -- and `checksum` of the message with it is 0, at any even position and whatever lies behind.
  pub checksum_stored :
      (c : ℕ) × (checksum (message pre 0 0 post ++ rest) (length pre + length post + 2) ≡ some c)
      × (c < 65536)
      × (checksum (message pre (c % 256) (c / 256) post ++ rest) (length pre + length post + 2)
          ≡ some 0)
  checksum_stored =
      let s = sum_of pre + sum_of post in
      let c = 65535 - residue (s + word_at 0 0) in
      (
        c,
        checksum-message 0 0 (omega arith) (omega arith),
        omega arith,
        checksum-message (c % 256) (c / 256) (omega arith) (omega arith)
            ∙ ap (λ (r : ℕ). some (65535 - r)) (residue_completed s),
      )

  -- Two messages of at most 65535 bytes that differ in one aligned word have different checksums,
  -- unless the two words agree modulo 65535, which of 16-bit words only 0 and 65535 do.
  pub checksum_detects :
      (lo hi lo' hi' : ℕ)
      → IsByte lo
      → IsByte hi
      → IsByte lo'
      → IsByte hi'
      → word_at lo hi % 65535 ≢ word_at lo' hi' % 65535
      → checksum (message pre lo hi post ++ rest) (length pre + length post + 2)
        ≢ checksum (message pre lo' hi' post ++ rest) (length pre + length post + 2)
  checksum_detects lo hi lo' hi' hlo hhi hlo' hhi' differ same =
      residue_differs (sum_of pre + sum_of post) (word_at lo hi) (word_at lo' hi') differ
        (ground (arith, checksum-message lo hi, checksum-message lo' hi'))
