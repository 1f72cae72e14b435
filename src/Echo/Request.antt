-- ===== src/Echo/Request.antt =====
-- The echo request of ping/main.c and traceroute/main.c, as its receiver checks it.
use eltex.Base.{
  ℕ, suc, ◌+◌, ◌/◌, ◌%◌, ◌≤◌, ◌<◌, ◌≡◌, refl, sym, ◌∙◌, some, List, [], ◌∷◌, ◌++◌, arith, length,
  All, IsByte,
}
use mathlib.Core.List.{append-nil}
use eltex.Checksum.{checksum, checksum_long}
use eltex.Checksum.Reference.{checksum-sum, checksum_long-sum}
use eltex.Checksum.Verify.{checksum_stored}
use eltex.Echo.{identified, request}

long-checksum :
    (mem : List ℕ)
    → All IsByte mem
    → length mem ≤ 65535
    → checksum_long mem (length mem) ≡ checksum mem (length mem)
long-checksum mem h fits =
    let same : checksum_long (mem ++ []) (length mem) ≡ checksum (mem ++ []) (length mem) =
      checksum_long-sum mem [] h fits ∙ sym (checksum-sum mem [] h fits) in
    rw (append-nil mem) at same

-- checksum_stored for two bytes in front of the checksum and nothing behind the message.
stored :
    (post : List ℕ)
    → All IsByte post
    → length post ≡ 52
    → (c : ℕ) × (c < 65536)
      × (checksum_long (8 ∷ 0 ∷ 0 ∷ 0 ∷ post) (suc (suc (suc (suc (length post))))) ≡ some c)
      × (checksum_long (8 ∷ 0 ∷ c % 256 ∷ c / 256 ∷ post) (suc (suc (suc (suc (length post)))))
          ≡ some 0)
stored post h sized =
    let (c, blank, small, whole) =
      checksum_stored 1 (8 ∷ 0 ∷ []) post [] refl (omega arith) h (omega arith) in
    let four : 2 + length post + 2 ≡ suc (suc (suc (suc (length post)))) = omega arith in
    (
      c,
      small,
      long-checksum (8 ∷ 0 ∷ 0 ∷ 0 ∷ post)
            (omega arith, (omega arith, (omega arith, (omega arith, h)))) (omega arith)
          ∙ (rw (four, append-nil post) at blank),
      long-checksum (8 ∷ 0 ∷ c % 256 ∷ c / 256 ∷ post)
            (omega arith, (omega arith, (omega (arith, small), (omega (arith, small), h))))
            (omega arith)
          ∙ (rw (four, append-nil post) at whole),
    )

-- Whatever the process, the sequence number and the 48 uninitialised bytes of payload, the request is
-- sent, it is an echo request of 56 bytes that carries the low 16 bits of both numbers in network
-- order, and its checksum is right: the sum over all of it gives 0.
pub request_verifies :
    (pid seq : ℕ) (payload : List ℕ)
    → All IsByte payload
    → length payload ≡ 48
    → (c : ℕ) × (c < 65536)
      × (request pid seq payload ≡ some (8 ∷ 0 ∷ c % 256 ∷ c / 256 ∷ identified pid seq payload))
      × (checksum_long (8 ∷ 0 ∷ c % 256 ∷ c / 256 ∷ identified pid seq payload) 56 ≡ some 0)
unfolding request
request_verifies pid seq payload h sized =
    let post = identified pid seq payload in
    let post_bytes : All IsByte post =
      (omega arith, (omega arith, (omega arith, (omega arith, h)))) in
    let long : length post ≡ 52 = omega arith in
    let (c, small, blank, whole) = stored post post_bytes long in
    let whole_long : suc (suc (suc (suc (length post)))) ≡ 56 = omega arith in
    (c, small, rw blank, rw whole_long at whole)
