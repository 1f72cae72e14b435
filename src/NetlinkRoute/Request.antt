-- ===== src/NetlinkRoute/Request.antt =====
-- core/netlinkdev/netlink_rt/netlink_recv.c, main: the request for the routes. It keeps a header of 16
-- bytes and sends 8208; `stack` is the memory from that header on, `none` less of it than is sent.
-- Not modelled: what is printed on a failure.
use eltex.Base.{
  refl, ap, ℕ, zero, suc, ◌+◌, ◌*◌, ◌/◌, ◌%◌, ◌≤◌, ◌<◌, ◌≡◌, Bool, true, false, Option, none, some,
  List, [], ◌∷◌, ltb, if◌then◌else◌, length, length-drop, take, drop, get_elem?, u16_at, u32_at,
  bytes16, bytes32, arith, ◌>>=◌,
}
use eltex.Base.Int.{ℤ, pos, negsuc}

-- NLMSG_SPACE(BUF_LEN).
abbrev pub space : ℕ
space = 8208

-- RTM_GETROUTE, NLM_F_REQUEST | NLM_F_DUMP, and 1 for the sequence number. The variable gen, which has
-- the family, is not part of it.
unfoldable pub request : ℕ → List ℕ → List ℕ
request pid stack =
    bytes32 space (bytes16 26 (bytes16 769 (bytes32 1 (bytes32 pid (drop 16 stack)))))

-- sendmsg of the whole space.
unfoldable pub send : ℕ → List ℕ → Option (List ℕ)
send pid stack =
    let mem = request pid stack in if ltb (length mem) space then none else some (take space mem)

pub data End : Type 0 where
  exit_success exit_failure : End

abbrev is_negative : ℤ → Bool
is_negative (pos n) = false
is_negative (negsuc n) = true

-- What socket and sendmsg return decides; what reply_msg returns, -1 where recvmsg failed, is not
-- looked at. With the end, what was handed to sendmsg, if it came to that.
unfoldable pub main : ℤ → ℤ → ℤ → ℕ → List ℕ → Option (End × Option (List ℕ))
main sd sent replied pid stack =
    if is_negative sd
    then some (exit_failure, none)
    else (send pid stack >>= λ msg.
        some (if is_negative sent then exit_failure else exit_success, some msg))

send-bytes :
    (pid : ℕ) (stack : List ℕ)
    → space ≤ length stack
    → send pid stack
      ≡ some (
          bytes32 space
            (bytes16 26 (bytes16 769 (bytes32 1 (bytes32 pid (take 8192 (drop 16 stack)))))))
unfolding send request
send-bytes pid stack room =
    let left = length-drop 16 stack in
    let long : ltb (length (request pid stack)) space ≡ false = ground (arith, left) in rw long refl

get_elem?-take : (n i : ℕ) (xs : List ℕ) → i < n → get_elem? (take n xs) i ≡ get_elem? xs i
get_elem?-take zero i xs h = absurd (omega arith)
get_elem?-take (suc n) i [] h = refl
get_elem?-take (suc n) zero (x ∷ xs) h = refl
get_elem?-take (suc n) (suc i) (x ∷ xs) h = get_elem?-take n i xs (omega arith)

get_elem?-take-drop :
    (n m i : ℕ) (xs : List ℕ) → i < n → get_elem? (take n (drop m xs)) i ≡ get_elem? xs (m + i)
get_elem?-take-drop n zero i xs h =
    let same : 0 + i ≡ i = omega arith in rw same (get_elem?-take n i xs h)
get_elem?-take-drop n (suc m) i [] h = get_elem?-take n i [] h
get_elem?-take-drop n (suc m) i (x ∷ xs) h =
    let next : suc m + i ≡ suc (m + i) = omega arith in rw next (get_elem?-take-drop n m i xs h)

-- Where the calls before it succeed, the request that is sent has the length, the type, the flags, the
-- number and the process that it was given, and where the kernel looks for the family stands what
-- the stack held behind the header; the program ends with success whatever came of the reply.
pub main-request :
    (sd sent pid : ℕ) (replied : ℤ) (stack : List ℕ)
    → pid < 4294967296
    → space ≤ length stack
    → (msg : List ℕ) × (main (pos sd) (pos sent) replied pid stack ≡ some (exit_success, some msg))
      × (u32_at msg 0 ≡ some space)
      × (u16_at msg 4 ≡ some 26)
      × (u16_at msg 6 ≡ some 769)
      × (u32_at msg 8 ≡ some 1)
      × (u32_at msg 12 ≡ some pid)
      × (get_elem? msg 16 ≡ get_elem? stack 16)
unfolding main
main-request sd sent pid replied stack number room =
    let whole : pid % 256
          + 256 * (pid / 256 % 256)
          + 65536 * (pid / 65536 % 256)
          + 16777216 * (pid / 16777216 % 256)
        ≡ pid =
      omega arith in
    (
      bytes32 space
          (bytes16 26 (bytes16 769 (bytes32 1 (bytes32 pid (take 8192 (drop 16 stack)))))),
      rw (send-bytes pid stack room) refl,
      refl,
      refl,
      refl,
      refl,
      ap (λ n. some n) whole,
      get_elem?-take-drop 8192 16 0 stack (omega arith),
    )
