-- ===== src/NetlinkRoute/Replies.antt =====
-- A whole reply to netlink_recv.c.
use eltex.Base.{
  ℕ, zero, suc, ◌+◌, ◌-◌, ◌≤◌, ◌<◌, ◌≡◌, refl, some, List, [], ◌∷◌, ◌++◌, arith, length,
  length-append, drop, u16_at, u32_at, All,
}
use mathlib.Core.List.{append_assoc}
use eltex.Base.Int.{pos}
use eltex.NetlinkRoute.{System, Output, align, print_msg, print_msgs, reply_msg}
use eltex.NetlinkRoute.Encoding.{IsMessage, msg_len, encode_msg, length-encode_msg, msg_read}
use eltex.NetlinkRoute.Routes.{
  Sent, route_sent, plain, IsSent, message_of, encode_all, lines_of, all_lines, print_msg_lem,
}

Sent-IsMessage : (x : Sent) → IsSent x → IsMessage (message_of x)
Sent-IsMessage (route_sent r) v = v.0
Sent-IsMessage (plain m) v = v.0

module _ (sys : System) where
  print_msgs_step :
      (fuel n len type : ℕ) (mem rest : List ℕ) (out more : List Output)
      → u32_at mem 0 ≡ some len
      → u16_at mem 4 ≡ some type
      → drop (align len) mem ≡ rest
      → 16 ≤ len
      → print_msg sys mem type len (align len + n) ≡ some out
      → print_msgs sys fuel rest n ≡ some more
      → print_msgs sys (suc fuel) mem (align len + n) ≡ some (out ++ more)
  unfolding print_msgs
  print_msgs_step fuel n len type mem rest out more e f behind long printed later =
      let left : align len + n - align len ≡ n = omega arith in
      ground (arith, e, f, behind, left, printed, later)

  print_msgs-encode_all :
      (xs : List Sent) (fuel : ℕ) (rest : List ℕ)
      → All IsSent xs
      → length (encode_all xs) < fuel
      → print_msgs sys fuel (encode_all xs ++ rest) (length (encode_all xs))
        ≡ some (all_lines sys xs)
  unfolding encode_all all_lines
  print_msgs-encode_all xs zero rest v enough = absurd (omega arith)
  print_msgs-encode_all [] (suc fuel) rest v enough = unfold print_msgs in refl
  print_msgs-encode_all (x ∷ xs) (suc fuel) rest v enough =
      let m = message_of x in
      let u : IsMessage m = Sent-IsMessage x v.0 in
      let behind = encode_all xs ++ rest in
      let joined : (encode_msg m ++ encode_all xs) ++ rest ≡ encode_msg m ++ behind =
        append_assoc (encode_msg m) (encode_all xs) rest in
      let whole : length (encode_msg m ++ encode_all xs)
          ≡ align (msg_len m) + length (encode_all xs) =
        omega (arith, length-append (encode_msg m) (encode_all xs), length-encode_msg m u) in
      let (len, type, after) = msg_read m behind u in
      rw (joined, whole)
        (print_msgs_step fuel (length (encode_all xs)) (msg_len m) m.type (encode_msg m ++ behind)
          behind (lines_of sys x (align (msg_len m) + length (encode_all xs))) (all_lines sys xs)
          len type after (omega arith)
          (print_msg_lem sys x behind (align (msg_len m) + length (encode_all xs)) v.0)
          (print_msgs-encode_all xs fuel rest v.1 (omega (arith, whole))))

  -- Of a reply of whole messages, each with its padding, whose route attributes hold four bytes at
  -- least, reply_msg returns 0 and prints,
  -- in their order: of each route of the main table one line, with the last value that its attributes
  -- give for destination, gateway, interface and source, or else what the variables held; of a route
  -- of another table, of message types 3 and 16 nothing; of any other its type and length. It reads
  -- nothing but the reply, whatever stands behind it in the buffer.
  pub reply_msg-encode_all :
      (xs : List Sent) (rest : List ℕ)
      → All IsSent xs
      → reply_msg sys (pos (length (encode_all xs))) (encode_all xs ++ rest)
        ≡ some (pos 0, all_lines sys xs)
  unfolding reply_msg
  reply_msg-encode_all xs rest v =
      rw (print_msgs-encode_all xs (suc (length (encode_all xs))) rest v (omega arith))
