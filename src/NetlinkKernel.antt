-- ===== src/NetlinkKernel.antt =====
-- core/netlinkdev/netlink_kernel: user_module.c sends "Hello" over a netlink socket and prints the
-- answer; kernel_module.c prints what it gets and answers "Hello from kernel". `none` is an access
-- outside the memory that is there.
-- user_module.c keeps a header of 16 bytes and uses 8208: what stands behind it on the stack is used
-- with it, and `stack` is that memory, from the header on.
-- Not modelled: printing that something failed.
pub mod Exchange
use eltex.Base.{
  ℕ, suc, zero, ◌+◌, ◌-◌, ◌*◌, ◌/◌, ◌≡◌, Bool, Option, none, some, List, [], ◌∷◌, ◌++◌, ltb, ◌>>=◌,
  if◌then◌else◌, length, replicate, take, drop, u32_at, bytes16, bytes32, min,
}
use eltex.Cstring.{strlen, strncpy, text}

abbrev pub hello : List ℕ
hello = b'H' ∷ b'e' ∷ b'l' ∷ b'l' ∷ b'o' ∷ []

abbrev pub hello_from_kernel : List ℕ
hello_from_kernel =
    hello ++ 32 ∷ b'f' ∷ b'r' ∷ b'o' ∷ b'm' ∷ 32 ∷ b'k' ∷ b'e' ∷ b'r' ∷ b'n' ∷ b'e' ∷ b'l' ∷ []

-- NLMSG_HDRLEN, and NLMSG_ALIGN.
abbrev pub hdrlen : ℕ
hdrlen = 16

abbrev pub align : ℕ → ℕ
align n = (n + 3) / 4 * 4

-- What the kernel answers: whether nlmsg_new has memory, and what nlmsg_put lays out in it for a
-- type and a length. It is documented to leave room for a header and the payload, aligned, and to
-- clear what the alignment adds.
pub record Netlink : Type 0 where
  pub nlmsg_new : Bool
  pub nlmsg_put : ℕ → ℕ → List ℕ
  pub aligned : (type len : ℕ) → length (nlmsg_put type len) ≡ hdrlen + align len
  pub padded :
      (type len : ℕ) → drop (hdrlen + len) (nlmsg_put type len) ≡ replicate (align len - len) 0

-- NLMSG_DONE.
abbrev pub nlmsg_done : ℕ
nlmsg_done = 3

-- What the module prints, and what it hands to nlmsg_unicast, with the port.
pub record Handled : Type 0 where
  pub printed : List ℕ
  pub unicast : Option (ℕ × List ℕ)

-- strncpy to the payload.
abbrev pub fill_payload : List ℕ → List ℕ → List ℕ
fill_payload mem bytes = take hdrlen mem ++ bytes ++ drop (hdrlen + length bytes) mem

unfoldable pub nl_recv_msg : Netlink → List ℕ → Option Handled
nl_recv_msg k skb = do
  msg_size ← strlen (hello_from_kernel ++ 0 ∷ [])
  n ← strlen (drop hdrlen skb)
  pid ← u32_at skb 12
  bytes ← strncpy msg_size (hello_from_kernel ++ 0 ∷ [])
  let reply = fill_payload (k.nlmsg_put nlmsg_done msg_size) bytes
  some (record {
    printed = text (drop hdrlen skb);
    unicast = if k.nlmsg_new then some (pid, reply) else none;
  })

-- NLMSG_SPACE(BUF_LEN).
abbrev pub space : ℕ
space = 8208

-- RTM_GETROUTE and NLM_F_REQUEST | NLM_F_DUMP, with 1 for the sequence number and "Hello" behind.
unfoldable pub request : ℕ → List ℕ → List ℕ
request pid stack =
    bytes32 space (bytes16 26 (bytes16 769 (bytes32 1 (bytes32 pid (hello ++ 0 ∷ drop 22 stack)))))

-- sendmsg of the whole space.
unfoldable pub send : ℕ → List ℕ → Option (List ℕ)
send pid stack =
    let mem = request pid stack in if ltb (length mem) space then none else some (take space mem)

-- What recvmsg does: it takes a message, fails, or waits for ever, where none is sent.
pub data Received : Type 0 where
  message : List ℕ → Received
  failed blocks : Received

-- How the program ends: with the text behind "Recv message: ", with a failure before it, or not at
-- all, in recvmsg.
pub data End : Type 0 where
  printed : List ℕ → End
  exit_failure blocked : End

-- The memory of the request, into which a message is received.
abbrev pub received : List ℕ → List ℕ → List ℕ
received mem msg = take (min (length msg) space) msg ++ drop (min (length msg) space) mem

abbrev pub print_payload : List ℕ → Option End
print_payload mem = strlen (drop hdrlen mem) >>= λ n. some (printed (text (drop hdrlen mem)))

-- What recvmsg returned is not looked at.
unfoldable pub receive : ℕ → List ℕ → Received → Option End
receive pid stack (message msg) = print_payload (received (request pid stack) msg)
receive pid stack failed = print_payload (request pid stack)
receive pid stack blocks = some blocked

-- Which calls succeed: socket and sendmsg of the program, nlmsg_unicast of the module, which puts the
-- message into the socket of its port, and recvmsg, where it does not wait.
pub record Calls : Type 0 where
  pub socket : Bool
  pub sendmsg : Bool
  pub nlmsg_unicast : Bool
  pub recvmsg : Bool

-- recvmsg behind the module: what that put into the socket, or nothing.
unfoldable pub delivered : Calls → Option (ℕ × List ℕ) → Received
delivered calls unicast =
    if calls.recvmsg
    then (elim unicast [
      | none ↦ blocks
      | some (port, msg) ↦ if calls.nlmsg_unicast then message msg else blocks
    ])
    else failed

-- The program with the module, which sendmsg calls, where it succeeds, before it returns: the
-- texts that the module prints, and the program's end.
unfoldable pub main : Netlink → Calls → ℕ → List ℕ → Option (List (List ℕ) × End)
main k calls pid stack =
    let talk = (do
      skb ← send pid stack
      h ← nl_recv_msg k skb
      end ← receive pid stack (delivered calls h.unicast)
      some (h.printed ∷ [], end)) in
    let refused = (do skb ← send pid stack; some ([], exit_failure)) in
    if calls.socket then (if calls.sendmsg then talk else refused) else some ([], exit_failure)
