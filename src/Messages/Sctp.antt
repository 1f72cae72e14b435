-- ===== src/Messages/Sctp.antt =====
-- sctp/main.c and the receiver of raw_socket/main.c, which print what they receive and send nothing
-- back, and the sender of sctp/main.c. The array of sctp/main.c is a global of 256 zeros.
use eltex.Base.{ℕ, none, some, List, [], ◌∷◌, if◌then◌else◌, replicate}
use eltex.Cstring.{text}
use eltex.Messages.{
  Turn, printed, passed, waiting, died, closed, overrun, Run, stopped, after, terminate, strcpy,
  msg_size,
}

-- The loop of server: sctp_recvmsg gives nothing when the client has left.
unfoldable pub server : List ℕ → List Turn → Run
server buf [] = stopped waiting
server buf (t ∷ ts) = elim t.received [
  | none ↦ stopped died
  | some [] ↦ stopped closed
  | some (b ∷ bs) ↦ elim (terminate buf (b ∷ bs)) [
    | none ↦ stopped overrun
    | some now ↦ after (printed (text now)) (server now ts)
  ]
]

-- "hello world\n"
abbrev pub hello_line : List ℕ
hello_line = 104 ∷ 101 ∷ 108 ∷ 108 ∷ 111 ∷ 32 ∷ 119 ∷ 111 ∷ 114 ∷ 108 ∷ 100 ∷ 10 ∷ []

unfoldable pub client_loop : List ℕ → List Turn → Run
client_loop buf [] = stopped waiting
client_loop buf (t ∷ ts) =
    let rest = client_loop buf ts in if t.delivered then after (passed buf) rest else stopped died

unfoldable pub client : List Turn → Run
client ts = client_loop (strcpy (replicate msg_size 0) hello_line) ts

-- The loop of server_udp of raw_socket/main.c.
unfoldable pub server_udp : List ℕ → List Turn → Run
server_udp buf [] = stopped waiting
server_udp buf (t ∷ ts) = elim t.received [
  | none ↦ stopped died
  | some msg ↦ elim (terminate buf msg) [
    | none ↦ stopped overrun
    | some now ↦ after (printed (text now)) (server_udp now ts)
  ]
]
