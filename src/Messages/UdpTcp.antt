-- ===== src/Messages/UdpTcp.antt =====
-- udp_tcp_client_server/main.c: a server and a client that send back what they receive, over UDP and
-- over TCP. The array of a client holds whatever stood on the stack, which is an argument.
pub mod Replies
use eltex.Base.{ℕ, Option, none, some, List, [], ◌∷◌, if◌then◌else◌, take}
use eltex.Cstring.{text}
use eltex.Messages.{
  Turn, Output, printed, passed, Stop, waiting, died, closed, overrun, Run, stopped, after, nread,
  terminate, strcpy,
}

-- The loop of server_udp: the whole array goes back.
unfoldable pub server_udp : List ℕ → List Turn → Run
server_udp buf [] = stopped waiting
server_udp buf (t ∷ ts) = elim t.received [
  | none ↦ stopped died
  | some msg ↦ elim (terminate buf msg) [
    | none ↦ stopped overrun
    | some now ↦
        let rest = server_udp now ts in
        after (printed (text now)) (if t.delivered then after (passed now) rest else stopped died)
  ]
]

-- The loop of server_tcp: the bytes that were read go back.
unfoldable pub server_tcp : List ℕ → List Turn → Run
server_tcp buf [] = stopped waiting
server_tcp buf (t ∷ ts) = elim t.received [
  | none ↦ stopped died
  | some msg ↦ elim (terminate buf msg) [
    | none ↦ stopped overrun
    | some now ↦
        let rest = server_tcp now ts in
        after (printed (text now))
          (if t.delivered then after (passed (take (nread msg) now)) rest else stopped died)
  ]
]

-- The loop of client_udp.
unfoldable pub client_udp_loop : List ℕ → List Turn → Run
client_udp_loop buf [] = stopped waiting
client_udp_loop buf (t ∷ ts) =
    if t.delivered
    then (after (passed buf) (elim t.received [
      | none ↦ stopped died
      | some msg ↦ elim (terminate buf msg) [
        | none ↦ stopped overrun
        | some now ↦ after (printed (text now)) (client_udp_loop now ts)
      ]
    ]))
    else stopped died

-- "hello world!"
abbrev pub hello : List ℕ
hello = 104 ∷ 101 ∷ 108 ∷ 108 ∷ 111 ∷ 32 ∷ 119 ∷ 111 ∷ 114 ∷ 108 ∷ 100 ∷ 33 ∷ []

unfoldable pub client_udp : List ℕ → List Turn → Run
client_udp garbage ts = client_udp_loop (strcpy garbage hello) ts

-- client_tcp, which receives nothing.
unfoldable pub client_tcp_loop : List ℕ → List Turn → Run
client_tcp_loop buf [] = stopped waiting
client_tcp_loop buf (t ∷ ts) =
    let rest = client_tcp_loop buf ts in
    if t.delivered then after (passed buf) rest else stopped died

unfoldable pub client_tcp : List ℕ → List Turn → Run
client_tcp garbage ts = client_tcp_loop (strcpy garbage hello) ts
