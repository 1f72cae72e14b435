-- ===== src/Messages/UdpTcp/Replies.antt =====
-- What the servers of udp_tcp_client_server/main.c send back, as long as every message is shorter than
-- their array, and what a longer one does.
use eltex.Base.{
  ℕ, suc, ◌<◌, ◌≤◌, ◌≡◌, refl, ap, true, some, List, [], ◌∷◌, ◌++◌, arith, length, take, drop,
  take-append, All,
}
use eltex.Cstring.{text}
use eltex.Messages.{Turn, Output, printed, passed, waiting, overrun, msg_size, nread, terminate}
use eltex.Messages.Arrays.{turns, ended, terminate-short, terminate-long, length-ended}
use eltex.Messages.UdpTcp.{server_udp, server_tcp}

-- A message that leaves room for its zero.
abbrev pub Short : List ℕ → Type 0
Short m = length m < msg_size

-- What an echo server puts out over its array: for each message its text, and the array as it is
-- then, whose end still is what earlier messages left there.
unfoldable pub echoes : List ℕ → List (List ℕ) → List Output
echoes buf [] = []
echoes buf (m ∷ ms) = let now = ended buf m in printed (text now) ∷ passed now ∷ echoes now ms

server_udp-turn :
    (buf m : List ℕ) (ts : List Turn) (now : List ℕ)
    → terminate buf m ≡ some now
    → server_udp buf (record { received = some m; delivered = true } ∷ ts) ≡ record {
      outputs = printed (text now) ∷ passed now ∷ (server_udp now ts).outputs;
      stop = (server_udp now ts).stop;
    }
unfolding server_udp
server_udp-turn buf m ts now e = rw (server_udp, e)

server_udp-nil : (buf : List ℕ) → server_udp buf [] ≡ record { outputs = []; stop = waiting }
unfolding server_udp
server_udp-nil buf = refl

server_udp_overrun :
    (buf m : List ℕ) (ts : List Turn)
    → msg_size ≤ length m
    → server_udp buf (record { received = some m; delivered = true } ∷ ts)
      ≡ record { outputs = []; stop = overrun }
unfolding server_udp
server_udp_overrun buf m ts long = rw (server_udp, terminate-long buf m long)

-- server_udp over an array of 256 bytes, while every send succeeds: for each message shorter than that
-- it prints its text and sends back 256 bytes, the message, a zero and what the array held behind
-- them, and waits for more; a message of 256 bytes or more behind such ones makes it write past its
-- array, whatever would follow.
pub server_udp-echoes :
    (buf : List ℕ) (ms : List (List ℕ)) (long : List ℕ) (ts : List Turn)
    → length buf ≡ msg_size
    → All Short ms
    → msg_size ≤ length long
    → (server_udp buf (turns ms) ≡ record { outputs = echoes buf ms; stop = waiting })
      × (server_udp buf (turns ms ++ record { received = some long; delivered = true } ∷ ts)
          ≡ record { outputs = echoes buf ms; stop = overrun })
unfolding turns echoes
server_udp-echoes buf [] long ts full short over =
    (server_udp-nil buf, server_udp_overrun buf long ts over)
server_udp-echoes buf (m ∷ ms) long ts full (now, later) over =
    let step = terminate-short buf m full now in
    let (ends, runs) =
      server_udp-echoes (ended buf m) ms long ts (length-ended buf m full now) later over in
    (
      rw (server_udp-turn buf m (turns ms) (ended buf m) step, ends),
      rw (
        server_udp-turn buf m (turns ms ++ record { received = some long; delivered = true } ∷ ts)
            (ended buf m) step,
        runs,
      ),
    )

-- The bytes of a list of outputs that were sent.
unfoldable pub passed_bytes : List Output → List ℕ
passed_bytes [] = []
passed_bytes (printed line ∷ os) = passed_bytes os
passed_bytes (passed bytes ∷ os) = bytes ++ passed_bytes os

unfoldable pub stream : List (List ℕ) → List ℕ
stream [] = []
stream (m ∷ ms) = m ++ stream ms

server_tcp-nil :
    (buf : List ℕ)
    → ((server_tcp buf []).stop ≡ waiting) × (passed_bytes (server_tcp buf []).outputs ≡ [])
unfolding server_tcp passed_bytes
server_tcp-nil buf = (refl, refl)

server_tcp-turn :
    (buf m : List ℕ) (ts : List Turn) (now : List ℕ)
    → terminate buf m ≡ some now
    → server_tcp buf (record { received = some m; delivered = true } ∷ ts) ≡ record {
      outputs = printed (text now) ∷ passed (take (nread m) now) ∷ (server_tcp now ts).outputs;
      stop = (server_tcp now ts).stop;
    }
unfolding server_tcp
server_tcp-turn buf m ts now e = rw (server_tcp, e)

take-ended : (buf m : List ℕ) → Short m → take (nread m) (ended buf m) ≡ m
take-ended buf m short =
    let whole : nread m ≡ length m = omega arith in
    rw whole (take-append m (0 ∷ drop (suc (length m)) buf))

-- server_tcp over an array of 256 bytes, while every recv gives fewer bytes than that and every send
-- succeeds: it goes on, and the bytes that it sent back are those it received, in their order, however
-- the stream was cut into pieces.
pub server_tcp-stream :
    (buf : List ℕ) (ms : List (List ℕ))
    → length buf ≡ msg_size
    → All Short ms
    → ((server_tcp buf (turns ms)).stop ≡ waiting)
      × (passed_bytes (server_tcp buf (turns ms)).outputs ≡ stream ms)
unfolding turns stream passed_bytes
server_tcp-stream buf [] full short = server_tcp-nil buf
server_tcp-stream buf (m ∷ ms) full (now, later) =
    let step = terminate-short buf m full now in
    let (goes, same) = server_tcp-stream (ended buf m) ms (length-ended buf m full now) later in
    rw (server_tcp-turn buf m (turns ms) (ended buf m) step, take-ended buf m now)
      (goes, ap (◌++◌ m) same)
