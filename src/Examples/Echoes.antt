-- ===== src/Examples/Echoes.antt =====
-- udp_tcp_client_server/main.c and broadcast_multicast/main.c: two messages, and one that is too long;
-- and the packet of raw_socket/main.c over an array of zeros.
use eltex.Base.{
  ℕ, ◌≡◌, refl, some, none, true, false, List, [], ◌∷◌, ◌++◌, arith, length, replicate,
}
use eltex.Messages.{Turn, Output, waiting, overrun}
use eltex.Messages.Arrays.{turns}
use eltex.Messages.UdpTcp.{server_udp, hello}
use eltex.Messages.UdpTcp.Replies.{echoes, server_udp-echoes}
use eltex.Messages.Broadcast.{
  broadcast_server, broadcast_client, multicast_server, multicast_client,
}
use eltex.Messages.Broadcast.Exchange.{datagrams, broadcast_client-broadcast_server}

abbrev zeros : List ℕ
zeros = replicate 256 0

abbrev secret_then_hi : List (List ℕ)
secret_then_hi = (b's' ∷ b'e' ∷ b'c' ∷ b'r' ∷ b'e' ∷ b't' ∷ []) ∷ (b'h' ∷ b'i' ∷ []) ∷ []

server_udp-echoes_example :
    (server_udp zeros (turns secret_then_hi)
      ≡ record { outputs = echoes zeros secret_then_hi; stop = waiting })
    × (server_udp zeros (
          turns secret_then_hi
          ++ record { received = some (replicate 300 1); delivered = true } ∷ [])
        ≡ record { outputs = echoes zeros secret_then_hi; stop = overrun })
server_udp-echoes_example =
    server_udp-echoes zeros secret_then_hi (replicate 300 1) [] refl
      (omega arith, (omega arith, tt)) (omega arith)

-- The second of three datagrams is lost.
abbrev three : List Turn
three =
    record { received = none; delivered = true }
    ∷ record { received = none; delivered = false }
    ∷ record { received = none; delivered = true }
    ∷ []

broadcast_client-broadcast_server_example :
    (out : List Output) × (broadcast_server three ≡ some out)
    × (multicast_server three ≡ some out)
    × (broadcast_client (turns (datagrams out)) ≡ some (replicate (length (datagrams out)) hello))
    × (multicast_client (turns (datagrams out)) ≡ some (replicate (length (datagrams out)) hello))
broadcast_client-broadcast_server_example = broadcast_client-broadcast_server three
