-- ===== src/Messages/Broadcast.antt =====
-- broadcast_multicast/main.c: a sender and a receiver for broadcast and for multicast, over a global
-- array of 256 zeros. What recvfrom and sendto return is not looked at, and no zero is put behind
-- what was received. A run gives `none` where printf reads past the end of the array.
pub mod Exchange
use eltex.Base.{ℕ, Option, none, some, List, [], ◌∷◌, ◌>>=◌, replicate, take, if◌then◌else◌}
use eltex.Cstring.{strlen}
use eltex.Messages.{Turn, Output, printed, passed, fill, strcpy, msg_size}
use eltex.Messages.UdpTcp.{hello}

-- `%s` of an array.
unfoldable pub show : List ℕ → Option (List ℕ)
show buf = do n ← strlen buf; some (take n buf)

unfoldable pub broadcast_buf : List ℕ
broadcast_buf = strcpy (replicate msg_size 0) hello

-- broadcast_server and multicast_server: a datagram is lost where sendto fails, and printed all the same.
unfoldable pub server : List ℕ → List Turn → Option (List Output)
server buf [] = some []
server buf (t ∷ ts) = do
  shown ← show buf
  rest ← server buf ts
  some (if t.delivered then passed buf ∷ printed shown ∷ rest else printed shown ∷ rest)

-- The loops of broadcast_client and multicast_client.
abbrev pub received_into : List ℕ → Option (List ℕ) → List ℕ
received_into buf none = buf
received_into buf (some msg) = fill buf msg

unfoldable pub client : List ℕ → List Turn → Option (List (List ℕ))
client buf [] = some []
client buf (t ∷ ts) = do
  let now = received_into buf t.received
  shown ← show now
  rest ← client now ts
  some (shown ∷ rest)

-- The four programs, from their first string on.
unfoldable pub broadcast_server : List Turn → Option (List Output)
broadcast_server ts = server broadcast_buf ts

unfoldable pub broadcast_client : List Turn → Option (List (List ℕ))
broadcast_client ts = client (replicate msg_size 0) ts

unfoldable pub multicast_server : List Turn → Option (List Output)
multicast_server ts = server broadcast_buf ts

unfoldable pub multicast_client : List Turn → Option (List (List ℕ))
multicast_client ts = client broadcast_buf ts
