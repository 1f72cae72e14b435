-- ===== src/Messages/Broadcast/Exchange.antt =====
-- The sender of broadcast_multicast/main.c and its receiver.
use eltex.Base.{
  ◌∙◌, ℕ, zero, suc, ◌≡◌, refl, Bool, true, some, List, [], ◌∷◌, arith, length, drop, replicate,
  if◌then◌else◌, Bool-cases, inl, inr,
}
use eltex.Cstring.{strlen}
use eltex.Messages.{Turn, Output, printed, passed, fill, msg_size}
use eltex.Messages.Arrays.{turns}
use eltex.Messages.UdpTcp.{hello}
use eltex.Messages.Broadcast.{
  show, broadcast_buf, server, client, broadcast_server, broadcast_client, multicast_server,
  multicast_client,
}

-- The datagrams among the outputs.
unfoldable pub datagrams : List Output → List (List ℕ)
datagrams [] = []
datagrams (printed line ∷ os) = datagrams os
datagrams (passed bytes ∷ os) = bytes ∷ datagrams os

drop_all : (n : ℕ) (xs : List ℕ) → length xs ≡ n → drop n xs ≡ []
drop_all zero [] e = refl
drop_all zero (x ∷ xs) e = absurd (omega arith)
drop_all (suc n) [] e = refl
drop_all (suc n) (x ∷ xs) e = drop_all n xs (omega arith)

fill-broadcast_buf : (buf : List ℕ) → length buf ≡ msg_size → fill buf broadcast_buf ≡ broadcast_buf
unfolding broadcast_buf
fill-broadcast_buf buf full = rw (drop_all msg_size buf full)

show-broadcast_buf : show broadcast_buf ≡ some hello
unfolding show broadcast_buf strlen
show-broadcast_buf = refl

client-datagram :
    (buf : List ℕ) (ts : List Turn) (d : Bool)
    → length buf ≡ msg_size
    → (shown : List (List ℕ)) → client broadcast_buf ts ≡ some shown
    → client buf (record { received = some broadcast_buf; delivered = d } ∷ ts)
      ≡ some (hello ∷ shown)
unfolding client
client-datagram buf ts d full shown e =
    rw (client, fill-broadcast_buf buf full, show-broadcast_buf, e)

length-broadcast_buf : length broadcast_buf ≡ msg_size
unfolding broadcast_buf
length-broadcast_buf = refl

server-nil : server broadcast_buf [] ≡ some []
unfolding server
server-nil = refl

client-nil : (buf : List ℕ) → client buf [] ≡ some []
unfolding client
client-nil buf = refl

server-turn :
    (t : Turn) (ts : List Turn) (out : List Output)
    → server broadcast_buf ts ≡ some out
    → server broadcast_buf (t ∷ ts)
      ≡ some
          (if t.delivered then passed broadcast_buf ∷ printed hello ∷ out else printed hello ∷ out)
unfolding server
server-turn t ts out e = rw (server, show-broadcast_buf, e)

client-server :
    (ts : List Turn) (buf : List ℕ)
    → length buf ≡ msg_size
    → (out : List Output) × (server broadcast_buf ts ≡ some out)
      × (client buf (turns (datagrams out)) ≡ some (replicate (length (datagrams out)) hello))
unfolding datagrams turns
client-server [] buf full = ([], server-nil, client-nil buf)
client-server (t ∷ ts) buf full = elim (Bool-cases t.delivered) [
  | inr lost ↦
      let (out, sends, shows) = client-server ts buf full in
      (printed hello ∷ out, server-turn t ts out sends ∙ rw lost, shows)
  | inl kept ↦
      let (out, sends, shows) = client-server ts broadcast_buf length-broadcast_buf in
      (
        passed broadcast_buf ∷ printed hello ∷ out,
        server-turn t ts out sends ∙ rw kept,
        client-datagram buf (turns (datagrams out)) true full _ shows,
      )
]

-- Whichever datagrams are lost, a receiver prints "hello world!" for each of those that arrive, of
-- broadcast_client from broadcast_server and of multicast_client from multicast_server, and none of
-- the four reads past its array.
pub broadcast_client-broadcast_server :
    (ts : List Turn)
    → (out : List Output) × (broadcast_server ts ≡ some out)
      × (multicast_server ts ≡ some out)
      × (broadcast_client (turns (datagrams out)) ≡ some (replicate (length (datagrams out)) hello))
      × (multicast_client (turns (datagrams out)) ≡ some (replicate (length (datagrams out)) hello))
unfolding broadcast_server broadcast_client multicast_server multicast_client
broadcast_client-broadcast_server ts =
    let (out, sent, shown) = client-server ts (replicate msg_size 0) refl in
    let (out', sent', shown') = client-server ts broadcast_buf length-broadcast_buf in
    let same : out' ≡ out = cc in (out, sent, sent, shown, rw same at shown')
