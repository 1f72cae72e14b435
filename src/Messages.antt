-- ===== src/Messages.antt =====
-- What udp_tcp_client_server/main.c, sctp/main.c, raw_socket/main.c and broadcast_multicast/main.c do
-- with a message: all of them keep one array of 256 bytes, receive into it and print it as a string.
-- A turn says what the kernel answers to the calls of one pass of a loop; a list of turns is how far
-- the loop is followed, and `waiting` is its state behind the last of them.
-- The sockets before the loops are in Setup. Not modelled: sleep.
pub mod Arrays
pub mod UdpTcp
pub mod Sctp
pub mod Broadcast
use eltex.Base.{
  ℕ, ◌+◌, Bool, Option, none, some, List, [], ◌∷◌, ◌++◌, ltb, if◌then◌else◌, length, take, drop,
  set, min,
}

-- UDP_MSG_SIZE, TCP_MSG_SIZE and BUF_SIZE.
abbrev pub msg_size : ℕ
msg_size = 256

-- What recv gives, `none` a failure, and whether a send succeeds.
pub record Turn : Type 0 where
  pub received : Option (List ℕ)
  pub delivered : Bool

pub data Output : Type 0 where
  printed passed : List ℕ → Output

-- Why a program goes no further: the turns are over, it left by die, it left its loop, or it wrote
-- past the end of the array.
pub data Stop : Type 0 where
  waiting died closed overrun : Stop

pub record Run : Type 0 where
  pub outputs : List Output
  pub stop : Stop

abbrev pub stopped : Stop → Run
stopped why = record { outputs = []; stop = why }

abbrev pub after : Output → Run → Run
after o r = record { outputs = o ∷ r.outputs; stop = r.stop }

-- recv of at most 256 bytes: what it returns, and the array with the bytes in it.
abbrev pub nread : List ℕ → ℕ
nread msg = min (length msg) msg_size

abbrev pub fill : List ℕ → List ℕ → List ℕ
fill buf msg = take (nread msg) msg ++ drop (nread msg) buf

-- `buf[nread] = '\0'`; `none` is a write behind the array.
unfoldable pub terminate : List ℕ → List ℕ → Option (List ℕ)
terminate buf msg =
    if ltb (nread msg) msg_size then some (set (fill buf msg) (nread msg) 0) else none

-- strcpy of a string to the front of an array.
abbrev pub strcpy : List ℕ → List ℕ → List ℕ
strcpy buf source = source ++ 0 ∷ drop (length source + 1) buf
