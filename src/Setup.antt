-- ===== src/Setup.antt =====
-- What the programs on sockets do before their loops: calls of the kernel, each of which can fail.
-- A set-up runs over the answers that the kernel gives, one for each call, and keeps a list of the
-- calls that it made with their answers. `waiting` is one that has no answer yet.
-- The helpers are those of broadcast_multicast/main.c, of which sctp/main.c has copies.
-- Not modelled: bzero, and what `die` prints.
pub mod Checked
pub mod Groups
pub mod Streams
pub mod Failures
pub mod Meeting
use eltex.Base.{ℕ, ◌+◌, ◌*◌, ◌/◌, ◌%◌, Bool, true, false, List, [], ◌∷◌, ◌++◌, if◌then◌else◌}
use eltex.Base.{htons, u32}
use eltex.Base.Int.{ℤ, pos, negsuc}

-- struct sockaddr_in: the two words in network order, as the host reads them.
pub record Address : Type 0 where
  pub sin_port : ℕ
  pub sin_addr : ℕ

-- Of setsockopt the word that stands where its pointer points.
pub data Call : Type 0 where
  socket : (type protocol : ℕ) → Call
  bind : ℤ → Address → Call
  setsockopt : ℤ → (level name value : ℕ) → Call
  listen : ℤ → ℕ → Call
  accept : ℤ → Call
  connect : ℤ → Address → Call

pub data Outcome (A : Type 0) : Type 0 where
  ready : A → Outcome A
  died waiting : Outcome A

pub record Ran (A : Type 0) : Type 0 where
  pub calls : List (Call × ℤ)
  pub outcome : Outcome A
  pub rest : List ℤ

abbrev pub Setup : Type 0 → Type 0
Setup A = List ℤ → Ran A

-- What follows a call that succeeded so far; nothing follows die.
abbrev pub go_on : {A B : Type 0} → Outcome A → List (Call × ℤ) → List ℤ → (A → Setup B) → Ran B
go_on (ready a) calls rest f = record (f a rest) { calls = calls ++ (f a rest).calls }
go_on died calls rest f = record { calls = calls; outcome = died; rest = rest }
go_on waiting calls rest f = record { calls = calls; outcome = waiting; rest = rest }

infixl 5 ◌>>=◌
abbrev pub ◌>>=◌ : {A B : Type 0} → Setup A → (A → Setup B) → Setup B
(m >>= f) answers = go_on (m answers).outcome (m answers).calls (m answers).rest f

abbrev pub pure : {A : Type 0} → A → Setup A
pure a answers = record { calls = []; outcome = ready a; rest = answers }

abbrev pub ask : Call → Setup ℤ
ask c [] = record { calls = []; outcome = waiting; rest = [] }
ask c (a ∷ answers) = record { calls = (c, a) ∷ []; outcome = ready a; rest = answers }

abbrev pub is_negative : ℤ → Bool
is_negative (pos n) = false
is_negative (negsuc n) = true

abbrev pub die : {A : Type 0} → Setup A
die answers = record { calls = []; outcome = died; rest = answers }

-- `if (... < 0) die(...)`.
abbrev pub checked : Call → Setup ℤ
checked c = ask c >>= λ a. if is_negative a then die else pure a

-- The constants of the sockets: their types, their protocols, and the levels and names of options.
abbrev pub sock_stream : ℕ
sock_stream = 1

abbrev pub sock_dgram : ℕ
sock_dgram = 2

abbrev pub ipproto_ip : ℕ
ipproto_ip = 0

abbrev pub ipproto_sctp : ℕ
ipproto_sctp = 132

abbrev pub sol_socket : ℕ
sol_socket = 1

abbrev pub so_reuseaddr : ℕ
so_reuseaddr = 2

abbrev pub so_broadcast : ℕ
so_broadcast = 6

abbrev pub ip_add_membership : ℕ
ip_add_membership = 35

abbrev pub sctp_initmsg : ℕ
sctp_initmsg = 2

-- The four bytes of a 32-bit word change places.
abbrev pub htonl : ℕ → ℕ
htonl x = htons (x % 65536) * 65536 + htons (u32 x / 65536)

unfoldable pub socket_create : ℕ → ℕ → Setup ℤ
socket_create type protocol = checked (socket type protocol)

unfoldable pub socket_bind : ℤ → Address → Setup ℤ
socket_bind sock addr = checked (bind sock addr)

abbrev pub socket_addrl : ℕ → ℕ → Address
socket_addrl address port = record { sin_port = htons port; sin_addr = htonl address }

-- inet_addr gives the word in network order.
abbrev pub socket_addrc : (List ℕ → ℕ) → List ℕ → ℕ → Address
socket_addrc inet_addr address port = record { sin_port = htons port; sin_addr = inet_addr address }

-- It passes `&optval`, where its parameter stands: the word there is the pointer that it was given.
unfoldable pub socket_setsockopt : ℤ → ℕ → ℕ → ℕ → Setup ℤ
socket_setsockopt sock level name optval = checked (setsockopt sock level name (u32 optval))

unfoldable pub socket_accept : ℤ → Setup ℤ
socket_accept sock = checked (accept sock)

unfoldable pub socket_listen : ℤ → Setup ℤ
socket_listen sock = checked (listen sock 5)
