-- ===== src/UdpServer.antt =====
-- udp_client_server/main.c: the server, one thread that runs a state machine over a datagram socket
-- and two message queues, and two workers that answer what the first queue holds.
-- A step is one round of the server's loop, or of a worker up to where it can block; the events say
-- what the kernel answers. `none` is a step that cannot be taken, as of a thread that waits.
-- Not modelled: the calls before the loop but the creation of the workers, what is printed
-- and that a queue counts bytes: all messages have one size, so a queue holds `capacity`.
pub mod Accounts
pub mod Client
pub mod Runs
pub mod Stuck
use eltex.Base.{
  ℕ, Bool, true, false, ◌&&◌, Option, none, some, List, [], ◌∷◌, ◌++◌, ltb, if◌then◌else◌, length,
}

-- msgbuf; its type is 1 wherever a queue holds it.
pub record Msg : Type 0 where
  pub addr : ℕ
  pub buf : List ℕ

pub data State : Type 0 where
  state_recv state_send state_response_handler : State

-- Where a worker stands: at the test of `running`, in msgrcv, before msgsnd, or gone.
pub data Worker : Type 0 where
  testing receiving exited : Worker
  answering : Msg → Worker

-- `received`, `replied` and `dropped` keep what passed, newest first; the code does not store them.
pub record Server : Type 0 where
  pub booted : Bool
  pub running : Bool
  pub state : State
  pub req : Msg
  pub requests : List Msg
  pub answers : List Msg
  pub first : Worker
  pub second : Worker
  pub received : List Msg
  pub replied : List Msg
  pub dropped : List Msg

pub data Which : Type 0 where
  one two : Which

-- recvfrom times out, fails or gives a datagram; in STATE_SEND msgrcv takes an answer if there
-- is one, or fails for another reason; a worker's round carries the text that ctime gave; a signal
-- is handled by the server's thread, or by a worker that it wakes out of msgrcv with what its buffer holds.
pub data Event : Type 0 where
  boot timeout failure send send_failure hand_over signal : Event
  datagram : Msg → Event
  work : Which → List ℕ → Event
  interrupt : Which → Msg → Event

-- Before the workers were created; `running` is a global, so it is false.
unfoldable pub start : Msg → Server
start m = record {
  booted = false;
  running = false;
  state = state_recv;
  req = m;
  requests = [];
  answers = [];
  first = testing;
  second = testing;
  received = [];
  replied = [];
  dropped = [];
}

-- The round of `while (running)` when the state is the one that an event answers.
abbrev pub in_loop : Server → Bool
in_loop s = s.booted && s.running

unfoldable pub on_recv : Event → State → Server → Option Server
on_recv timeout state_recv s = some (record s { state = state_send })
on_recv failure state_recv s = some (record s { running = false })
on_recv (datagram m) state_recv s =
    some (record s { req = m; state = state_response_handler; received = m ∷ s.received })
on_recv _ _ s = none

-- sendto, and back to STATE_RECV.
abbrev pub reply : Msg → Server → Server
reply m s = record s { req = m; state = state_recv; replied = m ∷ s.replied }

unfoldable pub on_send : Event → State → Server → Option Server
on_send send state_send s = elim s.answers [
  | [] ↦ some (record s { state = state_recv })
  | m ∷ rest ↦ some (reply m (record s { answers = rest }))
]
on_send send_failure state_send s = some (reply s.req s)
on_send _ _ s = none

-- msgsnd with IPC_NOWAIT, whose result nobody reads: a full queue drops the request.
unfoldable pub on_response : ℕ → State → Server → Option Server
on_response capacity state_response_handler s =
    if ltb (length s.requests) capacity
    then some (record s { state = state_recv; requests = s.requests ++ (s.req ∷ []) })
    else some (record s { state = state_recv; dropped = s.req ∷ s.dropped })
on_response capacity _ s = none

abbrev pub worker_of : Which → Server → Worker
worker_of one s = s.first
worker_of two s = s.second

abbrev pub with_worker : Which → Worker → Server → Server
with_worker one w s = record s { first = w }
with_worker two w s = record s { second = w }

-- A worker up to its next call that can block.
unfoldable pub worker_step : ℕ → Which → List ℕ → Worker → Server → Option Server
worker_step capacity i text testing s =
    some (with_worker i (if s.running then receiving else exited) s)
worker_step capacity i text receiving s = elim s.requests [
  | [] ↦ none
  | m ∷ rest ↦
      some (with_worker i (answering (record m { buf = text })) (record s { requests = rest }))
]
worker_step capacity i text (answering m) s =
    if ltb (length s.answers) capacity
    then some (with_worker i testing (record s { answers = s.answers ++ (m ∷ []) }))
    else none
worker_step capacity i text exited s = none

-- A signal wakes msgrcv, which stored nothing; the worker goes on with the message it has.
unfoldable pub woken : Which → Msg → Worker → Server → Option Server
woken i m receiving s = some (with_worker i (answering m) (record s { running = false }))
woken i m _ s = none

unfoldable pub step : ℕ → Server → Event → Option Server
step capacity s boot =
    if s.booted then none else some (record s { booted = true; running = true; state = state_recv })
step capacity s signal = some (record s { running = false })
step capacity s (work i text) = worker_step capacity i text (worker_of i s) s
step capacity s (interrupt i m) = woken i m (worker_of i s) s
step capacity s timeout = if in_loop s then on_recv timeout s.state s else none
step capacity s failure = if in_loop s then on_recv failure s.state s else none
step capacity s (datagram m) = if in_loop s then on_recv (datagram m) s.state s else none
step capacity s send = if in_loop s then on_send send s.state s else none
step capacity s send_failure = if in_loop s then on_send send_failure s.state s else none
step capacity s hand_over = if in_loop s then on_response capacity s.state s else none

-- A run; an event that cannot happen ends it with `none`.
unfoldable pub run : ℕ → Server → List Event → Option Server
run capacity s [] = some s
run capacity s (e ∷ es) = elim (step capacity s e) [ none ↦ none | some t ↦ run capacity t es ]
