-- ===== src/Echo.antt =====
-- ping/main.c and traceroute/main.c: the echo request that both send, and the loop that waits for
-- what comes back. An answer is what one round of the inner loop meets: setsockopt or select fails,
-- select times out, or a packet is there, whose type, identifier (through ntohs) and sender count.
-- The command lines are in Options. Not modelled: the socket, sleep, the times printed. `int`
-- counters do not wrap.
pub mod Request
pub mod Counts
pub mod Lines
use eltex.Base.{
  ◌>>=◌, ℕ, suc, ◌+◌, ◌/◌, ◌%◌, Bool, true, false, not, Option, none, some, List, [], ◌∷◌, ◌==◌,
  ltb, if◌then◌else◌, length,
}
use eltex.Checksum.{checksum_long}

pub record Icmp : Type 0 where
  pub type : ℕ
  pub id : ℕ
  pub saddr : ℕ

pub data Answer : Type 0 where
  failure timeout : Answer
  packet : Icmp → Answer

-- packet_send from its third byte on: the checksum, then the identifier and the sequence number
-- in network order, of whose values htons keeps 16 bits. The payload is never initialised.
abbrev pub identified : ℕ → ℕ → List ℕ → List ℕ
identified pid seq payload = pid / 256 % 256 ∷ pid % 256 ∷ seq / 256 % 256 ∷ seq % 256 ∷ payload

-- The request with its checksum, stored in memory order.
unfoldable pub request : ℕ → ℕ → List ℕ → Option (List ℕ)
request pid seq payload =
    let blank = 8 ∷ 0 ∷ 0 ∷ 0 ∷ identified pid seq payload in
    checksum_long blank (length blank) >>= λ c.
    some (8 ∷ 0 ∷ c % 256 ∷ c / 256 ∷ identified pid seq payload)

-- The two globals of ping, and whether it has exited.
pub record Ping : Type 0 where
  pub seq : ℕ
  pub total : ℕ
  pub exited : Bool

-- After the first request.
unfoldable pub ping_start : Ping
ping_start = record { seq = 1; total = 0; exited = false }

-- `none` is a step of a program that has exited; a `break` of the inner loop sends the next request.
unfoldable pub ping_step : ℕ → Ping → Answer → Option Ping
ping_step pid s failure = if s.exited then none else some (record s { exited = true })
ping_step pid s timeout = if s.exited then none else some (record s { seq = s.seq + 1 })
ping_step pid s (packet p) =
    if s.exited
    then none
    else if not (p.type == 0)
    then some s
    else if not (p.id == pid)
    then some s
    else some (record s { total = s.total + 1; seq = s.seq + 1 })

-- A line that traceroute prints: of a router, of a request without answer, of the target.
pub data Line : Type 0 where
  hop target : ℕ → ℕ → Line
  lost : Line

-- The time to live in use, and the lines printed, newest first.
pub record Trace : Type 0 where
  pub i : ℕ
  pub lines : List Line
  pub ended : Bool

unfoldable pub trace_start : ℕ → Trace
trace_start ttl = record { i = 1; lines = []; ended = not (ltb 1 ttl) }

-- The line printed and `break`, then `++i` and the test of the outer loop.
abbrev pub advance : ℕ → Line → Trace → Trace
advance ttl line s = record s {
  i = s.i + 1;
  lines = line ∷ s.lines;
  ended = not (ltb (s.i + 1) ttl);
}

unfoldable pub trace_step : ℕ → ℕ → Trace → Answer → Option Trace
trace_step ttl pid s failure = if s.ended then none else some (record s { ended = true })
trace_step ttl pid s timeout = if s.ended then none else some (advance ttl lost s)
trace_step ttl pid s (packet p) =
    if s.ended
    then none
    else if p.type == 11
    then some (advance ttl (hop s.i p.saddr) s)
    else if not (p.type == 0)
    then some s
    else if not (p.id == pid)
    then some s
    else some (record s { lines = target s.i p.saddr ∷ s.lines; ended = true })

-- The answers met one after another.
unfoldable pub run {ℓ} : {S : Type ℓ} → (S → Answer → Option S) → S → List Answer → Option S
run step s [] = some s
run step s (a ∷ answers) = elim (step s a) [ none ↦ none | some t ↦ run step t answers ]
