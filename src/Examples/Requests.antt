-- ===== src/Examples/Requests.antt =====
-- ping/main.c and traceroute/main.c: one request, and what comes back to it.
use eltex.Base.{
  ℕ, suc, ◌≡◌, ◌<◌, ◌≤◌, ◌+◌, ◌-◌, ◌/◌, ◌%◌, refl, false, true, some, List, [], ◌∷◌, arith, length,
  replicate, ltb, if◌then◌else◌,
}
use eltex.Checksum.{checksum_long}
use eltex.Echo.{
  Answer, timeout, packet, identified, request, Ping, ping_start, ping_step, Trace, hop, lost,
  target, trace_start, trace_step, run,
}
use eltex.Echo.Request.{request_verifies}
use eltex.Echo.Counts.{timeouts, replies, ping-accounts}
use eltex.Echo.Lines.{Numbered, trace-Numbered}

abbrev payload : List ℕ
payload = 1 ∷ 2 ∷ replicate 46 0

request_verifies_example :
    (c : ℕ) × (c < 65536)
    × (request 4711 3 payload ≡ some (8 ∷ 0 ∷ c % 256 ∷ c / 256 ∷ identified 4711 3 payload))
    × (checksum_long (8 ∷ 0 ∷ c % 256 ∷ c / 256 ∷ identified 4711 3 payload) 56 ≡ some 0)
request_verifies_example = request_verifies 4711 3 payload (omega arith) refl

-- A reply to another process, one of the low 16 bits of 70000, a time-out, and one's own.
abbrev met : List Answer
met =
    packet (record { type = 0; id = 5; saddr = 1 })
    ∷ packet (record { type = 0; id = 4464; saddr = 1 })
    ∷ timeout
    ∷ packet (record { type = 0; id = 4711; saddr = 1 })
    ∷ []

abbrev counted : Ping
counted = record { seq = 3; total = 1; exited = false }

counted-run : run (ping_step 4711) ping_start met ≡ some counted
unfolding run ping_step ping_start
counted-run = refl

ping-accounts_example :
    (counted.total ≡ (if ltb 4711 65536 then replies 4711 met else 0))
    × (counted.seq ≡ suc (counted.total + timeouts met))
ping-accounts_example =
    ping-accounts 4711 met counted (omega arith, (omega arith, (tt, (omega arith, tt)))) counted-run

-- With the number 70000 the reply to its own requests is not counted.
deaf-run :
    run (ping_step 70000) ping_start met ≡ some (record { seq = 2; total = 0; exited = false })
unfolding run ping_step ping_start
deaf-run = refl

-- A router, silence, and the target.
abbrev route : List Answer
route =
    packet (record { type = 11; id = 0; saddr = 1 })
    ∷ timeout
    ∷ packet (record { type = 0; id = 4711; saddr = 3 })
    ∷ []

abbrev traced : Trace
traced = record { i = 3; lines = target 3 3 ∷ lost ∷ hop 1 1 ∷ []; ended = true }

traced-run : run (trace_step 5 4711) (trace_start 5) route ≡ some traced
unfolding run trace_step trace_start
traced-run = refl

trace-Numbered_example : Numbered traced.lines × (length traced.lines ≤ 5 - 1)
trace-Numbered_example = trace-Numbered 5 4711 route traced traced-run
