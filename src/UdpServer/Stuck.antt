-- ===== src/UdpServer/Stuck.antt =====
-- Two orders of the threads of udp_client_server/main.c: workers that run before `running` is set,
-- and a worker in msgrcv when the loop was left.
use eltex.Base.{ℕ, ◌≡◌, refl, true, false, some, List, [], ◌∷◌, arith, All}
use eltex.UdpServer.Runs.{IsRegular, run-keeps}
use eltex.UdpServer.{
  Msg, state_recv, receiving, exited, Server, one, two, Event, boot, timeout, failure, send,
  send_failure, hand_over, signal, datagram, work, interrupt, start, step, run, on_recv, on_send,
  on_response, worker_step,
}

-- Both workers are gone and nobody was answered.
abbrev pub IsDeserted : Server → Type 0
IsDeserted s = (s.first ≡ exited) × (s.second ≡ exited) × (s.answers ≡ []) × (s.replied ≡ [])

step-IsDeserted :
    (capacity : ℕ) (s t : Server) (e : Event)
    → IsRegular e
    → IsDeserted s
    → step capacity s e ≡ some t
    → IsDeserted t
unfolding step on_recv on_send on_response worker_step
step-IsDeserted capacity s t boot r d h = ground arith
step-IsDeserted capacity s t timeout r d h = ground arith
step-IsDeserted capacity s t failure r d h = ground arith
step-IsDeserted capacity s t send r d h = ground arith
step-IsDeserted capacity s t send_failure r d h = absurd r
step-IsDeserted capacity s t hand_over r d h = ground arith
step-IsDeserted capacity s t signal r d h = ground arith
step-IsDeserted capacity s t (datagram m) r d h = ground arith
step-IsDeserted capacity s t (work one text) r d h = ground arith
step-IsDeserted capacity s t (work two text) r d h = ground arith
step-IsDeserted capacity s t (interrupt i m) r d h = absurd r

-- Where both workers run before the server's thread sets `running`, they end at once, and as long as
-- no msgrcv fails for another reason than an empty queue and no handled signal wakes a worker in
-- it, the server answers no datagram, in whatever order the rest happens.
pub run-deserted :
    (capacity : ℕ) (m : Msg) (a b : List ℕ) (es : List Event) (t : Server)
    → All IsRegular es
    → run capacity (start m) (work one a ∷ work two b ∷ boot ∷ es) ≡ some t
    → t.replied ≡ []
unfolding run step worker_step start
run-deserted capacity m a b es t r h =
    (run-keeps IsDeserted capacity (step-IsDeserted capacity) es
      (record (start m) {
        first = exited;
        second = exited;
        booted = true;
        running = true;
        state = state_recv;
      })
      t r (refl, refl, refl, refl) h).3

-- The loop was left, no request waits, and the first worker sits in msgrcv.
abbrev pub IsHung : Server → Type 0
IsHung s = (s.booted ≡ true) × (s.running ≡ false) × (s.requests ≡ []) × (s.first ≡ receiving)

step-IsHung :
    (capacity : ℕ) (s t : Server) (e : Event)
    → IsRegular e
    → IsHung s
    → step capacity s e ≡ some t
    → IsHung t
unfolding step on_recv on_send on_response worker_step
step-IsHung capacity s t boot r d h = ground arith
step-IsHung capacity s t timeout r d h = ground arith
step-IsHung capacity s t failure r d h = ground arith
step-IsHung capacity s t send r d h = ground arith
step-IsHung capacity s t send_failure r d h = absurd r
step-IsHung capacity s t hand_over r d h = ground arith
step-IsHung capacity s t signal r d h = ground arith
step-IsHung capacity s t (datagram m) r d h = ground arith
step-IsHung capacity s t (work one text) r d h = ground arith
step-IsHung capacity s t (work two text) r d h = ground arith
step-IsHung capacity s t (interrupt i m) r d h = absurd r

-- Once the server has left its loop with no request queued, a worker that waits in msgrcv waits
-- for ever, so the pthread_join of it never returns, unless a signal is handled by that very thread.
pub run-hung :
    (capacity : ℕ) (es : List Event) (s t : Server)
    → All IsRegular es
    → IsHung s
    → run capacity s es ≡ some t
    → t.first ≡ receiving
run-hung capacity es s t r d h = (run-keeps IsHung capacity (step-IsHung capacity) es s t r d h).3
