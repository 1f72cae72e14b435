-- ===== src/UdpServer/Accounts.antt =====
-- Where the datagrams that udp_client_server/main.c has received are.
use eltex.Base.{
  ℕ, ◌+◌, ◌≡◌, refl, false, some, List, [], ◌∷◌, ◌++◌, arith, ◌==◌, if◌then◌else◌, All,
}
use eltex.UdpServer.Runs.{IsRegular, run-keeps}
use eltex.UdpServer.{
  Msg, State, state_recv, state_response_handler, Worker, testing, receiving, exited, answering,
  Server, Which, one, two, Event, boot, timeout, failure, send, send_failure, hand_over, signal,
  datagram, work, interrupt, start, step, run, on_recv, on_send, on_response, worker_step,
  worker_of,
}

-- How many messages of a list have an address.
unfoldable pub count : ℕ → List Msg → ℕ
count a [] = 0
count a (m ∷ ms) = (if m.addr == a then 1 else 0) + count a ms

abbrev pub held : ℕ → Worker → ℕ
held a (answering m) = if m.addr == a then 1 else 0
held a _ = 0

-- The request that the server has received and not yet handed over.
abbrev pub in_hand : ℕ → State → Msg → ℕ
in_hand a state_response_handler m = if m.addr == a then 1 else 0
in_hand a _ m = 0

-- Where the datagrams of one address are.
abbrev pub whereabouts : ℕ → Server → ℕ
whereabouts a s =
    in_hand a s.state s.req
    + count a s.requests
    + held a s.first
    + held a s.second
    + count a s.answers
    + count a s.replied
    + count a s.dropped

count-append : (a : ℕ) (xs ys : List Msg) → count a (xs ++ ys) ≡ count a xs + count a ys
unfolding count
count-append a [] ys = omega arith
count-append a (x ∷ xs) ys = omega (arith, count-append a xs ys)

module _ (a capacity : ℕ) (s t : Server) (balanced : whereabouts a s ≡ count a s.received)
    (unstarted : s.booted ≡ false → s.state ≡ state_recv) where
  -- A worker's step, by where it stands.
  work-balanced :
      (i : Which) (text : List ℕ) (w : Worker)
      → worker_of i s ≡ w
      → worker_step capacity i text w s ≡ some t
      → whereabouts a t ≡ count a t.received
  unfolding worker_step count
  work-balanced one text testing e h = ground arith
  work-balanced one text receiving e h = ground arith
  work-balanced one text exited e h = cc
  work-balanced one text (answering m) e h = ground (arith, count-append a s.answers (m ∷ []))
  work-balanced two text testing e h = ground arith
  work-balanced two text receiving e h = ground arith
  work-balanced two text exited e h = cc
  work-balanced two text (answering m) e h = ground (arith, count-append a s.answers (m ∷ []))

  step-balanced :
      (e : Event) → IsRegular e → step capacity s e ≡ some t → whereabouts a t ≡ count a t.received
  unfolding step on_recv on_send on_response count
  step-balanced boot r h = ground arith
  step-balanced timeout r h = ground arith
  step-balanced failure r h = ground arith
  step-balanced send r h = ground arith
  step-balanced send_failure r h = absurd r
  step-balanced hand_over r h = ground (arith, count-append a s.requests (s.req ∷ []))
  step-balanced signal r h = ground arith
  step-balanced (datagram m) r h = ground arith
  step-balanced (work i text) r h = work-balanced i text (worker_of i s) refl h
  step-balanced (interrupt i m) r h = absurd r

  step-unstarted :
      (e : Event)
      → IsRegular e
      → step capacity s e ≡ some t
      → t.booted ≡ false
      → t.state ≡ state_recv
  unfolding step on_recv on_send on_response worker_step
  step-unstarted boot r h b = ground arith
  step-unstarted timeout r h b = ground arith
  step-unstarted failure r h b = ground arith
  step-unstarted send r h b = ground arith
  step-unstarted send_failure r h b = absurd r
  step-unstarted hand_over r h b = ground arith
  step-unstarted signal r h b = ground arith
  step-unstarted (datagram m) r h b = ground arith
  step-unstarted (work one text) r h b = ground arith
  step-unstarted (work two text) r h b = ground arith
  step-unstarted (interrupt i m) r h b = absurd r

abbrev IsBalanced : ℕ → Server → Type 0
IsBalanced a s = (whereabouts a s ≡ count a s.received) × (s.booted ≡ false → s.state ≡ state_recv)

-- From the start, in any order of the threads' steps and with queues of any capacity, as long
-- as msgrcv fails only on an empty queue, the datagrams received from an address are, one for one, the one
-- that the server has in hand, those in the two queues, those that the workers answer, the
-- replies sent to the address and the requests dropped at a full queue.
pub run-whereabouts :
    (a capacity : ℕ) (m : Msg) (es : List Event) (t : Server)
    → All IsRegular es
    → run capacity (start m) es ≡ some t
    → whereabouts a t ≡ count a t.received
unfolding start
run-whereabouts a capacity m es t r h =
    (run-keeps (IsBalanced a) capacity
      (λ u v e regular p k. (
        step-balanced a capacity u v p.0 p.1 e regular k,
        step-unstarted a capacity u v p.0 p.1 e regular k,
      ))
      es (start m) t r (unfold count in omega arith, λ b. refl) h).0
