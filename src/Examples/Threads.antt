-- ===== src/Examples/Threads.antt =====
-- udp_client_server/main.c: one datagram answered, and a run in which both workers end first.
use eltex.Base.{◌≡◌, refl, some, true, List, [], ◌∷◌}
use eltex.UdpServer.{
  Msg, Server, Event, start, step, run, worker_step, on_recv, on_send, on_response, work, one, two,
  boot, timeout, datagram, hand_over, send, exited, testing, state_recv, state_send,
}
use eltex.UdpServer.Accounts.{whereabouts, count, run-whereabouts}
use eltex.UdpServer.Stuck.{run-deserted}

abbrev blank : Msg
blank = record { addr = 0; buf = [] }

abbrev hello : Msg
hello = record { addr = 7; buf = 1 ∷ [] }

abbrev answered_run : List Event
answered_run =
    boot
    ∷ work one []
    ∷ datagram hello
    ∷ hand_over
    ∷ work one (2 ∷ [])
    ∷ work one []
    ∷ timeout
    ∷ send
    ∷ []

abbrev answered_server : Server
answered_server = record {
  booted = true;
  running = true;
  state = state_recv;
  req = record { addr = 7; buf = 2 ∷ [] };
  requests = [];
  answers = [];
  first = testing;
  second = testing;
  received = hello ∷ [];
  replied = record { addr = 7; buf = 2 ∷ [] } ∷ [];
  dropped = [];
}

answered_run-run : run 10 (start blank) answered_run ≡ some answered_server
unfolding run step worker_step on_recv on_send on_response start
answered_run-run = refl

run-whereabouts_example : whereabouts 7 answered_server ≡ count 7 answered_server.received
run-whereabouts_example =
    run-whereabouts 7 10 blank answered_run answered_server
      (tt, (tt, (tt, (tt, (tt, (tt, (tt, (tt, tt)))))))) answered_run-run

abbrev deserted_server : Server
deserted_server = record (start blank) {
  booted = true;
  running = true;
  first = exited;
  second = exited;
  state = state_send;
}

deserted_run :
    run 10 (start blank) (work one [] ∷ work two [] ∷ boot ∷ timeout ∷ []) ≡ some deserted_server
unfolding run step worker_step on_recv start
deserted_run = refl

run-deserted_example : deserted_server.replied ≡ []
run-deserted_example =
    run-deserted 10 blank [] [] (timeout ∷ []) deserted_server (tt, tt) deserted_run
