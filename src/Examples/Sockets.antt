-- ===== src/Examples/Sockets.antt =====
-- select_poll_epoll/main.c: a round with a new connection and a client that leaves, in each build.
use eltex.Base.{false, ℕ, ◌+◌, ◌≤◌, true, ◌≡◌, refl, some, arith, ◌==◌, ◌||◌, if◌then◌else◌}
use eltex.Base.Int.{pos, eqb_ℤ}
use eltex.SelectServer.{Watch, Answers, serve_from}
use eltex.SelectServer.Rounds.{IsWatch}
use eltex.EpollServer.{epoll_round}
use eltex.EpollServer.Agreement.{ready_from, epoll_round-serve_from}
use eltex.PollServer
use eltex.PollServer.{PollFd, Table, round}
use eltex.PollServer.Entries.{IsTable, HasFd, start-IsTable}
use eltex.PollServer.Rounds.{round-IsTable}

-- Descriptor 4 is the TCP socket, 3 the UDP socket, 5 and 6 are clients.
abbrev watched : Watch
watched = record { rset = λ j. (j == 3 || j == 4) || (j == 5 || j == 6); max = 6 }

watched-IsWatch : IsWatch 4 3 watched
watched-IsWatch = record {
  tcp_watched = refl;
  udp_watched = refl;
  below = λ j there. ground (arith, there);
}

-- The socket and client 5 are ready; 5 closes, and 7 is the new connection.
abbrev answers : Answers
answers = record {
  tset = λ j. j == 4 || j == 5;
  accept = some 7;
  recv = λ j. if j == 5 then pos 0 else pos 9;
}

epoll_round-serve_from_example :
    (t : Watch) × (serve_from answers 4 3 9 0 watched ≡ some t)
    × (epoll_round answers 4 3 (ready_from answers (t.max + 1) 0) watched.rset ≡ t.rset)
epoll_round-serve_from_example =
    epoll_round-serve_from answers 4 3 (λ e. ground (arith, e)) 7 refl (omega arith) 9 watched
      watched-IsWatch (omega arith) (omega arith)

-- Both sockets and nothing else, in an array that holds anything.
abbrev stack : ℕ → PollFd
stack j = record { fd = some j; events = true; revents = true }

round-IsTable_example :
    (t : Table) × (round answers 4 3 (PollServer.start 4 3 stack) ≡ some t)
    × IsTable 4 3 t
    × (t.nfds ≤ (PollServer.start 4 3 stack).nfds + 1)
    × ((c : ℕ)
        → HasFd c (PollServer.start 4 3 stack)
        → eqb_ℤ (answers.recv c) (pos 0) ≡ false
        → HasFd c t)
unfolding PollServer.start
round-IsTable_example =
    round-IsTable 4 3 answers (λ e. ground (arith, e)) (λ e. ground (arith, e))
      (λ e. ground (arith, e)) (PollServer.start 4 3 stack) (start-IsTable 4 3 stack) (omega arith)
