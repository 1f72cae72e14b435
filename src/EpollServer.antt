-- ===== src/EpollServer.antt =====
-- select_poll_epoll/main.c as it is built for epoll: one round over the events that epoll_wait gives.
-- The state is the interest set that the kernel keeps for the program; epoll_ctl refuses the -1 of an
-- accept that failed, and the program does not look.
-- Not modelled: MAX_EVENTS, which only bounds how many events one round can be given, and printing.
pub mod Agreement
use eltex.Base.{ℕ, Bool, true, false, Option, none, some, List, [], ◌∷◌, ◌==◌, if◌then◌else◌}
use eltex.Base.Int.{ℤ, pos, eqb_ℤ}
use eltex.SelectServer.{Answers}

-- EPOLL_CTL_ADD and EPOLL_CTL_DEL.
abbrev pub ctl_add : Option ℕ → (ℕ → Bool) → ℕ → Bool
ctl_add none set = set
ctl_add (some fd) set = λ j. if j == fd then true else set j

abbrev pub ctl_del : ℕ → (ℕ → Bool) → ℕ → Bool
ctl_del fd set = λ j. if j == fd then false else set j

-- Both sockets watched; the UDP socket is added first.
unfoldable pub epoll_start : ℕ → ℕ → ℕ → Bool
epoll_start tcpsock udpsock = ctl_add (some tcpsock) (ctl_add (some udpsock) (λ j. false))

unfoldable pub epoll_serve : Answers → ℕ → ℕ → ℕ → (ℕ → Bool) → ℕ → Bool
epoll_serve k tcpsock udpsock fd set =
    if fd == udpsock
    then set
    else if fd == tcpsock
    then ctl_add k.accept set
    else if eqb_ℤ (k.recv fd) (pos 0)
    then ctl_del fd set
    else set

-- `for (i = 0; i < ret; ++i)` over the descriptors of the events.
unfoldable pub epoll_round : Answers → ℕ → ℕ → List ℕ → (ℕ → Bool) → ℕ → Bool
epoll_round k tcpsock udpsock [] set = set
epoll_round k tcpsock udpsock (fd ∷ fds) set =
    epoll_round k tcpsock udpsock fds (epoll_serve k tcpsock udpsock fd set)
