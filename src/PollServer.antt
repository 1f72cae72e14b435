-- ===== src/PollServer.antt =====
-- select_poll_epoll/main.c as it is built for poll or ppoll: the array of pollfd entries and one round
-- of the loop over it. `none` is an access past the 1024 entries, or a loop whose end the fuel does
-- not reach; the descriptor `none` is the -1 of an accept that failed, or of a closed entry.
-- Not modelled: a poll that fails, and what is printed.
pub mod Entries
pub mod Rounds
use eltex.Base.{
  ◌>>=◌, ℕ, zero, suc, ◌+◌, ◌-◌, Bool, true, false, not, Option, none, some, ltb, ◌==◌,
  if◌then◌else◌,
}
use eltex.Base.Int.{ℤ, pos, negsuc, eqb_ℤ}
use eltex.SelectServer.{Answers}

-- POLL_MAX.
abbrev pub poll_max : ℕ
poll_max = 1024

-- struct pollfd, where `events` and `revents` say whether POLLIN is among them.
pub record PollFd : Type 0 where
  pub fd : Option ℕ
  pub events : Bool
  pub revents : Bool

pub record Table : Type 0 where
  pub pfds : ℕ → PollFd
  pub nfds : ℕ

abbrev pub is_fd : Option ℕ → ℕ → Bool
is_fd none sock = false
is_fd (some fd) sock = fd == sock

-- An assignment to an entry.
abbrev pub put : ℕ → PollFd → (ℕ → PollFd) → ℕ → PollFd
put i e pfds = λ j. if j == i then e else pfds j

abbrev pub listen : Option ℕ → PollFd → PollFd
listen sock e = record e { fd = sock; events = true }

-- The two sockets, in an array of which nothing was written.
unfoldable pub start : ℕ → ℕ → (ℕ → PollFd) → Table
start tcpsock udpsock pfds = record {
  pfds = put 1 (listen (some udpsock) (pfds 1)) (put 0 (listen (some tcpsock) (pfds 0)) pfds);
  nfds = 2;
}

-- poll: an entry of a negative descriptor is not ready.
abbrev pub is_ready : Answers → PollFd → Bool
is_ready k e = elim e.fd [ none ↦ false | some fd ↦ if e.events then k.tset fd else false ]

unfoldable pub poll : Answers → Table → Table
poll k s = record s {
  pfds =
      λ j. if ltb j s.nfds then record (s.pfds j) { revents = is_ready k (s.pfds j) } else s.pfds j;
}

-- recv of -1 fails.
abbrev pub recv : Answers → Option ℕ → ℤ
recv k none = negsuc 0
recv k (some fd) = k.recv fd

-- `for (s = i; s < nfds; ++s) pfds[s] = pfds[s + 1];`, `n` steps of it.
unfoldable pub shift : ℕ → ℕ → (ℕ → PollFd) → Option (ℕ → PollFd)
shift zero s pfds = some pfds
shift (suc n) s pfds = elim (ltb (s + 1) poll_max) [
  | true ↦ shift n (s + 1) (put s (pfds (s + 1)) pfds)
  | false ↦ none
]

unfoldable pub close : ℕ → Table → Option Table
close i s =
    (shift (s.nfds - i) i (put i (record (s.pfds i) { fd = none; events = false }) s.pfds)
      >>= λ moved. some (record { pfds = moved; nfds = s.nfds - 1 }))

-- The entry of a new connection keeps the `revents` that it had.
unfoldable pub connect : Option ℕ → Table → Option Table
connect sock s =
    if ltb s.nfds poll_max
    then some (record { pfds = put s.nfds (listen sock (s.pfds s.nfds)) s.pfds; nfds = s.nfds + 1 })
    else none

-- The body of the loop for one entry.
unfoldable pub serve : Answers → ℕ → ℕ → ℕ → Table → Option Table
serve k tcpsock udpsock i s =
    let fd = (s.pfds i).fd in
    if not (s.pfds i).revents
    then some s
    else if is_fd fd tcpsock
    then connect k.accept s
    else if is_fd fd udpsock
    then some s
    else if eqb_ℤ (recv k fd) (pos 0)
    then close i s
    else some s

-- `for (i = 0; i < nfds; ++i)`, where `nfds` changes on the way.
unfoldable pub serve_from : Answers → ℕ → ℕ → ℕ → ℕ → Table → Option Table
serve_from k tcpsock udpsock zero i s = none
serve_from k tcpsock udpsock (suc fuel) i s = elim (ltb i s.nfds) [
  | false ↦ some s
  | true ↦ elim (if ltb i poll_max then serve k tcpsock udpsock i s else none) [
    | none ↦ none
    | some t ↦ serve_from k tcpsock udpsock fuel (i + 1) t
  ]
]

-- One pass of `while (running)`.
unfoldable pub round : Answers → ℕ → ℕ → Table → Option Table
round k tcpsock udpsock s = serve_from k tcpsock udpsock (poll_max + 1) 0 (poll k s)
