-- ===== src/SelectServer.antt =====
-- select_poll_epoll/main.c as it is built for select or pselect: the set of watched descriptors, and
-- one round of the loop over it. `none` is FD_SET on a descriptor that an fd_set does not have, as of
-- an accept that failed, or a loop whose end the fuel does not reach.
-- The two sockets are created in Setup/Streams. Not modelled: what is printed of the bytes received.
pub mod Rounds
use eltex.Base.{
  ◌>>=◌, ℕ, zero, suc, ◌+◌, Bool, true, false, not, Option, none, some, ltb, ◌==◌, if◌then◌else◌,
}
use eltex.Base.Int.{ℤ, pos, eqb_ℤ}

abbrev pub fd_setsize : ℕ
fd_setsize = 1024

-- rset, by what FD_ISSET says of it, and the greatest descriptor ever in it.
pub record Watch : Type 0 where
  pub rset : ℕ → Bool
  pub max : ℕ

-- What the kernel answers in one round: tset after select, the next connection, and what recv returns
-- of each descriptor.
pub record Answers : Type 0 where
  pub tset : ℕ → Bool
  pub accept : Option ℕ
  pub recv : ℕ → ℤ

abbrev pub set_max : ℕ → Watch → Watch
set_max val s = record s { max = if ltb s.max val then val else s.max }

-- FD_SET and FD_CLR on rset.
unfoldable pub fd_set : ℕ → Watch → Option Watch
fd_set fd s =
    if ltb fd fd_setsize
    then some (record s { rset = λ j. if j == fd then true else s.rset j })
    else none

unfoldable pub fd_clr : ℕ → Watch → Watch
fd_clr fd s = record s { rset = λ j. if j == fd then false else s.rset j }

-- Both sockets watched.
unfoldable pub start : ℕ → ℕ → Option Watch
start tcpsock udpsock = do
  s ←
      fd_set tcpsock
        (record { rset = λ j. false; max = if ltb udpsock tcpsock then tcpsock else udpsock })
  fd_set udpsock s

-- The body of the loop for one descriptor.
unfoldable pub serve : Answers → ℕ → ℕ → ℕ → Watch → Option Watch
serve k tcpsock udpsock i s =
    if not (k.tset i)
    then some s
    else if i == tcpsock
    then (k.accept >>= λ clientSock. fd_set clientSock s >>= λ t. some (set_max clientSock t))
    else if i == udpsock
    then some s
    else if eqb_ℤ (k.recv i) (pos 0)
    then some (fd_clr i s)
    else some s

-- `for (i = 0; i <= max; ++i)`, where a new connection may raise `max` on the way.
unfoldable pub serve_from : Answers → ℕ → ℕ → ℕ → ℕ → Watch → Option Watch
serve_from k tcpsock udpsock zero i s = none
serve_from k tcpsock udpsock (suc fuel) i s = elim (ltb s.max i) [
  | true ↦ some s
  | false ↦ elim (serve k tcpsock udpsock i s) [
    | none ↦ none
    | some t ↦ serve_from k tcpsock udpsock fuel (i + 1) t
  ]
]
