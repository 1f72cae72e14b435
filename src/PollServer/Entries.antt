-- ===== src/PollServer/Entries.antt =====
-- The table of the poll build of select_poll_epoll/main.c, and what poll, a connection and a client
-- that leaves make of it.
use eltex.Base.{
  ℕ, zero, suc, ◌+◌, ◌-◌, ◌≤◌, ◌<◌, ◌≡◌, ◌≢◌, refl, true, false, Option, some, none, arith, ltb,
  Bool-cases, inl, inr,
}
use eltex.SelectServer.{Answers}
use eltex.PollServer.{PollFd, Table, poll_max, put, listen, start, poll, shift, close, connect}

-- What `n` steps of the shift from `s` on make of the array.
record Shifted (n s : ℕ) (old new : ℕ → PollFd) : Type 0 where
  before : (j : ℕ) → j < s → new j ≡ old j
  moved : (j : ℕ) → s ≤ j → j < s + n → new j ≡ old (j + 1)

shift-Shifted :
    (n s : ℕ) (old : ℕ → PollFd)
    → s + n < poll_max
    → (new : ℕ → PollFd) × (shift n s old ≡ some new) × Shifted n s old new
unfolding shift
shift-Shifted zero s old room =
    (old, refl, record { before = λ j h. refl; moved = λ j h h'. absurd (omega arith) })
shift-Shifted (suc n) s old room =
    let (new, e, p) = shift-Shifted n (s + 1) (put s (old (s + 1)) old) (omega arith) in
    let inside : ltb (s + 1) poll_max ≡ true = ground arith in
    (
      new,
      rw (shift, inside) e,
      record {
        before = λ j h. ground (arith, p.before j);
        moved = λ j h h'. ground (arith, p.before j, p.moved j);
      },
    )

-- The two sockets stand first, and nothing else in use is one of them.
pub record IsTable (tcpsock udpsock : ℕ) (s : Table) : Type 0 where
  pub listener : (s.pfds 0).fd ≡ some tcpsock
  pub datagrams : (s.pfds 1).fd ≡ some udpsock
  pub clients :
      (j : ℕ) → 2 ≤ j → j < s.nfds → ((s.pfds j).fd ≢ some tcpsock) × ((s.pfds j).fd ≢ some udpsock)
  pub both : 2 ≤ s.nfds

-- A descriptor stands in an entry in use.
pub record HasFd (c : ℕ) (s : Table) : Type 0 where
  pub at : ℕ
  pub used : at < s.nfds
  pub there : (s.pfds at).fd ≡ some c

pub poll-HasFd : (k : Answers) (s : Table) (c : ℕ) → HasFd c s → HasFd c (poll k s)
unfolding poll
poll-HasFd k s c h = record { at = h.at; used = h.used; there = ground (arith, h.there) }

module _ (tcpsock udpsock : ℕ) where
  pub poll-IsTable :
      (k : Answers) (s : Table) → IsTable tcpsock udpsock s → IsTable tcpsock udpsock (poll k s)
  unfolding poll
  poll-IsTable k s v = record {
    listener = ground (arith, v.listener);
    datagrams = ground (arith, v.datagrams);
    clients = λ j h h'. ground (arith, v.clients j h h');
    both = v.both;
  }

  pub connect-IsTable :
      (sock : Option ℕ) (s : Table)
      → IsTable tcpsock udpsock s
      → sock ≢ some tcpsock
      → sock ≢ some udpsock
      → s.nfds < poll_max
      → (t : Table) × (connect sock s ≡ some t)
        × IsTable tcpsock udpsock t
        × (t.nfds ≡ s.nfds + 1)
        × ((c : ℕ) → HasFd c s → HasFd c t)
  unfolding connect
  connect-IsTable sock s v other other' room = (
    record { pfds = put s.nfds (listen sock (s.pfds s.nfds)) s.pfds; nfds = s.nfds + 1 },
    ground arith,
    record {
      listener = ground (arith, v.listener, v.both);
      datagrams = ground (arith, v.datagrams, v.both);
      clients = λ j h h'. ground (arith, v.clients j h, other, other');
      both = omega (arith, v.both);
    },
    refl,
    λ c h. record {
      at = h.at;
      used = omega (arith, h.used);
      there = ground (arith, h.used, h.there);
    },
  )

  pub close-IsTable :
      (i : ℕ) (s : Table)
      → IsTable tcpsock udpsock s
      → 2 ≤ i
      → i < s.nfds
      → s.nfds < poll_max
      → (t : Table) × (close i s ≡ some t)
        × IsTable tcpsock udpsock t
        × (t.nfds + 1 ≡ s.nfds)
        × ((c : ℕ) → HasFd c s → (s.pfds i).fd ≢ some c → HasFd c t)
  unfolding close
  close-IsTable i s v client inside room =
      let cleared = put i (record (s.pfds i) { fd = none; events = false }) s.pfds in
      let (moved, e, p) = shift-Shifted (s.nfds - i) i cleared (omega arith) in
      (
        record { pfds = moved; nfds = s.nfds - 1 },
        rw e,
        record {
          listener = ground (arith, p.before 0, v.listener);
          datagrams = ground (arith, p.before 1, v.datagrams);
          clients = λ j h h'. elim (Bool-cases (ltb j i)) [
            | inl low ↦
                let same = p.before j (ground arith) in rw same (ground (arith, v.clients j))
            | inr high ↦
                let next = p.moved j (ground arith) (omega arith) in
                rw next (ground (arith, v.clients (j + 1)))
          ];
          both = omega arith;
        },
        omega arith,
        λ c h other. elim (Bool-cases (ltb h.at i)) [
          | inl low ↦ record {
            at = h.at;
            used = ground (arith, h.used);
            there = rw (p.before h.at (ground arith)) (ground (arith, h.there));
          }
          | inr high ↦
              let elsewhere : h.at ≢ i = λ e. other (rw e at h.there) in
              let here : h.at - 1 + 1 ≡ h.at = ground arith in
              record {
                at = h.at - 1;
                used = ground (arith, h.used);
                there =
                    rw (p.moved (h.at - 1) (ground arith) (ground (arith, h.used)), here)
                      (ground (arith, h.there));
              }
        ],
      )

pub start-IsTable :
    (tcpsock udpsock : ℕ) (pfds : ℕ → PollFd) → IsTable tcpsock udpsock (start tcpsock udpsock pfds)
unfolding start
start-IsTable tcpsock udpsock pfds = record {
  listener = refl;
  datagrams = refl;
  clients = λ j h h'. absurd (omega arith);
  both = omega arith;
}

-- With all entries in use, a connection is written behind the array.
connect_full : (sock : Option ℕ) (s : Table) → poll_max ≤ s.nfds → connect sock s ≡ none
unfolding connect
connect_full sock s full = ground arith
