-- ===== src/PollServer/Rounds.antt =====
-- A round of the poll build of select_poll_epoll/main.c: what it keeps of the table, and within what
-- bounds.
use eltex.Base.{
  ℕ, zero, suc, ◌+◌, ◌≤◌, ◌<◌, ◌≡◌, ◌≢◌, refl, ◌∙◌, ap, true, false, Option, some, none, arith, ltb,
  ltb→lt, Bool-cases, inl, inr,
}
use eltex.Base.Int.{pos, eqb_ℤ}
use eltex.SelectServer.{Answers}
use eltex.PollServer.{Table, poll_max, is_fd, poll, recv, serve, serve_from, round}
use eltex.PollServer.Entries.{
  IsTable, HasFd, poll-HasFd, poll-IsTable, connect-IsTable, close-IsTable,
}

module _ (tcpsock udpsock : ℕ) (k : Answers) (differ : tcpsock ≢ udpsock)
    (fresh : k.accept ≢ some tcpsock) (fresh' : k.accept ≢ some udpsock) where
  -- What serving an entry makes of the table: only the first adds one, and at most one, and a
  -- descriptor stays of which recv does not return 0.
  record Served (i : ℕ) (s t : Table) : Type 0 where
    valid : IsTable tcpsock udpsock t
    grown : t.nfds ≤ s.nfds + 1
    later : 1 ≤ i → t.nfds ≤ s.nfds
    stays : (c : ℕ) → HasFd c s → eqb_ℤ (k.recv c) (pos 0) ≡ false → HasFd c t

  same_Served : (i : ℕ) (s : Table) → IsTable tcpsock udpsock s → Served i s s
  same_Served i s v = record {
    valid = v;
    grown = omega arith;
    later = λ h. omega arith;
    stays = λ c h alive. h;
  }

  is_fd-yes : (fd : Option ℕ) (sock : ℕ) → is_fd fd sock ≡ true → fd ≡ some sock
  is_fd-yes none sock e = ground arith
  is_fd-yes (some fd) sock e = ap some (ground arith)

  tcp_first :
      (i : ℕ) (s : Table)
      → IsTable tcpsock udpsock s
      → i < s.nfds
      → (s.pfds i).fd ≡ some tcpsock
      → i ≡ 0
  tcp_first zero s v h e = refl
  tcp_first (suc zero) s v h e = ground (arith, v.datagrams, e, differ)
  tcp_first (suc (suc i)) s v h e = absurd ((v.clients (suc (suc i)) (omega arith) h).0 e)

  is_fd_refl : (sock : ℕ) → is_fd (some sock) sock ≡ true
  is_fd_refl sock = ground arith

  client_from :
      (i : ℕ) (s : Table)
      → IsTable tcpsock udpsock s
      → is_fd (s.pfds i).fd tcpsock ≡ false
      → is_fd (s.pfds i).fd udpsock ≡ false
      → 2 ≤ i
  client_from zero s v h h' = ground (arith, rw v.listener at h)
  client_from (suc zero) s v h h' = ground (arith, rw v.datagrams at h')
  client_from (suc (suc i)) s v h h' = omega arith

  closed-other :
      (fd : Option ℕ) (c : ℕ)
      → eqb_ℤ (recv k fd) (pos 0) ≡ true
      → eqb_ℤ (k.recv c) (pos 0) ≡ false
      → fd ≢ some c
  closed-other fd c closed alive e = ground (arith, rw e at closed, alive)

  serve-Served :
      (i : ℕ) (s : Table)
      → IsTable tcpsock udpsock s
      → i < s.nfds
      → s.nfds < poll_max
      → (t : Table) × (serve k tcpsock udpsock i s ≡ some t) × Served i s t
  unfolding serve
  serve-Served i s v inside room = elim (Bool-cases (s.pfds i).revents) [
    | inr idle ↦ (s, rw idle, same_Served i s v)
    | inl ready ↦ elim (Bool-cases (is_fd (s.pfds i).fd tcpsock)) [
      | inl tcp ↦
          let first = tcp_first i s v inside (is_fd-yes _ _ tcp) in
          let (t, e, w, n, keeps) =
            connect-IsTable tcpsock udpsock k.accept s v fresh fresh' room in
          (
            t,
            rw (ready, tcp) e,
            record {
              valid = w;
              grown = omega arith;
              later = λ h. omega arith;
              stays = λ c h alive. keeps c h;
            },
          )
      | inr not_tcp ↦ elim (Bool-cases (is_fd (s.pfds i).fd udpsock)) [
        | inl udp ↦ (s, rw (ready, not_tcp, udp), same_Served i s v)
        | inr not_udp ↦ elim (Bool-cases (eqb_ℤ (recv k (s.pfds i).fd) (pos 0))) [
          | inr alive ↦ (s, rw (ready, not_tcp, not_udp, alive), same_Served i s v)
          | inl closed ↦
              let (t, e, w, n, keeps) =
                close-IsTable tcpsock udpsock i s v (client_from i s v not_tcp not_udp) inside
                  room in
              (
                t,
                rw (ready, not_tcp, not_udp, closed) e,
                record {
                  valid = w;
                  grown = omega arith;
                  later = λ h. omega arith;
                  stays = λ c h alive. keeps c h (closed-other (s.pfds i).fd c closed alive);
                },
              )
        ]
      ]
    ]
  ]

  serve_from-step :
      (fuel i : ℕ) (s t : Table)
      → ltb i s.nfds ≡ true
      → ltb i poll_max ≡ true
      → serve k tcpsock udpsock i s ≡ some t
      → serve_from k tcpsock udpsock (suc fuel) i s ≡ serve_from k tcpsock udpsock fuel (i + 1) t
  unfolding serve_from
  serve_from-step fuel i s t inside stored served = rw (serve_from, inside, stored, served)

  serve_from-IsTable :
      (fuel i : ℕ) (s : Table)
      → IsTable tcpsock udpsock s
      → 1 ≤ i
      → s.nfds < poll_max
      → 1 ≤ fuel
      → s.nfds < fuel + i
      → (t : Table) × (serve_from k tcpsock udpsock fuel i s ≡ some t)
        × IsTable tcpsock udpsock t
        × (t.nfds ≤ s.nfds)
        × ((c : ℕ) → HasFd c s → eqb_ℤ (k.recv c) (pos 0) ≡ false → HasFd c t)
  unfolding serve_from
  serve_from-IsTable zero i s v later room some_fuel enough = absurd (omega arith)
  serve_from-IsTable (suc fuel) i s v later room some_fuel enough =
      elim (Bool-cases (ltb i s.nfds)) [
        | inr over ↦ (s, rw (serve_from, over), v, omega arith, λ c h alive. h)
        | inl inside ↦
            let reached : i < s.nfds = ltb→lt _ _ inside in
            let stored : ltb i poll_max ≡ true = ground arith in
            let (t, served, p) = serve-Served i s v reached room in
            let less = p.later later in
            let (u, rest, w, n, keeps) =
              serve_from-IsTable fuel (i + 1) t p.valid (omega arith) (omega arith) (omega arith)
                (omega arith) in
            (
              u,
              serve_from-step fuel i s t inside stored served ∙ rest,
              w,
              omega arith,
              λ c h alive. keeps c (p.stays c h alive) alive,
            )
      ]

  serve_from-first :
      (s : Table)
      → IsTable tcpsock udpsock s
      → s.nfds + 1 < poll_max
      → (t : Table) × (serve_from k tcpsock udpsock (suc poll_max) 0 s ≡ some t)
        × IsTable tcpsock udpsock t
        × (t.nfds ≤ s.nfds + 1)
        × ((c : ℕ) → HasFd c s → eqb_ℤ (k.recv c) (pos 0) ≡ false → HasFd c t)
  serve_from-first s v room =
      let inside : ltb 0 s.nfds ≡ true = ground (arith, v.both) in
      let (t, served, p) = serve-Served 0 s v (omega (arith, v.both)) (omega arith) in
      let grown = p.grown in
      let (u, rest, w, n, keeps) =
        serve_from-IsTable poll_max 1 t p.valid (omega arith) (omega arith) (omega arith)
          (omega arith) in
      (
        u,
        serve_from-step poll_max 0 s t inside refl served ∙ rest,
        w,
        omega arith,
        λ c h alive. keeps c (p.stays c h alive) alive,
      )

  -- Where the two sockets differ and accept gives neither of them, a round over a well-formed table
  -- of at most 1022 entries ends within its fuel and stays inside the array, whatever is ready and whoever
  -- has left: the table is well formed afterwards, with at most one entry more, and every
  -- descriptor still stands in it of which recv does not return 0.
  pub round-IsTable :
      (s : Table)
      → IsTable tcpsock udpsock s
      → s.nfds + 1 < poll_max
      → (t : Table) × (round k tcpsock udpsock s ≡ some t)
        × IsTable tcpsock udpsock t
        × (t.nfds ≤ s.nfds + 1)
        × ((c : ℕ) → HasFd c s → eqb_ℤ (k.recv c) (pos 0) ≡ false → HasFd c t)
  unfolding round poll
  round-IsTable s v room =
      let (t, e, w, n, keeps) =
        serve_from-first (poll k s) (poll-IsTable tcpsock udpsock k s v) room in
      (t, e, w, n, λ c h. keeps c (poll-HasFd k s c h))
