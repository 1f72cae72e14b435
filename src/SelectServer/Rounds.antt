-- ===== src/SelectServer/Rounds.antt =====
-- The descriptors that the select loop of select_poll_epoll/main.c watches after a round.
use eltex.Base.{
  ℕ, zero, suc, ◌+◌, ◌≤◌, ◌<◌, ◌≡◌, ◌≢◌, refl, ◌⊎◌, inl, inr, true, false, some, arith, ltb,
  Bool-cases, ◌==◌, if◌then◌else◌,
}
use eltex.Base.Int.{pos, eqb_ℤ}
use eltex.SelectServer.{
  Watch, Answers, set_max, fd_set, fd_clr, start, serve, serve_from, fd_setsize,
}

-- Both sockets are watched, and select is told of every watched descriptor.
pub record IsWatch (tcpsock udpsock : ℕ) (s : Watch) : Type 0 where
  pub tcp_watched : s.rset tcpsock ≡ true
  pub udp_watched : s.rset udpsock ≡ true
  pub below : (j : ℕ) → s.rset j ≡ true → j ≤ s.max

module _ (k : Answers) (tcpsock udpsock c : ℕ) (accepted : k.accept ≡ some c)
    (fits : c < fd_setsize) where
  -- What serving descriptors makes of the set: it stays well formed, `max` grows to the connection
  -- at most, and a client stays that has not closed.
  pub record Served (s t : Watch) : Type 0 where
    pub valid : IsWatch tcpsock udpsock t
    pub bounded : (t.max ≡ s.max) ⊎ ((t.max ≡ c) × (s.max < c))
    pub stays : (j : ℕ) → s.rset j ≡ true → eqb_ℤ (k.recv j) (pos 0) ≡ false → t.rset j ≡ true

  same_Served : (s : Watch) → IsWatch tcpsock udpsock s → Served s s
  same_Served s v = record { valid = v; bounded = inl refl; stays = λ j there alive. there }

  abbrev connected : Watch → Watch
  connected s = set_max c (record s { rset = λ j. if j == c then true else s.rset j })

  connected-Served : (s : Watch) → IsWatch tcpsock udpsock s → Served s (connected s)
  connected-Served s v = record {
    valid = record {
      tcp_watched = ground (arith, v.tcp_watched);
      udp_watched = ground (arith, v.udp_watched);
      below = λ j there. ground (arith, v.below j);
    };
    bounded = ground arith;
    stays = λ j there alive. ground (arith, there);
  }

  cleared-Served :
      (i : ℕ) (s : Watch)
      → IsWatch tcpsock udpsock s
      → i ≢ tcpsock
      → i ≢ udpsock
      → eqb_ℤ (k.recv i) (pos 0) ≡ true
      → Served s (fd_clr i s)
  unfolding fd_clr
  cleared-Served i s v not_tcp not_udp closed = record {
    valid = record {
      tcp_watched = ground (arith, v.tcp_watched);
      udp_watched = ground (arith, v.udp_watched);
      below = λ j there. ground (arith, v.below j);
    };
    bounded = inl refl;
    stays = λ j there alive.
        let differ : j ≢ i = λ e. ground (arith, rw e at alive) in ground (arith, there);
  }

  serve-Served :
      (i : ℕ) (s : Watch)
      → IsWatch tcpsock udpsock s
      → (t : Watch) × (serve k tcpsock udpsock i s ≡ some t) × Served s t
  unfolding serve fd_set
  serve-Served i s v = elim (Bool-cases (k.tset i)) [
    | inr idle ↦ (s, ground (arith, idle), same_Served s v)
    | inl ready ↦ elim (Bool-cases (i == tcpsock)) [
      | inl tcp ↦ (connected s, ground (arith, ready, tcp, accepted, fits), connected-Served s v)
      | inr not_tcp ↦ elim (Bool-cases (i == udpsock)) [
        | inl udp ↦ (s, ground (arith, ready, not_tcp, udp), same_Served s v)
        | inr not_udp ↦ elim (Bool-cases (eqb_ℤ (k.recv i) (pos 0))) [
          | inl closed ↦ (
            fd_clr i s,
            ground (arith, ready, not_tcp, not_udp, closed),
            cleared-Served i s v (ground arith) (ground arith) closed,
          )
          | inr alive ↦ (s, ground (arith, ready, not_tcp, not_udp, alive), same_Served s v)
        ]
      ]
    ]
  ]

  Served-trans : (s t u : Watch) → Served s t → Served t u → Served s u
  Served-trans s t u p q = record {
    valid = q.valid;
    bounded = omega (arith, p.bounded, q.bounded);
    stays = λ j there alive. q.stays j (p.stays j there alive) alive;
  }

  serve_from-Served :
      (fuel i : ℕ) (s : Watch)
      → IsWatch tcpsock udpsock s
      → i ≤ s.max + 1
      → s.max + 2 ≤ fuel + i
      → c + 2 ≤ fuel + i
      → (t : Watch) × (serve_from k tcpsock udpsock fuel i s ≡ some t) × Served s t
  unfolding serve_from
  serve_from-Served zero i s v near enough enough' = absurd (omega arith)
  serve_from-Served (suc fuel) i s v near enough enough' = elim (Bool-cases (ltb s.max i)) [
    | inl over ↦ (s, rw (over, serve_from), same_Served s v)
    | inr inside ↦
        let reached : i ≤ s.max = ground arith in
        let (t, served, p) = serve-Served i s v in
        let (u, rest, q) =
          serve_from-Served fuel (i + 1) t p.valid (omega (arith, p.bounded))
            (omega (arith, p.bounded)) (omega arith) in
        (u, rw (inside, served, serve_from) rest, Served-trans s t u p q)
  ]

  -- Where the connection that accept gives fits an fd_set, a round over a well-formed set
  -- ends, in at most as many steps as there are descriptors up to the greatest and one more, whatever is
  -- ready: both sockets are watched afterwards, select is told of every watched descriptor, and
  -- every client is still watched of which recv did not return 0.
  pub round-Served :
      (fuel : ℕ) (s : Watch)
      → IsWatch tcpsock udpsock s
      → s.max + 2 ≤ fuel
      → c + 2 ≤ fuel
      → (t : Watch) × (serve_from k tcpsock udpsock fuel 0 s ≡ some t) × Served s t
  round-Served fuel s v enough enough' =
      serve_from-Served fuel 0 s v (omega arith) (omega arith) (omega arith)

-- The set that the loop begins with is well formed, if both sockets fit it.
pub start-IsWatch :
    (tcpsock udpsock : ℕ)
    → tcpsock < fd_setsize
    → udpsock < fd_setsize
    → (s : Watch) × (start tcpsock udpsock ≡ some s) × IsWatch tcpsock udpsock s
unfolding start fd_set
start-IsWatch tcpsock udpsock h h' = (
  record {
    rset = λ j. if j == udpsock then true else if j == tcpsock then true else false;
    max = if ltb udpsock tcpsock then tcpsock else udpsock;
  },
  ground arith,
  record {
    tcp_watched = ground arith;
    udp_watched = ground arith;
    below = λ j there. ground arith;
  },
)
