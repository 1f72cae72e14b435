-- ===== src/EpollServer/Agreement.antt =====
-- The epoll and the select build of select_poll_epoll/main.c, given the same answers of the kernel.
use eltex.Base.{
  ℕ, zero, suc, ◌+◌, ◌-◌, ◌≤◌, ◌<◌, ◌≡◌, ◌≢◌, refl, sym, ap, true, false, some, List, [], ◌∷◌,
  arith, ltb, Bool-cases, Option-cases, inl, inr, if◌then◌else◌,
}
use eltex.SelectServer.{Watch, Answers, fd_set, fd_clr, serve, serve_from, fd_setsize}
use eltex.SelectServer.Rounds.{IsWatch, round-Served}
use eltex.EpollServer.{epoll_serve, epoll_round}

-- The descriptors from `i` on, `n` of them, that are ready.
unfoldable pub ready_from : Answers → ℕ → ℕ → List ℕ
ready_from k zero i = []
ready_from k (suc n) i = let rest = ready_from k n (i + 1) in if k.tset i then i ∷ rest else rest

ready_from-zero : (k : Answers) (i : ℕ) → ready_from k 0 i ≡ []
unfolding ready_from
ready_from-zero k i = refl

ready_from-ready :
    (k : Answers) (n i : ℕ) → k.tset i ≡ true → ready_from k (suc n) i ≡ i ∷ ready_from k n (i + 1)
unfolding ready_from
ready_from-ready k n i h = rw h

ready_from-idle :
    (k : Answers) (n i : ℕ) → k.tset i ≡ false → ready_from k (suc n) i ≡ ready_from k n (i + 1)
unfolding ready_from
ready_from-idle k n i h = rw h

module _ (k : Answers) (tcpsock udpsock : ℕ) (differ : tcpsock ≢ udpsock) where
  serve-epoll :
      (i : ℕ) (s t : Watch)
      → serve k tcpsock udpsock i s ≡ some t
      → k.tset i ≡ true
      → t.rset ≡ epoll_serve k tcpsock udpsock i s.rset
  unfolding serve epoll_serve fd_set fd_clr
  serve-epoll i s t h ready = ground arith

  serve_idle :
      (i : ℕ) (s t : Watch) → serve k tcpsock udpsock i s ≡ some t → k.tset i ≡ false → t ≡ s
  unfolding serve
  serve_idle i s t h idle = ground arith

  serve-max : (i : ℕ) (s t : Watch) → serve k tcpsock udpsock i s ≡ some t → s.max ≤ t.max
  unfolding serve fd_set fd_clr
  serve-max i s t h = ground arith

  serve_from-cases :
      (fuel i : ℕ) (s t : Watch)
      → serve_from k tcpsock udpsock (suc fuel) i s ≡ some t
      → ltb s.max i ≡ false
      → (u : Watch) × (serve k tcpsock udpsock i s ≡ some u)
        × (serve_from k tcpsock udpsock fuel (i + 1) u ≡ some t)
  unfolding serve_from
  serve_from-cases fuel i s t h inside = elim (Option-cases (serve k tcpsock udpsock i s)) [
    | inl stops ↦ ground (arith, stops)
    | inr (u, goes) ↦ (u, goes, rw (inside, goes, serve_from) at h)
  ]

  serve_from-end :
      (fuel i : ℕ) (s t : Watch)
      → serve_from k tcpsock udpsock (suc fuel) i s ≡ some t
      → ltb s.max i ≡ true
      → s ≡ t
  unfolding serve_from
  serve_from-end fuel i s t h over = ground arith

  serve_from-max :
      (fuel i : ℕ) (s t : Watch) → serve_from k tcpsock udpsock fuel i s ≡ some t → s.max ≤ t.max
  unfolding serve_from
  serve_from-max zero i s t h = ground arith
  serve_from-max (suc fuel) i s t h = elim (Bool-cases (ltb s.max i)) [
    | inl over ↦ let e = serve_from-end fuel i s t h over in omega (arith, ap (λ w. w.max) e)
    | inr inside ↦
        let (u, goes, rest) = serve_from-cases fuel i s t h inside in
        let near = serve-max i s u goes in
        let far = serve_from-max fuel (i + 1) u t rest in omega arith
  ]

  epoll_round-from :
      (fuel i : ℕ) (s t : Watch)
      → serve_from k tcpsock udpsock fuel i s ≡ some t
      → i ≤ s.max + 1
      → epoll_round k tcpsock udpsock (ready_from k (t.max + 1 - i) i) s.rset ≡ t.rset
  unfolding serve_from epoll_round
  epoll_round-from zero i s t h near = ground arith
  epoll_round-from (suc fuel) i s t h near = elim (Bool-cases (ltb s.max i)) [
    | inl over ↦
        let e = serve_from-end fuel i s t h over in
        let same : s.max ≡ t.max = ap (λ w. w.max) e in
        let past : t.max + 1 - i ≡ 0 = ground arith in rw (past, e, ready_from-zero k i)
    | inr inside ↦
        let (u, goes, rest) = serve_from-cases fuel i s t h inside in
        let more = serve-max i s u goes in
        let most = serve_from-max fuel (i + 1) u t rest in
        let reached : i ≤ s.max = ground arith in
        let ih = epoll_round-from fuel (i + 1) u t rest (omega arith) in
        let step : t.max + 1 - i ≡ suc (t.max + 1 - (i + 1)) = omega arith in
        elim (Bool-cases (k.tset i)) [
          | inl ready ↦
              rw
                (
                  step,
                  ready_from-ready k (t.max + 1 - (i + 1)) i ready,
                  epoll_round,
                  sym (serve-epoll i s u goes ready),
                )
                ih
          | inr idle ↦
              rw
                (
                  step,
                  ready_from-idle k (t.max + 1 - (i + 1)) i idle,
                  sym (serve_idle i s u goes idle),
                )
                ih
        ]
  ]

  -- Where the two sockets differ and accept gives a connection that fits an fd_set, a round of the
  -- select build over a well-formed set ends, and a round of the epoll build, given the ready descriptors
  -- up to the greatest watched one in ascending order, leaves the same descriptors watched.
  pub epoll_round-serve_from :
      (c : ℕ)
      → k.accept ≡ some c
      → c < fd_setsize
      → (fuel : ℕ) (s : Watch) → IsWatch tcpsock udpsock s
      → s.max + 2 ≤ fuel
      → c + 2 ≤ fuel
      → (t : Watch) × (serve_from k tcpsock udpsock fuel 0 s ≡ some t)
        × (epoll_round k tcpsock udpsock (ready_from k (t.max + 1) 0) s.rset ≡ t.rset)
  epoll_round-serve_from c accepted fits fuel s v enough enough' =
      let (t, ends, p) = round-Served k tcpsock udpsock c accepted fits fuel s v enough enough' in
      let all : t.max + 1 ≡ t.max + 1 - 0 = omega arith in
      (t, ends, rw all (epoll_round-from fuel 0 s t ends (omega arith)))
