-- ===== src/Options/Chosen.antt =====
-- Of several options that set one thing the last one counts.
use eltex.Base.{refl, ap, ◌∙◌, ℕ, ◌≡◌, List, [], ◌∷◌, ◌==◌, if◌then◌else◌, arith, htons}
use eltex.Base.Int.{ℤ, pos}
use eltex.Options.{
  ping_option, trace_option, raw_option, Given, PingOptions, TraceOptions, RawOptions, Choice,
  server, client, default_ip, localhost, low16, ping_loop, ping_options, trace_loop, trace_options,
  raw_loop, raw_options,
}

-- What the last option of a letter sets, or else what was there.
abbrev pub last_of : {A : Type 0} → ℕ → (List ℕ → A) → A → List Given → A
last_of opt f a [] = a
last_of opt f a (g ∷ given) = last_of opt f (if g.opt == opt then f g.optarg else a) given

-- The last of -s and -c.
abbrev pub last_choice : Choice → List Given → Choice
last_choice c [] = c
last_choice c (g ∷ given) =
    last_choice (if g.opt == b's' then server else if g.opt == b'c' then client else c) given

module _ (atoi : List ℕ → ℤ) (inet_addr : List ℕ → ℕ) where
  ping_loop-last :
      (given : List Given) (s : PingOptions)
      → ((ping_loop atoi s given).ip ≡ last_of b'i' (λ a. a) s.ip given)
        × ((ping_loop atoi s given).tv_sec ≡ last_of b't' atoi s.tv_sec given)
  unfolding ping_loop
  ping_loop-last [] s = (refl, refl)
  ping_loop-last (g ∷ given) s =
      let t = ping_option atoi s g in
      let h = ping_loop-last given t in
      let ip : t.ip ≡ (if g.opt == b'i' then g.optarg else s.ip) = ground arith in
      let tv_sec : t.tv_sec ≡ (if g.opt == b't' then atoi g.optarg else s.tv_sec) = ground arith in
      (
        h.0 ∙ ap (λ a. last_of b'i' (λ a. a) a given) ip,
        h.1 ∙ ap (λ a. last_of b't' atoi a given) tv_sec,
      )

  trace_loop-last :
      (given : List Given) (s : TraceOptions)
      → ((trace_loop atoi s given).ip ≡ last_of b'i' (λ a. a) s.ip given)
        × ((trace_loop atoi s given).ttl ≡ last_of b't' atoi s.ttl given)
  unfolding trace_loop
  trace_loop-last [] s = (refl, refl)
  trace_loop-last (g ∷ given) s =
      let t = trace_option atoi s g in
      let h = trace_loop-last given t in
      let ip : t.ip ≡ (if g.opt == b'i' then g.optarg else s.ip) = ground arith in
      let ttl : t.ttl ≡ (if g.opt == b't' then atoi g.optarg else s.ttl) = ground arith in
      (
        h.0 ∙ ap (λ a. last_of b'i' (λ a. a) a given) ip,
        h.1 ∙ ap (λ a. last_of b't' atoi a given) ttl,
      )

  raw_loop-last :
      (given : List Given) (s : RawOptions)
      → ((raw_loop atoi inet_addr s given).choice ≡ last_choice s.choice given)
        × ((raw_loop atoi inet_addr s given).sin_port
            ≡ last_of b'p' (λ a. htons (low16 (atoi a))) s.sin_port given)
        × ((raw_loop atoi inet_addr s given).sin_addr ≡ last_of b'i' inet_addr s.sin_addr given)
  unfolding raw_loop
  raw_loop-last [] s = (refl, refl, refl)
  raw_loop-last (g ∷ given) s =
      let t = raw_option atoi inet_addr s g in
      let h = raw_loop-last given t in
      let choice : t.choice
          ≡ (if g.opt == b's' then server else if g.opt == b'c' then client else s.choice) =
        ground arith in
      let port : t.sin_port
          ≡ (if g.opt == b'p' then htons (low16 (atoi g.optarg)) else s.sin_port) =
        ground arith in
      let addr : t.sin_addr ≡ (if g.opt == b'i' then inet_addr g.optarg else s.sin_addr) =
        ground arith in
      (
        h.0 ∙ ap (λ c. last_choice c given) choice,
        h.1 ∙ ap (λ a. last_of b'p' (λ a. htons (low16 (atoi a))) a given) port,
        h.2 ∙ ap (λ a. last_of b'i' inet_addr a given) addr,
      )

  -- Of the options in any order and number, each program takes for the address, ping for the seconds,
  -- traceroute for the time to live and raw_socket for the port what the last option of that
  -- letter says, or else its default, and raw_socket is the side that the last of -s and -c names.
  pub options-last :
      (given : List Given)
      → ((ping_options atoi given).ip ≡ last_of b'i' (λ a. a) default_ip given)
        × ((ping_options atoi given).tv_sec ≡ last_of b't' atoi (pos 1) given)
        × ((trace_options atoi given).ip ≡ last_of b'i' (λ a. a) default_ip given)
        × ((trace_options atoi given).ttl ≡ last_of b't' atoi (pos 255) given)
        × ((raw_options atoi inet_addr given).choice ≡ last_choice server given)
        × ((raw_options atoi inet_addr given).sin_port
            ≡ last_of b'p' (λ a. htons (low16 (atoi a))) (htons 8000) given)
        × ((raw_options atoi inet_addr given).sin_addr
            ≡ last_of b'i' inet_addr (inet_addr localhost) given)
  unfolding ping_options trace_options raw_options
  options-last given =
      let p = ping_loop-last given (record { ip = default_ip; tv_sec = pos 1 }) in
      let t = trace_loop-last given (record { ip = default_ip; ttl = pos 255 }) in
      let r =
        raw_loop-last given
          (record { choice = server; sin_port = htons 8000; sin_addr = inet_addr localhost }) in
      (p.0, p.1, t.0, t.1, r.0, r.1, r.2)
