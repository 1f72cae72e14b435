-- ===== src/Options.antt =====
-- The command lines of ping/main.c, traceroute/main.c and raw_socket/main.c: the loop over the options
-- that getopt finds, in their order. atoi and inet_addr are parameters.
pub mod Chosen
use eltex.Base.{ℕ, ◌%◌, ◌-◌, List, [], ◌∷◌, htons, ◌==◌, if◌then◌else◌}
use eltex.Base.Int.{ℤ, pos, negsuc}

-- An option and its argument; '?' is one that getopt does not know.
pub record Given : Type 0 where
  pub opt : ℕ
  pub optarg : List ℕ

-- "8.8.8.8"
abbrev pub default_ip : List ℕ
default_ip = b'8' ∷ b'.' ∷ b'8' ∷ b'.' ∷ b'8' ∷ b'.' ∷ b'8' ∷ 0 ∷ []

-- What ping takes from them: the address, and the seconds of its timeout.
pub record PingOptions : Type 0 where
  pub ip : List ℕ
  pub tv_sec : ℤ

abbrev pub localhost : List ℕ
localhost = b'1' ∷ b'2' ∷ b'7' ∷ b'.' ∷ b'0' ∷ b'.' ∷ b'0' ∷ b'.' ∷ b'1' ∷ 0 ∷ []

module _ (atoi : List ℕ → ℤ) where
  -- The switch.
  abbrev pub ping_option : PingOptions → Given → PingOptions
  ping_option s g =
      if g.opt == b'i'
      then record s { ip = g.optarg }
      else if g.opt == b't'
      then record s { tv_sec = atoi g.optarg }
      else s

  unfoldable pub ping_loop : PingOptions → List Given → PingOptions
  ping_loop s [] = s
  ping_loop s (g ∷ given) = ping_loop (ping_option s g) given

  unfoldable pub ping_options : List Given → PingOptions
  unfolding ping_loop
  ping_options given = ping_loop (record { ip = default_ip; tv_sec = pos 1 }) given

-- What traceroute takes: the address, and the greatest time to live and one more.
pub record TraceOptions : Type 0 where
  pub ip : List ℕ
  pub ttl : ℤ

module _ (atoi : List ℕ → ℤ) where
  -- The switch.
  abbrev pub trace_option : TraceOptions → Given → TraceOptions
  trace_option s g =
      if g.opt == b'i'
      then record s { ip = g.optarg }
      else if g.opt == b't'
      then record s { ttl = atoi g.optarg }
      else s

  unfoldable pub trace_loop : TraceOptions → List Given → TraceOptions
  trace_loop s [] = s
  trace_loop s (g ∷ given) = trace_loop (trace_option s g) given

  unfoldable pub trace_options : List Given → TraceOptions
  unfolding trace_loop
  trace_options given = trace_loop (record { ip = default_ip; ttl = pos 255 }) given

-- What raw_socket takes: which side it is, and the address.
pub data Choice : Type 0 where
  server client : Choice

pub record RawOptions : Type 0 where
  pub choice : Choice
  pub sin_port : ℕ
  pub sin_addr : ℕ

-- The 16 bits that htons takes of an int.
abbrev pub low16 : ℤ → ℕ
low16 (pos n) = n % 65536
low16 (negsuc n) = 65535 - n % 65536

module _ (atoi : List ℕ → ℤ) (inet_addr : List ℕ → ℕ) where
  -- The switch.
  abbrev pub raw_option : RawOptions → Given → RawOptions
  raw_option s g =
      if g.opt == b's'
      then record s { choice = server }
      else if g.opt == b'c'
      then record s { choice = client }
      else if g.opt == b'p'
      then record s { sin_port = htons (low16 (atoi g.optarg)) }
      else if g.opt == b'i'
      then record s { sin_addr = inet_addr g.optarg }
      else s

  unfoldable pub raw_loop : RawOptions → List Given → RawOptions
  raw_loop s [] = s
  raw_loop s (g ∷ given) = raw_loop (raw_option s g) given

  unfoldable pub raw_options : List Given → RawOptions
  unfolding raw_loop
  raw_options given =
      raw_loop (record { choice = server; sin_port = htons 8000; sin_addr = inet_addr localhost })
        given
