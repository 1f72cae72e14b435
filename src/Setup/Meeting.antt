-- ===== src/Setup/Meeting.antt =====
-- Whether the two sides of a program on sockets come together, as their set-ups leave them: what the
-- calls that succeeded make of one socket, and which sockets reach each other.
use eltex.Base.{
  All, refl, inl, inr, ◌⊎◌, ℕ, ◌==◌, ◌&&◌, not, ◌≡◌, Bool, true, false, Option, none, some, List,
  [], ◌∷◌, if◌then◌else◌, u32, arith,
}
use eltex.Base.Int.{ℤ, pos, eqb_ℤ}
use eltex.Setup.{
  Address, Call, accept, is_negative, socket, bind, setsockopt, listen, connect, ready, sock_stream,
  sock_dgram, ipproto_ip, sol_socket, so_reuseaddr, so_broadcast, ip_add_membership, socket_create,
  socket_bind, socket_setsockopt, socket_listen,
}
use eltex.Setup.Groups.{
  open_broadcast_server, open_broadcast_client, open_multicast_server, open_multicast_client,
  IpMreq,
}
use eltex.Setup.Streams.{
  open_sctp_server, open_sctp_client, open_server_udp, open_client_udp, open_server_tcp,
  open_client_tcp,
}

-- A socket of the kernel: what it was made as, the addresses that it was bound and connected to,
-- whether it listens, and whether it may send to the broadcast address.
pub record Socket : Type 0 where
  pub type : ℕ
  pub protocol : ℕ
  pub at : Option Address
  pub to : Option Address
  pub listens : Bool
  pub broadcasts : Bool

-- What a call that succeeds makes of its socket. Only a stream can listen, and a socket that listens
-- is not bound any more; an option is set where the word is not 0; accept makes another socket.
abbrev pub on_call : Call → Option Socket → Option Socket
on_call (socket type protocol) _ = some (record {
  type = type;
  protocol = protocol;
  at = none;
  to = none;
  listens = false;
  broadcasts = false;
})
on_call _ none = none
on_call (bind _ addr) (some s) = some (if s.listens then s else record s { at = some addr })
on_call (connect _ addr) (some s) = some (record s { to = some addr })
on_call (listen _ n) (some s) =
    some (if s.type == sock_stream then record s { listens = true } else s)
on_call (setsockopt _ level name value) (some s) = some (
    if (level == sol_socket) && (name == so_broadcast)
    then record s { broadcasts = not (value == 0) }
    else s)
on_call (accept _) (some s) = some s

-- Whether a call is on the socket of a descriptor, or makes it.
abbrev pub is_on : ℤ → Call → ℤ → Bool
is_on sock (socket type protocol) made = eqb_ℤ made sock
is_on sock (bind f addr) _ = eqb_ℤ f sock
is_on sock (connect f addr) _ = eqb_ℤ f sock
is_on sock (listen f n) _ = eqb_ℤ f sock
is_on sock (setsockopt f level name value) _ = eqb_ℤ f sock
is_on sock (accept f) _ = eqb_ℤ f sock

-- What the calls, in their order, make of the socket of one descriptor; those that failed make
-- nothing of it.
abbrev pub socket_after : ℤ → List (Call × ℤ) → Option Socket → Option Socket
socket_after sock [] s = s
socket_after sock ((c, r) ∷ calls) s =
    socket_after sock calls (if not (is_negative r) && is_on sock c r then on_call c s else s)

-- A socket bound to one takes what is sent to the other: the same port, of any address or of that one.
abbrev pub Takes : Address → Address → Type 0
Takes at to = (at.sin_port ≡ to.sin_port) × ((at.sin_addr ≡ 0) ⊎ (at.sin_addr ≡ to.sin_addr))

-- Two sockets of one kind, of which the first is bound where what is sent to the address arrives.
abbrev pub Reaches : Socket → Socket → Address → Type 0
Reaches server client to =
    (server.type ≡ client.type)
    × (server.protocol ≡ client.protocol)
    × ((at : Address) × (server.at ≡ some at) × Takes at to)

-- The stream of the second socket is connected to the first, which listens.
abbrev pub Connects : Option Socket → Option Socket → Type 0
Connects server client =
    (s : Socket) × (c : Socket) × (server ≡ some s)
    × (client ≡ some c)
    × (s.type ≡ sock_stream)
    × (s.listens ≡ true)
    × ((to : Address) × (c.to ≡ some to) × Reaches s c to)

-- The first socket gets the datagrams that the second sends to the address.
abbrev pub Gets : Option Socket → Option Socket → Address → Type 0
Gets server client to =
    (s : Socket) × (c : Socket) × (server ≡ some s)
    × (client ≡ some c)
    × (s.type ≡ sock_dgram)
    × Reaches s c to

same_sock : (a : ℕ) → eqb_ℤ (pos a) (pos a) ≡ true
same_sock a = ground arith

-- Calls that all succeeded, on one socket.
abbrev pub all_calls : List (Call × ℤ) → Option Socket → Option Socket
all_calls [] s = s
all_calls ((c, r) ∷ calls) s = all_calls calls (on_call c s)

socket_after-all_calls :
    (sock : ℤ) (calls : List (Call × ℤ)) (s : Option Socket)
    → All (λ c. (not (is_negative c.1) && is_on sock c.0 c.1) ≡ true) calls
    → socket_after sock calls s ≡ all_calls calls s
socket_after-all_calls sock [] s h = refl
socket_after-all_calls sock ((c, r) ∷ calls) s h =
    rw h.0 (socket_after-all_calls sock calls (on_call c s) h.1)

module _ (inet_addr : List ℕ → ℕ) (addrgroup : List ℕ) (opt_at mreq_at port a b c d e f : ℕ) where
  abbrev answers : List ℤ
  answers = pos a ∷ pos b ∷ pos c ∷ pos d ∷ pos e ∷ []

  abbrev others : List ℤ
  others = pos f ∷ pos b ∷ pos c ∷ pos d ∷ []

  -- Where every call succeeds, with whatever descriptors, both sides are given one port and the address
  -- of the group is that of inet_addr. In sctp and in tcp of udp_tcp_client_server, the server's
  -- socket listens, as a stream of the client's protocol, and is bound where the client connects to.
  -- In udp of the latter, and of the two programs that broadcast, the receiver's socket is bound where
  -- the sender's datagrams go; the sender may broadcast unless the low word of the address of its
  -- variable is 0. The receiver of a group binds no socket, and where its call to join stands a
  -- group stands the address of its own variable, whatever the group is.
  pub setups_meet :
      Connects
        (socket_after (pos a) (open_sctp_server opt_at port answers).calls none)
        (socket_after (pos f) (open_sctp_client inet_addr port others).calls none)
      × ((open_sctp_server opt_at port answers).outcome ≡ ready (pos a, pos e))
      × Connects
          (socket_after (pos a) (open_server_tcp port answers).calls none)
          (socket_after (pos f) (open_client_tcp port others).calls none)
      × ((open_server_tcp port answers).outcome ≡ ready (pos a, pos d))
      × ((to : Address) × ((open_client_udp port others).outcome ≡ ready (pos f, to))
          × Gets
              (socket_after (pos a) (open_server_udp port answers).calls none)
              (socket_after (pos f) (open_client_udp port others).calls none)
              to)
      × ((to : Address) × (s : Socket) × ((open_broadcast_server opt_at port others).outcome
            ≡ ready (pos f, to))
          × Gets
              (socket_after (pos a) (open_broadcast_client opt_at port answers).calls none)
              (socket_after (pos f) (open_broadcast_server opt_at port others).calls none)
              to
          × (socket_after (pos f) (open_broadcast_server opt_at port others).calls none ≡ some s)
          × (s.broadcasts ≡ not (u32 opt_at == 0)))
      × ((sock : ℤ) × (to : Address) × (at : Address) × (mreq : IpMreq) × ((open_multicast_server
              inet_addr addrgroup port answers).outcome
            ≡ ready (sock, to))
          × (to.sin_addr ≡ inet_addr addrgroup)
          × ((open_multicast_client inet_addr opt_at mreq_at addrgroup port answers).outcome
              ≡ ready (sock, (at, mreq)))
          × (mreq.imr_multiaddr ≡ inet_addr addrgroup)
          × ((open_multicast_client inet_addr opt_at mreq_at addrgroup port answers).calls
              ≡ (socket sock_dgram 0, pos a)
                ∷ (setsockopt sock sol_socket so_reuseaddr (u32 opt_at), pos b)
                ∷ (setsockopt sock ipproto_ip ip_add_membership (u32 mreq_at), pos c)
                ∷ []))
  unfolding open_broadcast_server open_broadcast_client open_multicast_server open_multicast_client
      open_sctp_server open_sctp_client open_server_udp open_client_udp open_client_tcp
      open_server_tcp socket_create socket_setsockopt socket_bind socket_listen
  setups_meet =
      let mine = same_sock a in
      let its = same_sock f in
      (
        (
          _,
          _,
          socket_after-all_calls (pos a) (open_sctp_server opt_at port answers).calls none
              (mine, (mine, (mine, (mine, (mine, tt))))),
          socket_after-all_calls (pos f) (open_sctp_client inet_addr port others).calls none
              (its, (its, tt)),
          refl,
          refl,
          (_, refl, (refl, refl, (_, refl, (refl, inl refl)))),
        ),
        refl,
        (
          _,
          _,
          socket_after-all_calls (pos a) (open_server_tcp port answers).calls none
              (mine, (mine, (mine, (mine, tt)))),
          socket_after-all_calls (pos f) (open_client_tcp port others).calls none (its, (its, tt)),
          refl,
          refl,
          (_, refl, (refl, refl, (_, refl, (refl, inl refl)))),
        ),
        refl,
        (
          _,
          refl,
          (
            _,
            _,
            socket_after-all_calls (pos a) (open_server_udp port answers).calls none
                (mine, (mine, tt)),
            socket_after-all_calls (pos f) (open_client_udp port others).calls none (its, tt),
            refl,
            (refl, refl, (_, refl, (refl, inl refl))),
          ),
        ),
        (
          _,
          _,
          refl,
          (
            _,
            _,
            socket_after-all_calls (pos a) (open_broadcast_client opt_at port answers).calls none
                (mine, (mine, (mine, tt))),
            socket_after-all_calls (pos f) (open_broadcast_server opt_at port others).calls none
                (its, (its, (its, tt))),
            refl,
            (refl, refl, (_, refl, (refl, inr refl))),
          ),
          socket_after-all_calls (pos f) (open_broadcast_server opt_at port others).calls none
              (its, (its, (its, tt))),
          refl,
        ),
        (_, _, _, _, refl, refl, refl, refl, refl),
      )
