-- ===== src/Examples/Setups.antt =====
-- Set-ups of the programs on sockets, their command lines, and the small programs.
use eltex.Base.{refl, true, false, ◌-◌, ℕ, ◌≡◌, some, none, List, [], ◌∷◌, u32}
use eltex.Base.Int.{ℤ, pos, negsuc}
use eltex.Setup.{
  Address, socket, setsockopt, ready, died, sock_dgram, ipproto_ip, sol_socket, so_reuseaddr,
  ip_add_membership,
}
use eltex.Setup.Checked.{IsChecked}
use eltex.Setup.Groups.{
  IpMreq, open_broadcast_server, open_broadcast_client, open_multicast_server,
  open_multicast_client,
}
use eltex.Setup.Streams.{
  open_sctp_server, open_sctp_client, open_server_udp, open_client_udp, open_server_tcp,
  open_client_tcp, open_select,
}
use eltex.Setup.Failures.{setups-IsChecked}
use eltex.Setup.Meeting.{Connects, Gets, Socket, socket_after, setups_meet}
use eltex.Cstring.{strlen, text}
use eltex.Options.{Given, trace_options}
use eltex.Daemon.{daemonize, exit_failure, cleared_umask}
use eltex.Sniffer.Capture.{
  Pcap, main, on_option, capture, error, looked_up, opened, compiled, filtered, looped, closed,
}
use eltex.Pipe

-- inet_addr of "225.0.0.37", whatever it is given.
abbrev inet_addr : List ℕ → ℕ
inet_addr text = 620757217

abbrev group : List ℕ
group = b'2' ∷ b'2' ∷ b'5' ∷ b'.' ∷ b'0' ∷ b'.' ∷ b'0' ∷ b'.' ∷ b'3' ∷ b'7' ∷ 0 ∷ []

setups-IsChecked_example :
    IsChecked (open_broadcast_server 7000 8000)
    × IsChecked (open_broadcast_client 7000 8000)
    × IsChecked (open_multicast_server inet_addr group 8000)
    × IsChecked (open_multicast_client inet_addr 7000 7008 group 8000)
    × IsChecked (open_sctp_server 7000 8000)
    × IsChecked (open_sctp_client inet_addr 8000)
    × IsChecked (open_server_udp 8000)
    × IsChecked (open_client_udp 8000)
    × IsChecked (open_client_tcp 8000)
    × IsChecked open_select
    × ((s b l e : ℕ)
        → (open_server_tcp 8000 (pos s ∷ pos b ∷ pos l ∷ negsuc e ∷ [])).outcome
          ≡ ready (pos s, negsuc e))
setups-IsChecked_example = setups-IsChecked inet_addr group 7000 7008 8000

abbrev fine : List ℤ
fine = pos 3 ∷ pos 0 ∷ pos 0 ∷ pos 0 ∷ pos 4 ∷ []

abbrev fine_too : List ℤ
fine_too = pos 5 ∷ pos 0 ∷ pos 0 ∷ pos 0 ∷ []

setups_meet_example :
    Connects
      (socket_after (pos 3) (open_sctp_server 7000 8000 fine).calls none)
      (socket_after (pos 5) (open_sctp_client inet_addr 8000 fine_too).calls none)
    × ((open_sctp_server 7000 8000 fine).outcome ≡ ready (pos 3, pos 4))
    × Connects
        (socket_after (pos 3) (open_server_tcp 8000 fine).calls none)
        (socket_after (pos 5) (open_client_tcp 8000 fine_too).calls none)
    × ((open_server_tcp 8000 fine).outcome ≡ ready (pos 3, pos 0))
    × ((to : Address) × ((open_client_udp 8000 fine_too).outcome ≡ ready (pos 5, to))
        × Gets
            (socket_after (pos 3) (open_server_udp 8000 fine).calls none)
            (socket_after (pos 5) (open_client_udp 8000 fine_too).calls none)
            to)
    × ((to : Address) × (s : Socket) × ((open_broadcast_server 7000 8000 fine_too).outcome
          ≡ ready (pos 5, to))
        × Gets
            (socket_after (pos 3) (open_broadcast_client 7000 8000 fine).calls none)
            (socket_after (pos 5) (open_broadcast_server 7000 8000 fine_too).calls none)
            to
        × (socket_after (pos 5) (open_broadcast_server 7000 8000 fine_too).calls none ≡ some s)
        × (s.broadcasts ≡ true))
    × ((sock : ℤ) × (to : Address) × (at : Address) × (mreq : IpMreq) × ((open_multicast_server
            inet_addr group 8000 fine).outcome
          ≡ ready (sock, to))
        × (to.sin_addr ≡ inet_addr group)
        × ((open_multicast_client inet_addr 7000 7008 group 8000 fine).outcome
            ≡ ready (sock, (at, mreq)))
        × (mreq.imr_multiaddr ≡ inet_addr group)
        × ((open_multicast_client inet_addr 7000 7008 group 8000 fine).calls
            ≡ (socket sock_dgram 0, pos 3)
              ∷ (setsockopt sock sol_socket so_reuseaddr (u32 7000), pos 0)
              ∷ (setsockopt sock ipproto_ip ip_add_membership (u32 7008), pos 0)
              ∷ []))
setups_meet_example = setups_meet inet_addr group 7000 7008 8000 3 0 0 0 4 5

-- A bind that fails.
no_bind : (open_server_udp 8000 (pos 3 ∷ negsuc 0 ∷ pos 9 ∷ [])).outcome ≡ died
unfolding open_server_udp
no_bind = refl

-- -t 9 -i x -t 5, with an atoi for one digit.
abbrev digit : List ℕ → ℤ
digit (c ∷ rest) = pos (c - b'0')
digit [] = pos 0

abbrev given : List Given
given =
    record { opt = b't'; optarg = b'9' ∷ 0 ∷ [] }
    ∷ record { opt = b'i'; optarg = b'x' ∷ 0 ∷ [] }
    ∷ record { opt = b't'; optarg = b'5' ∷ 0 ∷ [] }
    ∷ []

five_hops : trace_options digit given ≡ record { ip = b'x' ∷ 0 ∷ []; ttl = pos 5 }
unfolding trace_options
five_hops = refl

no_session :
    daemonize (record { fork = pos 0; setsid = negsuc 0; chdir = pos 0 })
    ≡ record { acts = cleared_umask ∷ []; end = exit_failure }
unfolding daemonize
no_session = refl

-- No device: the capture is tried all the same.
abbrev no_device : Pcap
no_device = record {
  findalldevs = some [];
  lookupdev = none;
  lookupnet = false;
  open_live = none;
  compile = true;
  setfilter = true;
}

captures_on_null :
    main no_device (b'l' ∷ [])
    ≡ some (
        error
        ∷ looked_up none
        ∷ error
        ∷ opened none
        ∷ error
        ∷ compiled none
        ∷ filtered none
        ∷ looped none 100000
        ∷ closed none
        ∷ [])
unfolding main on_option capture
captures_on_null = refl

part_arrives : Pipe.main 5 ≡ some (Pipe.hello, b'h' ∷ b'e' ∷ b'l' ∷ b'l' ∷ b'o' ∷ [])
unfolding Pipe.main Pipe.parent Pipe.child strlen text
part_arrives = refl
