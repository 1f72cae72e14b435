-- ===== src/Setup/Streams.antt =====
-- The set-ups of sctp/main.c, udp_tcp_client_server/main.c and select_poll_epoll/main.c, each function
-- up to its loop.
use eltex.Base.{ℕ, ◌∷◌, [], List, htons}
use eltex.Base.Int.{ℤ}
use eltex.Setup.{
  Address, socket, bind, setsockopt, listen, accept, connect, Setup, ◌>>=◌, pure, ask, checked,
  sock_stream, sock_dgram, ipproto_sctp, sol_socket, so_reuseaddr, sctp_initmsg, socket_create,
  socket_bind, socket_addrl, socket_addrc, socket_setsockopt, socket_listen,
}

-- sctp/main.c: the two sockets of the server, and the client's.
unfoldable pub open_sctp_server : ℕ → ℕ → Setup (ℤ × ℤ)
open_sctp_server opt_at port = do
  server_sock ← socket_create sock_stream ipproto_sctp
  _ ← socket_bind server_sock (socket_addrl 0 port)
  _ ← socket_setsockopt server_sock ipproto_sctp sctp_initmsg opt_at
  _ ← socket_listen server_sock
  client_sock ← checked (accept server_sock)
  pure (server_sock, client_sock)

abbrev pub localhost : List ℕ
localhost = b'1' ∷ b'2' ∷ b'7' ∷ b'.' ∷ b'0' ∷ b'.' ∷ b'0' ∷ b'.' ∷ b'1' ∷ 0 ∷ []

unfoldable pub open_sctp_client : (List ℕ → ℕ) → ℕ → Setup ℤ
open_sctp_client inet_addr port = do
  server_sock ← socket_create sock_stream ipproto_sctp
  _ ← checked (connect server_sock (socket_addrc inet_addr localhost port))
  pure server_sock

-- udp_tcp_client_server/main.c.
unfoldable pub open_server_udp : ℕ → Setup ℤ
open_server_udp port = do
  sock ← checked (socket sock_dgram 0)
  _ ← checked (bind sock (socket_addrl 0 port))
  pure sock

-- The socket, and the address that the loop sends to.
unfoldable pub open_client_udp : ℕ → Setup (ℤ × Address)
open_client_udp port = do sock ← checked (socket sock_dgram 0); pure (sock, socket_addrl 0 port)

-- What accept returns is not looked at.
unfoldable pub open_server_tcp : ℕ → Setup (ℤ × ℤ)
open_server_tcp port = do
  ssock ← checked (socket sock_stream 0)
  _ ← checked (bind ssock (socket_addrl 0 port))
  _ ← checked (listen ssock 5)
  csock ← ask (accept ssock)
  pure (ssock, csock)

unfoldable pub open_client_tcp : ℕ → Setup ℤ
open_client_tcp port = do
  sock ← checked (socket sock_stream 0)
  _ ← checked (connect sock (socket_addrl 0 port))
  pure sock

-- select_poll_epoll/main.c: socket_create also binds, and socket_setsockopt passes a 1.
unfoldable pub create_bound : ℕ → ℕ → Setup ℤ
create_bound type port = do
  sock ← checked (socket type 0)
  _ ← checked (bind sock (record { sin_port = htons port; sin_addr = 0 }))
  pure sock

unfoldable pub set_flag : ℤ → ℕ → Setup ℤ
set_flag sock flag = checked (setsockopt sock sol_socket flag 1)

-- The datagram socket and the one that listens.
unfoldable pub open_select : Setup (ℤ × ℤ)
open_select = do
  udpsock ← create_bound sock_dgram 8000
  tcpsock ← create_bound sock_stream 8001
  _ ← set_flag udpsock so_reuseaddr
  _ ← set_flag tcpsock so_reuseaddr
  _ ← socket_listen tcpsock
  pure (udpsock, tcpsock)
