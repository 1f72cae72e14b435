-- ===== src/Setup/Groups.antt =====
-- broadcast_multicast/main.c: the four programs up to their loops. `opt_at` and `mreq_at` are where
-- their variables opt and mreq stand in memory.
use eltex.Base.{ℕ, List}
use eltex.Base.Int.{ℤ}
use eltex.Setup.{
  Address, Setup, ◌>>=◌, pure, sock_dgram, ipproto_ip, sol_socket, so_reuseaddr, so_broadcast,
  ip_add_membership, socket_create, socket_bind, socket_addrl, socket_addrc, socket_setsockopt,
}

-- INADDR_BROADCAST and INADDR_ANY.
abbrev pub inaddr_broadcast : ℕ
inaddr_broadcast = 4294967295

abbrev pub inaddr_any : ℕ
inaddr_any = 0

-- The socket, and the address that the loop sends to.
unfoldable pub open_broadcast_server : ℕ → ℕ → Setup (ℤ × Address)
open_broadcast_server opt_at port = do
  sock ← socket_create sock_dgram 0
  _ ← socket_setsockopt sock sol_socket so_broadcast opt_at
  let addr = socket_addrl inaddr_broadcast port
  _ ← socket_bind sock addr
  pure (sock, addr)

unfoldable pub open_broadcast_client : ℕ → ℕ → Setup ℤ
open_broadcast_client opt_at port = do
  sock ← socket_create sock_dgram 0
  _ ← socket_setsockopt sock sol_socket so_broadcast opt_at
  _ ← socket_bind sock (socket_addrl inaddr_broadcast port)
  pure sock

unfoldable pub open_multicast_server : (List ℕ → ℕ) → List ℕ → ℕ → Setup (ℤ × Address)
open_multicast_server inet_addr addrgroup port = do
  sock ← socket_create sock_dgram 0
  pure (sock, socket_addrc inet_addr addrgroup port)

-- struct ip_mreq.
pub record IpMreq : Type 0 where
  pub imr_multiaddr : ℕ
  pub imr_interface : ℕ

-- The address is filled and never bound; `mreq` is what its variable holds.
unfoldable pub open_multicast_client :
    (List ℕ → ℕ) → ℕ → ℕ → List ℕ → ℕ → Setup (ℤ × (Address × IpMreq))
open_multicast_client inet_addr opt_at mreq_at addrgroup port = do
  sock ← socket_create sock_dgram 0
  _ ← socket_setsockopt sock sol_socket so_reuseaddr opt_at
  let addr = socket_addrl inaddr_any port
  let mreq : IpMreq = record { imr_multiaddr = inet_addr addrgroup; imr_interface = 0 }
  _ ← socket_setsockopt sock ipproto_ip ip_add_membership mreq_at
  pure (sock, (addr, mreq))
