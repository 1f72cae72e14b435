-- ===== src/Setup/Failures.antt =====
-- Which calls before the loops are tested, and what the tested ones leave for the loops.
use eltex.Base.{refl, ℕ, ◌≡◌, List, [], ◌∷◌}
use eltex.Base.Int.{ℤ, pos, negsuc}
use eltex.Setup.{
  Call, ready, Setup, ◌>>=◌, checked, sock_stream, sock_dgram, socket_create, socket_bind,
  socket_setsockopt, socket_listen,
}
use eltex.Setup.Checked.{IsChecked, pure-IsChecked, checked-IsChecked, bind-IsChecked}
use eltex.Setup.Groups.{
  open_broadcast_server, open_broadcast_client, open_multicast_server, open_multicast_client,
}
use eltex.Setup.Streams.{
  open_sctp_server, open_sctp_client, open_server_udp, open_client_udp, open_server_tcp,
  open_client_tcp, create_bound, set_flag, open_select,
}

checked_then :
    {A : Type 0} (c : Call) (f : ℤ → Setup A)
    → ((a : ℤ) → IsChecked (f a))
    → IsChecked (checked c >>= f)
checked_then c f k = bind-IsChecked (checked c) f (checked-IsChecked c) k

create_bound-IsChecked : (type port : ℕ) → IsChecked (create_bound type port)
unfolding create_bound
create_bound-IsChecked type port =
    checked_then _ _ (λ sock. checked_then _ _ (λ r. pure-IsChecked sock))

module _ (inet_addr : List ℕ → ℕ) (addrgroup : List ℕ) (opt_at mreq_at port : ℕ) where
  -- Whatever the kernel answers to the set-up of the four programs of broadcast_multicast, of both
  -- sides of sctp, of the two clients and the datagram server of udp_tcp_client_server and of
  -- select_poll_epoll: the first call that fails ends the program with no call behind it, and a
  -- set-up that comes to its loop made no call that failed. Not so server_tcp, which comes to its
  -- loop with what a failed accept returned.
  pub setups-IsChecked :
      IsChecked (open_broadcast_server opt_at port)
      × IsChecked (open_broadcast_client opt_at port)
      × IsChecked (open_multicast_server inet_addr addrgroup port)
      × IsChecked (open_multicast_client inet_addr opt_at mreq_at addrgroup port)
      × IsChecked (open_sctp_server opt_at port)
      × IsChecked (open_sctp_client inet_addr port)
      × IsChecked (open_server_udp port)
      × IsChecked (open_client_udp port)
      × IsChecked (open_client_tcp port)
      × IsChecked open_select
      × ((s b l e : ℕ)
          → (open_server_tcp port (pos s ∷ pos b ∷ pos l ∷ negsuc e ∷ [])).outcome
            ≡ ready (pos s, negsuc e))
  unfolding open_broadcast_server open_broadcast_client open_multicast_server open_multicast_client
      open_sctp_server open_sctp_client open_server_udp open_client_udp open_client_tcp open_select
      set_flag open_server_tcp socket_create socket_setsockopt socket_bind socket_listen
  setups-IsChecked = (
    checked_then _ _ (λ sock. checked_then _ _ (λ r. checked_then _ _ (λ q. λ answers. tt))),
    checked_then _ _ (λ sock. checked_then _ _ (λ r. checked_then _ _ (λ q. λ answers. tt))),
    checked_then _ _ (λ sock. λ answers. tt),
    checked_then _ _ (λ sock. checked_then _ _ (λ r. checked_then _ _ (λ q. λ answers. tt))),
    checked_then _ _ (λ sock. checked_then _ _ (λ r.
        checked_then _ _
          (λ q. checked_then _ _ (λ l. checked_then _ _ (λ client. λ answers. tt))))),
    checked_then _ _ (λ sock. checked_then _ _ (λ r. λ answers. tt)),
    checked_then _ _ (λ sock. checked_then _ _ (λ r. λ answers. tt)),
    checked_then _ _ (λ sock. λ answers. tt),
    checked_then _ _ (λ sock. checked_then _ _ (λ r. λ answers. tt)),
    bind-IsChecked _ _ (create_bound-IsChecked sock_dgram 8000) (λ udp.
        bind-IsChecked _ _ (create_bound-IsChecked sock_stream 8001) (λ tcp.
          checked_then _ _ (λ r. checked_then _ _ (λ q. checked_then _ _ (λ l. λ answers. tt))))),
    λ s b l e. refl,
  )
