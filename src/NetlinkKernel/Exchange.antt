-- ===== src/NetlinkKernel/Exchange.antt =====
-- What the program and the module of netlink_kernel say to each other.
use eltex.Base.{ℕ, ◌<◌, List, ◌∷◌, ◌++◌, take, drop, bytes16, bytes32, if◌then◌else◌, ◌&&◌}
use eltex.NetlinkKernel.{
  hello, hello_from_kernel, space, Netlink, fill_payload, nlmsg_done, End, printed, blocked, Calls,
}

-- What the module gets of a request.
abbrev sent : ℕ → List ℕ → List ℕ
sent pid stack =
    bytes32 space
      (bytes16 26 (bytes16 769 (bytes32 1 (bytes32 pid (hello ++ 0 ∷ take 8186 (drop 22 stack))))))

module _ (k : Netlink) (pid : ℕ) (stack : List ℕ) (number : pid < 4294967296) where
  abbrev pub reply : List ℕ
  reply = fill_payload (k.nlmsg_put nlmsg_done 17) hello_from_kernel

  -- What the program prints, or why it does not, as the calls go.
  abbrev pub ending : Calls → End
  ending calls =
      if calls.recvmsg
      then (if k.nlmsg_new && calls.nlmsg_unicast then printed hello_from_kernel else blocked)
      else printed hello
