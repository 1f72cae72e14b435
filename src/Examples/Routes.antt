-- ===== src/Examples/Routes.antt =====
-- netlink_recv.c: a reply with a route of the main table and an acknowledgement; kernel_ping.c; and
-- the two halves of core/shadow.
use eltex.Base.{
  ℕ, ◌+◌, ◌*◌, ◌-◌, ◌%◌, ◌≤◌, ◌≡◌, ◌≢◌, ◌↔◌, refl, some, none, true, List, [], ◌∷◌, ◌++◌, arith,
  length, drop, suc, replicate, if◌then◌else◌,
}
use eltex.Base.Int.{ℤ, pos, negsuc, eqb_ℤ}
use eltex.Decimal.{decimal}
use eltex.Cstring.{text}
use eltex.Checksum.{checksum, word_at}
use eltex.Checksum.Sums.{words}
use eltex.Checksum.Reference.{ones_sum}
use eltex.KernelPing.{Kernel, Packet, inet_addr, create_packet}
use eltex.KernelPing.Header.{create_packet-verifies}
use eltex.NetlinkRoute.{Output, System, ntoa, reply_msg}
use eltex.NetlinkRoute.Address.{inet_addr-ntoa}
use eltex.NetlinkRoute.Encoding.{encode_attr, encode_attrs}
use eltex.NetlinkRoute.Routes.{Route, Sent, route_sent, plain, encode_all, all_lines}
use eltex.NetlinkRoute.Bounds.{reply_msg-bounds}
use eltex.NetlinkRoute.Replies.{reply_msg-encode_all}
use eltex.Shadow.{UserCopy, Cred, main}
use eltex.Shadow.Raised.{main-raises}

-- Interface 2 is eth0.
abbrev routes_system : System
routes_system = record {
  if_indextoname = λ i. some (b'e' ∷ b't' ∷ b'h' ∷ b'0' ∷ []);
  garbage = λ left. record { dst_addr = left; src_addr = 0; gateway = 0; if_name = [] };
}

-- 10.0.0.0 over 10.0.0.1, on interface 2.
abbrev default_route : Route
default_route = record {
  ten = replicate 10 0;
  family = 2;
  dst_len = 8;
  src_len = 0;
  tos = 0;
  table = 254;
  seven = replicate 7 0;
  attrs =
      record { type = 1; b0 = 10; b1 = 0; b2 = 0; b3 = 0; more = [] }
      ∷ record { type = 5; b0 = 10; b1 = 0; b2 = 0; b3 = 1; more = [] }
      ∷ record { type = 4; b0 = 2; b1 = 0; b2 = 0; b3 = 0; more = [] }
      ∷ [];
}

abbrev reply : List Sent
reply =
    route_sent default_route
    ∷ plain (record { type = 2; ten = replicate 10 0; body = 1 ∷ 2 ∷ [] })
    ∷ []

reply_msg-encode_all_example :
    reply_msg routes_system (pos (length (encode_all reply))) (encode_all reply ++ 9 ∷ [])
    ≡ some (pos 0, all_lines routes_system reply)
reply_msg-encode_all_example = reply_msg-encode_all routes_system reply (9 ∷ []) (
  (
    (omega arith, refl, (unfold encode_attrs encode_attr in omega arith)),
    refl,
    ((omega arith, omega arith), ((omega arith, omega arith), ((omega arith, omega arith), tt))),
  ),
  (((omega arith, refl, omega arith), λ e. ground (arith, e)), tt),
)

-- A message of type 24 that ends before the fields that are read of it.
abbrev cut_short : List ℕ
cut_short = 16 ∷ 0 ∷ 0 ∷ 0 ∷ 24 ∷ 0 ∷ replicate 15 254

reply_msg-bounds_example :
    (out : List Output) × (reply_msg routes_system (pos 16) cut_short ≡ some (pos 0, out))
reply_msg-bounds_example = reply_msg-bounds routes_system 16 cut_short (omega arith)

inet_addr-ntoa_example :
    (s : List ℕ) × (ntoa 0x0205a8c0 ≡ some s)
    × (length s ≤ 15)
    × (inet_addr (pos 7 ∷ negsuc 1 ∷ pos 0 ∷ pos 300 ∷ []) (s ++ 0 ∷ 5 ∷ []) ≡ some 0x0205a8c0)
inet_addr-ntoa_example =
    inet_addr-ntoa 0x0205a8c0 (pos 7) (negsuc 1) (pos 0) (pos 300) (5 ∷ []) (omega arith)

-- The memory that the kernel gives was not zero.
abbrev machine : Kernel
machine = record {
  alloc_skb = true;
  dev_get_by_name = some 2;
  stale_low = 3;
  stale_high = 0;
  ip_compute_csum = λ mem. 65535 - ones_sum (words mem);
  computes = λ mem bytes small. refl;
}

create_packet-verifies_example :
    (p : Packet) × (create_packet machine (pos 0 ∷ pos 0 ∷ pos 0 ∷ pos 0 ∷ [])
      ≡ some (pos 0, some p))
    × (p.saddr ≡ 192 + 256 * 168 + 65536 * 5 + 16777216 * 2)
    × (p.daddr ≡ 8 + 256 * 8 + 65536 * 8 + 16777216 * 8)
    × ((checksum p.icmp 8 ≡ some 0) ↔ (word_at 3 0 % 65535 ≡ 0))
create_packet-verifies_example =
    create_packet-verifies machine (pos 0) (pos 0) (pos 0) (pos 0) 2 refl refl (omega arith)
      (omega arith)

abbrev copying : UserCopy
copying = record {
  strncpy_from_user = λ n old source. text source ++ 0 ∷ drop (suc (length (text source))) old;
  copies = λ n old source ends short. refl;
}

-- Process 321 is there.
abbrev shadow_system : eltex.Shadow.System
shadow_system = record {
  msg = replicate 5 0;
  m_pid_task = pos 0;
  tasks = λ p. if eqb_ℤ p (pos 321) then some (record { euid = 1000; fsuid = 1000 }) else none;
}

main-raises_example :
    (t : eltex.Shadow.System) × (main copying shadow_system (1 ∷ 2 ∷ 3 ∷ 4 ∷ []) 321
      ≡ some (t, length (decimal 321)))
    × (t.tasks (pos 321) ≡ some (record { euid = 0; fsuid = 0 }))
    × ((p : ℤ) → p ≢ pos 321 → t.tasks p ≡ shadow_system.tasks p)
main-raises_example =
    main-raises copying shadow_system (1 ∷ 2 ∷ 3 ∷ 4 ∷ []) 321
      (record { euid = 1000; fsuid = 1000 }) refl (omega arith)
