-- ===== src/Proxy/Hooks.antt =====
-- proxy_server.c: hook_in_packets, hook_out_packets and create_packet. The tree under `dns_tree`
-- is passed in and handed back. `none` is a read or write outside the memory of a packet or an
-- array, or a store through the NULL of a failed kmalloc, which neither hook tests for.
-- Not modelled: what pr_info prints, the routing entry that create_packet copies from the query,
-- and kfree; where an answer is refused the node that was allocated for it is never freed.
pub mod Learn
pub mod Relay
pub mod Reply
pub mod Keeps
use eltex.Base.{
  u32_at, bytes32, ◌>>=◌, ℕ, ◌+◌, ◌-◌, ◌*◌, ◌/◌, ◌%◌, ◌≡◌, Bool, false, not, Option, none, some,
  List, [], ◌∷◌, ◌++◌, ◌==◌, if◌then◌else◌, get_elem?, drop, length, htons, u32,
}
use eltex.Base.Int.{ℤ, pos, negsuc, eqb_ℤ}
use eltex.Cstring.{strlen, strncpy}
use eltex.Proxy.Cache.{DnsNode, Tree, Rebalance, search, insert}
use eltex.Proxy.Packet.{Skb, ntohs_at, overwrite, dnshdr_size, r_data_size}

-- The kernel functions that the module calls. skb_copy_expand copies the packet and gives it
-- r_data_size bytes of tailroom; ip_local_out is what the network does with a reply.
pub record Kernel : Type 0 where
  pub rebalance : Rebalance
  pub skb_copy_expand : Skb → Option Skb
  pub ip_local_out : Skb → ℤ
  pub copied :
      (s t : Skb)
      → skb_copy_expand s ≡ some t
      → (tail : List ℕ) × (length tail ≡ r_data_size)
        × (t ≡ record s { payload = s.payload ++ tail })

-- Whether the two allocations of a call succeed.
pub record Allocation : Type 0 where
  pub hname : Bool
  pub node : Bool

pub data Verdict : Type 0 where
  nf_accept nf_drop : Verdict

abbrev pub hostname_len : ℕ
hostname_len = 255

abbrev pub ipproto_udp : ℕ
ipproto_udp = 17

-- `dns_port = htons(53)`.
abbrev pub dns_port : ℕ
dns_port = htons 53

abbrev pub store_to {ℓ} : {A : Type ℓ} → Bool → Option A → Option A
store_to allocated r = if allocated then r else none

-- `ntohs(type) != 1 && ntohs(data_len) != 4`: the length is read only for another type.
abbrev pub not_an_address : List ℕ → ℕ → ℕ → Option Bool
not_an_address p at type =
    if type == 1 then some false else (ntohs_at p (at + 10) >>= λ n. some (not (n == 4)))

-- The new node is filled from the r_data at `at` and inserted.
unfoldable pub remember : Kernel → Tree → List ℕ → List ℕ → ℕ → Option Tree
remember k root p hname at = do
  addr ← u32_at p (at + 12)
  ttl ← u32_at p (at + 6)
  host ← strncpy hostname_len hname
  elim (insert k.rebalance root (record { host_name = host; addr = addr; ttl = ttl })) [
    | none ↦ none
    | some (u, n) ↦ some u
  ]

-- The answer of a name that is not in the tree: `at` is where its r_data stands.
unfoldable pub learn : Kernel → Bool → Tree → List ℕ → List ℕ → ℕ → Option Tree
learn k allocated root p hname at = do
  type ← ntohs_at p (at + 2)
  refused ← not_an_address p at type
  if refused then some root else store_to allocated (remember k root p hname at)

-- The part of `hook_in_packets` behind its two guards.
unfoldable pub receive : Kernel → Allocation → Tree → List ℕ → Option Tree
receive k a root p = do
  hname ← store_to a.hname (strncpy hostname_len (drop dnshdr_size p))
  name_len ← strlen hname
  found ← search root hname
  elim found [
    | some d ↦ some root
    | none ↦ learn k a.node root p hname (dnshdr_size + name_len + 5)
  ]

-- It accepts every packet; what it changes is the tree.
unfoldable pub hook_in_packets : Kernel → Allocation → Tree → Skb → Option (Tree × Verdict)
hook_in_packets k a root skb =
    if not (skb.protocol == ipproto_udp)
    then some (root, nf_accept)
    else if not (skb.source == dns_port)
    then some (root, nf_accept)
    else receive k a root skb.payload >>= λ u. some (u, nf_accept)

-- The bit fields rd, qr of the third byte of a DNS header, and ra, ad of the fourth.
abbrev pub as_response : ℕ → ℕ
as_response b = (b - b % 2 + 1) % 128 + 128

abbrev pub as_available : ℕ → ℕ
as_available b = let set = b % 128 + 128 in set - set / 32 % 2 * 32

-- q_count 1, ans_count 1, auth_count 0, add_count 0, in network order.
abbrev pub counts : List ℕ
counts = 0 ∷ 1 ∷ 0 ∷ 1 ∷ 0 ∷ 0 ∷ 0 ∷ 0 ∷ []

-- struct r_data of the reply: a pointer to the name, type A, class IN, ttl, length 4, address.
abbrev pub r_data : DnsNode → List ℕ
r_data d = 0xc0 ∷ 0x0c ∷ 0 ∷ 1 ∷ 0 ∷ 1 ∷ bytes32 d.ttl (0 ∷ 4 ∷ bytes32 d.addr [])

-- What create_packet writes behind the UDP header.
unfoldable pub answer : List ℕ → DnsNode → Option (List ℕ)
answer p d = do
  flags ← get_elem? p 2
  more_flags ← get_elem? p 3
  name_len ← strlen d.host_name
  header ← overwrite 2 (as_response flags ∷ as_available more_flags ∷ counts) p
  overwrite (dnshdr_size + name_len + 5) (r_data d) header

-- The headers of the reply: endpoints exchanged, lengths grown; the UDP checksum stays.
unfoldable pub reply : Skb → List ℕ → Skb
reply skb p = record skb {
  size = u32 (skb.size + r_data_size);
  tot_len = htons (u32 (skb.size + r_data_size));
  saddr = skb.daddr;
  daddr = skb.saddr;
  dest = skb.source;
  source = skb.dest;
  udp_len = htons (htons skb.udp_len + r_data_size);
  payload = p;
}

-- What it returns, and the packet that it handed to ip_local_out.
unfoldable pub create_packet : Kernel → Skb → DnsNode → Option (ℤ × Option Skb)
create_packet k skb_old d = elim (k.skb_copy_expand skb_old) [
  | none ↦ some (negsuc 0, none)
  | some skb ↦ answer skb.payload d >>= λ p. some (k.ip_local_out (reply skb p), some (reply skb p))
]

abbrev pub verdict_of : ℤ × Option Skb → Verdict × Option Skb
verdict_of (ret_val, sent) = (if eqb_ℤ ret_val (pos 0) then nf_drop else nf_accept, sent)

unfoldable pub look_up : Kernel → Bool → Tree → Skb → Option (Verdict × Option Skb)
look_up k allocated root skb = do
  hname ← store_to allocated (strncpy hostname_len (drop dnshdr_size skb.payload))
  name_len ← strlen hname
  found ← search root hname
  elim found [
    | none ↦ some (nf_accept, none)
    | some d ↦ create_packet k skb d >>= λ r. some (verdict_of r)
  ]

unfoldable pub hook_out_packets : Kernel → Bool → Tree → Skb → Option (Verdict × Option Skb)
hook_out_packets k allocated root skb =
    if not (skb.protocol == ipproto_udp)
    then some (nf_accept, none)
    else if not (skb.dest == dns_port)
    then some (nf_accept, none)
    else look_up k allocated root skb
