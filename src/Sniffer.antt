-- ===== src/Sniffer.antt =====
-- sniffer/main.c: check_sum and callback, the handler of one captured packet.
-- What `callback` prints is its result, in order; `none` is a read past the captured bytes.
-- Capture is main with print_devices, as the calls of libpcap that they make.

pub mod Sum
pub mod Callback
pub mod Capture
use eltex.Base.{
  u16_at, ◌>>=◌, ℕ, ◌+◌, ◌-◌, ◌*◌, ◌%◌, Option, none, some, List, [], ◌∷◌, ltb, ◌==◌, if◌then◌else◌,
  u32, get_elem?, drop,
}
use eltex.Checksum.{word_at, fold_carries, complement}

-- The odd byte is read through `buf`, the first byte of the whole run.
abbrev odd_byte : List ℕ → ℕ → ℕ → Option ℕ
odd_byte buf nbytes sum =
    if nbytes == 1 then (get_elem? buf 0 >>= λ b. some (u32 (sum + word_at b 0))) else some sum

-- `sum` is unsigned, so the additions wrap.
unfoldable pub add_parts : List ℕ → List ℕ → ℕ → ℕ → Option ℕ
add_parts buf [] nbytes sum = if ltb 1 nbytes then none else odd_byte buf nbytes sum
add_parts buf (lo ∷ []) nbytes sum = if ltb 1 nbytes then none else odd_byte buf nbytes sum
add_parts buf (lo ∷ hi ∷ rest) nbytes sum =
    let next = add_parts buf rest (nbytes - 2) (u32 (sum + word_at lo hi)) in
    if ltb 1 nbytes then next else odd_byte buf nbytes sum

-- `sum` is not initialised: `garbage` is what its storage holds.
unfoldable pub check_sum : ℕ → List ℕ → ℕ → Option ℕ
unfolding add_parts fold_carries complement
check_sum garbage buf nbytes = do
  sum ← add_parts buf buf nbytes garbage
  some (complement (u32 (fold_carries sum)))

-- ethernet_header.type and the IP protocols that the two switches tell apart.
pub data Kind : Type 0 where
  arp ip rarp unknown tcp udp icmp : Kind

pub record Ipv4Header : Type 0 where
  pub ver_ihl : ℕ
  pub tos : ℕ
  pub tlen : ℕ
  pub ident : ℕ
  pub offset : ℕ
  pub ttl : ℕ
  pub protocol : ℕ
  pub sum : ℕ

pub record UdpHeader : Type 0 where
  pub sport : ℕ
  pub dport : ℕ
  pub len : ℕ
  pub sum : ℕ

pub data Output : Type 0 where
  ethernet : Kind → Output
  source_mac destination_mac : List ℕ → Output
  wrong_size : ℕ → Output
  wrong_checksum : Output
  ipv4_header : Ipv4Header → Output
  protocol_name : Kind → Output
  udp_header : UdpHeader → Output

-- A `u_short` after `ntohs`.
abbrev pub be16_at : List ℕ → ℕ → Option ℕ
be16_at mem i = do hi ← get_elem? mem i; lo ← get_elem? mem (i + 1); some (hi * 256 + lo)

unfoldable pub mac_at : List ℕ → ℕ → Option (List ℕ)
mac_at mem i = do
  a ← get_elem? mem i
  b ← get_elem? mem (i + 1)
  c ← get_elem? mem (i + 2)
  d ← get_elem? mem (i + 3)
  e ← get_elem? mem (i + 4)
  f ← get_elem? mem (i + 5)
  some (a ∷ b ∷ c ∷ d ∷ e ∷ f ∷ [])

-- `switch (ntohs(eth->type))`: ETHERTYPE_ARP, ETHERTYPE_IP, ETHERTYPE_REVARP.
abbrev pub ether_kind : ℕ → Kind
ether_kind t =
    if t == 0x0806 then arp else if t == 0x0800 then ip else if t == 0x8035 then rarp else unknown

-- `switch (ipv4->protocol)`: IPPROTO_TCP, IPPROTO_UDP, IPPROTO_ICMP, IPPROTO_IP.
abbrev pub protocol_kind : ℕ → Kind
protocol_kind p =
    if p == 6
    then tcp
    else if p == 17
    then udp
    else if p == 1
    then icmp
    else if p == 0
    then ip
    else unknown

-- The fields that `callback` prints with no `ntohs`.
unfoldable pub header_at : List ℕ → Option Ipv4Header
header_at mem = do
  ver_ihl ← get_elem? mem 0
  tos ← get_elem? mem 1
  tlen ← u16_at mem 2
  ident ← u16_at mem 4
  offset ← u16_at mem 6
  ttl ← get_elem? mem 8
  protocol ← get_elem? mem 9
  sum ← u16_at mem 10
  some (record {
    ver_ihl = ver_ihl;
    tos = tos;
    tlen = tlen;
    ident = ident;
    offset = offset;
    ttl = ttl;
    protocol = protocol;
    sum = sum;
  })

-- `udp = (udp_header *)ipv4`: the overlay begins where the IP header does.
unfoldable pub udp_at : List ℕ → Option UdpHeader
udp_at ipv4 = do
  sport ← be16_at ipv4 0
  dport ← be16_at ipv4 2
  len ← be16_at ipv4 4
  sum ← be16_at ipv4 6
  some (record { sport = sport; dport = dport; len = len; sum = sum })

-- The second switch and what follows it.
unfoldable pub print_protocol : List ℕ → Kind → Option (List Output)
print_protocol ipv4 udp = do u ← udp_at ipv4; some (protocol_name udp ∷ udp_header u ∷ [])
print_protocol ipv4 k = some (protocol_name k ∷ [])

-- From `ipv4 = …` on.
unfoldable pub print_ipv4 : ℕ → List ℕ → Option (List Output)
print_ipv4 garbage ipv4 = do
  ver_ihl ← get_elem? ipv4 0
  let ip_size = ver_ihl % 16 * 4
  if ltb ip_size 20 then some (wrong_size ip_size ∷ []) else do
    answer ← check_sum garbage ipv4 ip_size
    if answer == 0 then some (wrong_checksum ∷ []) else do
      h ← header_at ipv4
      more ← print_protocol ipv4 (protocol_kind h.protocol)
      some (ipv4_header h ∷ more)

-- The first switch returns unless the packet is IP.
unfoldable pub print_frame : ℕ → List ℕ → Kind → Option (List Output)
print_frame garbage packet ip = do
  smac ← mac_at packet 6
  dmac ← mac_at packet 0
  more ← print_ipv4 garbage (drop 14 packet)
  some (ethernet ip ∷ source_mac smac ∷ destination_mac dmac ∷ more)
print_frame garbage packet k = some (ethernet k ∷ [])

unfoldable pub callback : ℕ → List ℕ → Option (List Output)
callback garbage packet = do type ← be16_at packet 12; print_frame garbage packet (ether_kind type)
