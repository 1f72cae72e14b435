-- ===== src/Sniffer/Callback.antt =====
-- What the handler of a captured packet prints of an IPv4 header.
use eltex.Base.{
  ℕ, ◌+◌, ◌*◌, ◌%◌, ◌≤◌, ◌≡◌, some, List, [], ◌∷◌, ◌++◌, arith, length, All, IsByte,
  get_elem?-IsByte, htons, ◌∙◌,
}
use eltex.Checksum.{checksum}
use eltex.Sniffer.{
  check_sum, print_ipv4, print_protocol, header_at, udp_at, wrong_checksum, ipv4_header,
  protocol_name, udp_header, Ipv4Header, UdpHeader, udp,
}
use eltex.Sniffer.Sum.{check_sum-checksum}

-- A header whose checksum is right, so that its sum is 0, of 20 bytes at least and of the length
-- that its first byte states, is reported as having a wrong checksum, and nothing more is printed
-- of it, when the uninitialised sum starts from 0.
pub print_ipv4-rejects :
    (first : ℕ) (more rest : List ℕ)
    → All IsByte (first ∷ more)
    → 20 ≤ length (first ∷ more)
    → length (first ∷ more) ≡ first % 16 * 4
    → checksum (first ∷ more ++ rest) (length (first ∷ more)) ≡ some 0
    → print_ipv4 0 (first ∷ more ++ rest) ≡ some (wrong_checksum ∷ [])
unfolding print_ipv4
print_ipv4-rejects first more rest h long stated right =
    let zeroed : check_sum 0 (first ∷ more ++ rest) (first % 16 * 4) ≡ some 0 = rw (← stated) (
      check_sum-checksum (first % 16 * 2) (first ∷ more) rest h (omega arith) (omega arith)
      ∙ right) in
    ground (arith, zeroed)

overlay :
    (mem : List ℕ) (h : Ipv4Header) (u : UdpHeader)
    → All IsByte mem
    → header_at mem ≡ some h
    → udp_at mem ≡ some u
    → (u.sport ≡ h.ver_ihl * 256 + h.tos) × (u.dport ≡ htons h.tlen) × (u.len ≡ htons h.ident)
unfolding header_at udp_at
overlay mem h u b e f = ground (
  arith,
  get_elem?-IsByte mem 2 b,
  get_elem?-IsByte mem 3 b,
  get_elem?-IsByte mem 4 b,
  get_elem?-IsByte mem 5 b,
)

-- Whatever `callback` prints of a UDP packet's ports and length comes from the IP header that it
-- printed before: the source port is version, header length and type of service, the
-- destination port is the total length and the UDP length is the identification.
pub print_ipv4-udp :
    (garbage : ℕ) (ipv4 : List ℕ) (h : Ipv4Header) (u : UdpHeader)
    → All IsByte ipv4
    → print_ipv4 garbage ipv4 ≡ some (ipv4_header h ∷ protocol_name udp ∷ udp_header u ∷ [])
    → (u.sport ≡ h.ver_ihl * 256 + h.tos) × (u.dport ≡ htons h.tlen) × (u.len ≡ htons h.ident)
unfolding print_ipv4 print_protocol
print_ipv4-udp garbage ipv4 h u b e = ground (arith, overlay ipv4 h u b)
