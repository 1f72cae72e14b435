-- ===== src/Examples/Packets.antt =====
-- sniffer/main.c on one IPv4 header, and port_block on one packet.
use eltex.Base.{ℕ, ◌≡◌, refl, some, List, [], ◌∷◌, ◌++◌, arith}
use eltex.Checksum.{checksum, add_words, fold_carries, complement}
use eltex.Sniffer.{
  check_sum, add_parts, print_ipv4, print_protocol, header_at, udp_at, wrong_checksum, ipv4_header,
  protocol_name, udp_header, Ipv4Header, UdpHeader, udp,
}
use eltex.Sniffer.Sum.{check_sum-checksum}
use eltex.Sniffer.Callback.{print_ipv4-rejects}
use eltex.PortBlock.{Packet, port}

-- A UDP header of 28 bytes from 10.0.0.1 to 10.0.0.2, but for its first byte, with the right sum.
abbrev more : List ℕ
more = 0 ∷ 0 ∷ 28 ∷ 0 ∷ 1 ∷ 0 ∷ 0 ∷ 64 ∷ 17 ∷ 0x66 ∷ 0xce ∷ 10 ∷ 0 ∷ 0 ∷ 1 ∷ 10 ∷ 0 ∷ 0 ∷ 2 ∷ []

abbrev eight : List ℕ
eight = 0 ∷ 53 ∷ 4 ∷ 0 ∷ 0 ∷ 8 ∷ 0 ∷ 0 ∷ []

-- The same header with a sum that is wrong.
abbrev damaged : List ℕ
damaged =
    0x45 ∷ 0 ∷ 0 ∷ 28 ∷ 0 ∷ 1 ∷ 0 ∷ 0 ∷ 64 ∷ 17 ∷ 0x66 ∷ 0xcf ∷ 10 ∷ 0 ∷ 0 ∷ 1 ∷ 10 ∷ 0 ∷ 0 ∷ 2 ∷ []

right : checksum (0x45 ∷ more ++ eight) 20 ≡ some 0
unfolding checksum add_words fold_carries complement
right = refl

check_sum-checksum_example : check_sum 0 (damaged ++ eight) 20 ≡ checksum (damaged ++ eight) 20
check_sum-checksum_example = check_sum-checksum 10 damaged eight (omega arith) refl (omega arith)

print_ipv4-rejects_example : print_ipv4 0 (0x45 ∷ more ++ eight) ≡ some (wrong_checksum ∷ [])
print_ipv4-rejects_example =
    print_ipv4-rejects 0x45 more eight (omega arith) (omega arith) refl right

abbrev damaged_header : Ipv4Header
damaged_header = record {
  ver_ihl = 0x45;
  tos = 0;
  tlen = 0x1c00;
  ident = 0x100;
  offset = 0;
  ttl = 64;
  protocol = 17;
  sum = 0xcf66;
}

abbrev damaged_udp : UdpHeader
damaged_udp = record { sport = 0x4500; dport = 28; len = 1; sum = 0 }

printed :
    print_ipv4 0 damaged
    ≡ some (ipv4_header damaged_header ∷ protocol_name udp ∷ udp_header damaged_udp ∷ [])
unfolding print_ipv4 print_protocol header_at udp_at check_sum add_parts fold_carries complement
printed = refl

-- A UDP packet to port 7777.
abbrev to_port : Packet
to_port = record { protocol = 17; source = 5; dest = port }
