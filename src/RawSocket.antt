-- ===== src/RawSocket.antt =====
-- raw_socket/socket.c and the sender of raw_socket/main.c: IP and UDP headers as the bytes that stand in
-- memory, and the packet that is sent again and again. `none` is a read past the memory given.
-- Not modelled: creating, binding and closing sockets; the receiver of main.c is in Messages.Sctp.
pub mod Header
use eltex.Base.{
  ◌>>=◌, ℕ, ◌+◌, ◌/◌, ◌%◌, Option, some, List, [], ◌∷◌, ◌++◌, htons, u16, bytes16, bytes32,
}
use eltex.Checksum.{checksum}
use eltex.Messages.Sctp.{hello_line}

-- struct iphdr with `ihl` 5, `version` 4, no type of service, no fragment and no source, of the
-- protocol UDP; the words are as the host stores them.
abbrev pub iphdr : ℕ → ℕ → ℕ → ℕ → ℕ → List ℕ
iphdr tot_len id ttl check daddr =
    0x45
    ∷ 0
    ∷ bytes16 tot_len
        (bytes16 id (0 ∷ 0 ∷ ttl ∷ 17 ∷ bytes16 check (0 ∷ 0 ∷ 0 ∷ 0 ∷ bytes32 daddr [])))

-- struct udphdr: source, destination, length and checksum.
abbrev pub udphdr : ℕ → ℕ → ℕ → List ℕ
udphdr source dest len = bytes16 source (bytes16 dest (bytes16 len (0 ∷ 0 ∷ [])))

-- The header in front of what stands behind it in memory; inet_addr is the C library's.
unfoldable pub iphdr_create : (List ℕ → ℕ) → List ℕ → ℕ → List ℕ → Option (List ℕ)
iphdr_create inet_addr daddr tot_len behind = do
  let len = htons (u16 tot_len)
  check ← checksum (iphdr len (htons 0) 255 0 (inet_addr daddr) ++ behind) len
  some (iphdr len (htons 0) 255 check (inet_addr daddr) ++ behind)

unfoldable pub udphdr_create : ℕ → ℕ → ℕ → List ℕ
udphdr_create dport sport length = udphdr (htons sport) (htons dport) (htons (u16 (8 + length)))

-- What sendto is given: `garbage` are the eight bytes of the array where the UDP header goes,
-- which the checksum sees, and `behind` those after the text.
unfoldable pub client_udp : List ℕ → List ℕ → ℕ → ℕ → Option (List ℕ)
client_udp garbage behind s_addr sin_port = do
  check ← checksum ((iphdr 40 (htons 12345) 20 0 s_addr ++ (garbage ++ hello_line)) ++ behind) 40
  some (iphdr 40 (htons 12345) 20 check s_addr ++ (udphdr 0 sin_port (htons 20) ++ hello_line))
