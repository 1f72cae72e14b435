-- ===== src/RawSocket/Header.antt =====
-- The IP checksums of raw_socket.
use eltex.Base.{
  ℕ, ◌+◌, ◌-◌, ◌*◌, ◌/◌, ◌%◌, ◌^◌, ◌<◌, ◌≡◌, ◌↔◌, refl, some, none, List, [], ◌∷◌, ◌++◌, arith,
  length, All, IsByte, htons, u16,
}
use eltex.Checksum.{checksum, word_at, add_words}
use eltex.Checksum.Sums.{words, total, sum_of}
use eltex.Checksum.Reference.{residue, checksum-sum}
use eltex.Messages.Sctp.{hello_line}
use eltex.RawSocket.{iphdr, udphdr, client_udp, iphdr_create}

-- The words of the text: 120976 in sum.
module _ (g0 g1 g2 g3 g4 g5 g6 g7 : ℕ) where
  abbrev pub udp_bytes : List ℕ
  udp_bytes = g0 ∷ g1 ∷ g2 ∷ g3 ∷ g4 ∷ g5 ∷ g6 ∷ g7 ∷ []

  abbrev pub udp_sum : ℕ
  udp_sum = word_at g0 g1 + word_at g2 g3 + word_at g4 g5 + word_at g6 g7

  abbrev header_sum : ℕ → ℕ
  header_sum s_addr =
      word_at 0x45 0 + 40 + htons 12345 + word_at 20 17 + s_addr % 65536 + s_addr / 65536

  sum_of-header :
      (c s_addr : ℕ)
      → c < 65536
      → s_addr < 4294967296
      → sum_of (iphdr 40 (htons 12345) 20 c s_addr) ≡ header_sum s_addr + c
  unfolding words total
  sum_of-header c s_addr h h' = omega arith

  sum_of-packet :
      (s_addr : ℕ)
      → s_addr < 4294967296
      → sum_of (iphdr 40 (htons 12345) 20 0 s_addr ++ (udp_bytes ++ hello_line))
        ≡ header_sum s_addr + (udp_sum + 120976)
  unfolding words total
  sum_of-packet s_addr h = omega arith

residue_kept :
    (s g c : ℕ) → 0 < s → c ≡ 65535 - residue (s + g) → (residue (s + c) ≡ 65535) ↔ (g % 65535 ≡ 0)
residue_kept s g c h e = ground arith

-- The IP header that the sender of raw_socket/main.c sends in front of its 20 bytes of UDP is
-- accepted by a receiver, so that the sum over it is 0, exactly if what the array held where the UDP
-- header goes and the text add up to a multiple of 65535: the checksum is taken over all 40 bytes.
pub client_udp-verifies :
    (g0 g1 g2 g3 g4 g5 g6 g7 : ℕ) (behind : List ℕ) (s_addr sin_port : ℕ)
    → All IsByte (udp_bytes g0 g1 g2 g3 g4 g5 g6 g7)
    → s_addr < 4294967296
    → (packet : List ℕ) × (client_udp (udp_bytes g0 g1 g2 g3 g4 g5 g6 g7) behind s_addr sin_port
        ≡ some packet)
      × (length packet ≡ 40)
      × ((checksum packet 20 ≡ some 0) ↔ ((udp_sum g0 g1 g2 g3 g4 g5 g6 g7 + 120976) % 65535 ≡ 0))
unfolding client_udp
client_udp-verifies g0 g1 g2 g3 g4 g5 g6 g7 behind s_addr sin_port bytes h =
    let g = udp_sum g0 g1 g2 g3 g4 g5 g6 g7 + 120976 in
    let before =
      iphdr 40 (htons 12345) 20 0 s_addr ++ (udp_bytes g0 g1 g2 g3 g4 g5 g6 g7 ++ hello_line) in
    let check = 65535 - residue (header_sum g0 g1 g2 g3 g4 g5 g6 g7 s_addr + g) in
    let summed : checksum (before ++ behind) 40 ≡ some check =
      rw (← sum_of-packet g0 g1 g2 g3 g4 g5 g6 g7 s_addr h)
        (checksum-sum before behind (omega (arith, bytes)) (omega arith)) in
    let header = iphdr 40 (htons 12345) 20 check s_addr in
    let rest = udphdr 0 sin_port (htons 20) ++ hello_line in
    let received : checksum (header ++ rest) 20
        ≡ some (65535 - residue (header_sum g0 g1 g2 g3 g4 g5 g6 g7 s_addr + check)) =
      rw (← sum_of-header g0 g1 g2 g3 g4 g5 g6 g7 check s_addr (omega arith) h)
        (checksum-sum header rest (omega arith) (omega arith)) in
    (
      header ++ rest,
      rw summed,
      refl,
      ground (
        arith,
        received,
        residue_kept (header_sum g0 g1 g2 g3 g4 g5 g6 g7 s_addr) g check (omega arith) refl,
      ),
    )

-- A run that is shorter than what is to be summed is read past.
add_words_short :
    (limit : ℕ) (mem : List ℕ) (nleft sum : ℕ)
    → length mem < nleft
    → add_words limit mem nleft sum ≡ none
unfolding add_words
add_words_short limit [] nleft sum h = ground arith
add_words_short limit (b ∷ []) nleft sum h = ground arith
add_words_short limit (lo ∷ hi ∷ rest) nleft sum h =
    ground (arith, add_words_short limit rest (nleft - 2) (sum + word_at lo hi) (omega arith))

checksum_short : (mem : List ℕ) (len : ℕ) → length mem < len → checksum mem len ≡ none
unfolding checksum
checksum_short mem len h = rw (add_words_short (2 ^ 31) mem len 0 h)

-- iphdr_create takes the swapped length for the number of bytes: a packet of less than 256 bytes
-- is read past unless 256 times its length is there.
iphdr_create_overreads :
    (inet_addr : List ℕ → ℕ) (daddr : List ℕ) (tot_len : ℕ) (behind : List ℕ)
    → tot_len < 256
    → 20 + length behind < 256 * tot_len
    → iphdr_create inet_addr daddr tot_len behind ≡ none
unfolding iphdr_create
iphdr_create_overreads inet_addr daddr tot_len behind small short =
    let len = htons (u16 tot_len) in
    let mem = iphdr len (htons 0) 255 0 (inet_addr daddr) ++ behind in
    rw (iphdr_create, checksum_short mem len (omega arith))
