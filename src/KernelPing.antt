-- ===== src/KernelPing.antt =====
-- core/netfilter/ping/kernel_ping.c: the echo request that the module sends when it is loaded.
-- Not modelled: the room in the socket buffer, the route and the device it is given, and printing.
pub mod Header
use eltex.Base.{
  ℕ, zero, suc, ◌+◌, ◌-◌, ◌*◌, ◌/◌, ◌%◌, ◌≡◌, ◌≤◌, Bool, true, false, Option, none, some, List, [],
  ◌∷◌, ◌==◌, if◌then◌else◌, ◌>>=◌, length, All, IsByte, htons, u32,
}
use eltex.Base.Int.{ℤ, pos, negsuc}
use eltex.Decimal.{scan_int}
use eltex.Checksum.Sums.{words}
use eltex.Checksum.Reference.{ones_sum}

-- The format goes on behind a number if a '.' stands there.
abbrev pub after_dot : List ℕ → Option (List ℕ)
after_dot [] = none
after_dot (c ∷ s) = if c == b'.' then some s else none

-- sscanf with one "%d" for each variable and a '.' between them: what the variables hold then. One
-- that is not reached keeps what it held.
unfoldable pub scan_dotted : List ℤ → List ℕ → Option (List ℤ)
scan_dotted [] s = some []
scan_dotted (g ∷ gs) s = scan_int s >>= λ r. elim r [
  | none ↦ some (g ∷ gs)
  | some (v, rest) ↦ elim (after_dot rest) [
    | none ↦ some (v ∷ gs)
    | some t ↦ scan_dotted gs t >>= λ vs. some (v ∷ vs)
  ]
]

-- An int stored in a char.
abbrev pub char_of : ℤ → ℕ
char_of (pos n) = n % 256
char_of (negsuc n) = 255 - n % 256

abbrev pub word_of : List ℤ → ℕ
word_of (a ∷ b ∷ c ∷ d ∷ []) =
    char_of a + 256 * char_of b + 65536 * char_of c + 16777216 * char_of d
word_of _ = 0

-- `garbage` is what its four variables hold before.
unfoldable pub inet_addr : List ℤ → List ℕ → Option ℕ
inet_addr garbage str = scan_dotted garbage str >>= λ vs. some (word_of vs)

-- "192.168.5.2" and "8.8.8.8".
abbrev pub saddr_text : List ℕ
saddr_text = b'1' ∷ b'9' ∷ b'2' ∷ b'.' ∷ b'1' ∷ b'6' ∷ b'8' ∷ b'.' ∷ b'5' ∷ b'.' ∷ b'2' ∷ 0 ∷ []

abbrev pub daddr_text : List ℕ
daddr_text = b'8' ∷ b'.' ∷ b'8' ∷ b'.' ∷ b'8' ∷ b'.' ∷ b'8' ∷ 0 ∷ []

-- What the kernel answers: whether there is memory, the index of the device "ens3" if there is
-- one, and what the memory holds where the ICMP checksum goes. ip_compute_csum is documented
-- as the Internet checksum.
pub record Kernel : Type 0 where
  pub alloc_skb : Bool
  pub dev_get_by_name : Option ℕ
  pub stale_low : ℕ
  pub stale_high : ℕ
  pub ip_compute_csum : List ℕ → ℕ
  pub computes :
      (mem : List ℕ)
      → All IsByte mem
      → length mem ≤ 65535
      → ip_compute_csum mem ≡ 65535 - ones_sum (words mem)

pub record Packet : Type 0 where
  pub ihl : ℕ
  pub version : ℕ
  pub tos : ℕ
  pub tot_len : ℕ
  pub id : ℕ
  pub frag_off : ℕ
  pub ttl : ℕ
  pub protocol : ℕ
  pub check : ℕ
  pub saddr : ℕ
  pub daddr : ℕ
  pub icmp : List ℕ

-- ICMP_ECHO with identifier 0 and sequence 1231 in the host's order, and its checksum's two bytes.
abbrev pub echo_header : ℕ → ℕ → List ℕ
echo_header low high = 8 ∷ 0 ∷ low ∷ high ∷ 0 ∷ 0 ∷ 1231 % 256 ∷ 1231 / 256 ∷ []

abbrev pub packet_of : Kernel → ℕ → ℕ → Packet
packet_of k saddr daddr =
    let csum = k.ip_compute_csum (echo_header k.stale_low k.stale_high) in
    record {
      ihl = 5;
      version = 4;
      tos = 0;
      tot_len = htons 28;
      id = htons 12345;
      frag_off = 0;
      ttl = 255;
      protocol = 1;
      check = 0;
      saddr = saddr;
      daddr = daddr;
      icmp = echo_header (csum % 256) (csum / 256);
    }

-- What it returns, and the packet that it hands to ip_local_out; `none` is a NULL followed.
unfoldable pub create_packet : Kernel → List ℤ → Option (ℤ × Option Packet)
create_packet k garbage =
    if k.alloc_skb
    then (do
      saddr ← inet_addr garbage saddr_text
      daddr ← inet_addr garbage daddr_text
      ifindex ← k.dev_get_by_name
      some (pos 0, some (packet_of k saddr daddr)))
    else some (negsuc 0, none)
