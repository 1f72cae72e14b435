-- ===== src/NetlinkRoute/Address.antt =====
-- ntoa of netlink_recv.c, and inet_addr of core/netfilter/ping/kernel_ping.c, which reads what it writes.
use eltex.Base.{
  ℕ, ◌/◌, ◌%◌, ◌≤◌, ◌<◌, ◌≡◌, refl, ap, some, List, [], ◌∷◌, ◌++◌, arith, length, length-append,
}
use mathlib.Core.List.{append_assoc, append-nil}
use eltex.Base.Int.{ℤ, pos}
use eltex.Decimal.{decimal}
use eltex.Decimal.Printed.{length-decimal_byte}
use eltex.Decimal.ReadBack.{scan_int-decimal}
use eltex.KernelPing.{scan_dotted, inet_addr}
use eltex.NetlinkRoute.{ntoa}

abbrev dotted : ℕ → ℕ → ℕ → ℕ → List ℕ → List ℕ
dotted a b c d rest =
    decimal a ++ b'.' ∷ (decimal b ++ b'.' ∷ (decimal c ++ b'.' ∷ (decimal d ++ rest)))

-- Four bytes and three dots.
length-dotted :
    (a b c d : ℕ) → a < 256 → b < 256 → c < 256 → d < 256 → length (dotted a b c d []) ≤ 15
length-dotted a b c d ha hb hc hd = omega (
  arith,
  length-append (decimal a) (b'.' ∷ (decimal b ++ b'.' ∷ (decimal c ++ b'.' ∷ (decimal d ++ [])))),
  length-append (decimal b) (b'.' ∷ (decimal c ++ b'.' ∷ (decimal d ++ []))),
  length-append (decimal c) (b'.' ∷ (decimal d ++ [])),
  length-append (decimal d) [],
  length-decimal_byte a ha,
  length-decimal_byte b hb,
  length-decimal_byte c hc,
  length-decimal_byte d hd,
)

scan_dot :
    (n : ℕ) (g : ℤ) (gs : List ℤ) (rest : List ℕ) (vs : List ℤ)
    → n < 256
    → scan_dotted gs rest ≡ some vs
    → scan_dotted (g ∷ gs) (decimal n ++ b'.' ∷ rest) ≡ some (pos n ∷ vs)
unfolding scan_dotted
scan_dot n g gs rest vs h more =
    ground (arith, scan_int-decimal n b'.' rest (omega arith) refl, more)

scan_zero :
    (n : ℕ) (g : ℤ) (rest : List ℕ)
    → n < 256
    → scan_dotted (g ∷ []) (decimal n ++ 0 ∷ rest) ≡ some (pos n ∷ [])
unfolding scan_dotted
scan_zero n g rest h = ground (arith, scan_int-decimal n 0 rest (omega arith) refl)

scan_dotted-dotted :
    (a b c d : ℕ) (g h i j : ℤ) (rest : List ℕ)
    → a < 256
    → b < 256
    → c < 256
    → d < 256
    → scan_dotted (g ∷ h ∷ i ∷ j ∷ []) (dotted a b c d (0 ∷ rest))
      ≡ some (pos a ∷ pos b ∷ pos c ∷ pos d ∷ [])
scan_dotted-dotted a b c d g h i j rest ha hb hc hd =
    scan_dot a g (h ∷ i ∷ j ∷ []) _ (pos b ∷ pos c ∷ pos d ∷ []) ha (
      scan_dot b h (i ∷ j ∷ []) _ (pos c ∷ pos d ∷ []) hb
        (scan_dot c i (j ∷ []) _ (pos d ∷ []) hc (scan_zero d j rest hd)))

-- The text of an address, by its bytes.
abbrev pub dotted_text : ℕ → List ℕ
dotted_text addr =
    decimal (addr % 256)
    ++ b'.'
      ∷ (decimal (addr / 256 % 256)
          ++ b'.' ∷ (decimal (addr / 65536 % 256) ++ b'.' ∷ decimal (addr / 16777216 % 256)))

-- It fits the buffer.
pub ntoa_text :
    (addr : ℕ) → (ntoa addr ≡ some (dotted_text addr)) × (length (dotted_text addr) ≤ 15)
unfolding ntoa
ntoa_text addr =
    let d = decimal (addr / 16777216 % 256) in
    let short =
      length-dotted (addr % 256) (addr / 256 % 256) (addr / 65536 % 256) (addr / 16777216 % 256)
        (omega arith) (omega arith) (omega arith) (omega arith) in
    let short' : length (dotted_text addr) ≤ 15 = rw (append-nil d) at short in
    (ground (arith, short'), short')

-- Every address is printed in at most 15 bytes, so that with the zero behind it the text fits the
-- buffer of 18, and inet_addr reads the address back from the text, whatever its variables held.
pub inet_addr-ntoa :
    (addr : ℕ) (g h i j : ℤ) (rest : List ℕ)
    → addr < 4294967296
    → (s : List ℕ) × (ntoa addr ≡ some s)
      × (length s ≤ 15)
      × (inet_addr (g ∷ h ∷ i ∷ j ∷ []) (s ++ 0 ∷ rest) ≡ some addr)
unfolding inet_addr
inet_addr-ntoa addr g h i j rest fits =
    let a = addr % 256 in
    let b = addr / 256 % 256 in
    let c = addr / 65536 % 256 in
    let d = addr / 16777216 % 256 in
    let (printed, short) = ntoa_text addr in
    let scanned =
      scan_dotted-dotted a b c d g h i j rest (omega arith) (omega arith) (omega arith)
        (omega arith) in
    let joined : dotted_text addr ++ 0 ∷ rest ≡ dotted a b c d (0 ∷ rest) = simp append_assoc in
    (dotted_text addr, printed, short, rw (joined, scanned) (ap (λ (n : ℕ). some n) (omega arith)))
