-- ===== src/KernelPing/Header.antt =====
-- The packet of kernel_ping.c.
use eltex.Base.{
  ℕ, ◌+◌, ◌-◌, ◌*◌, ◌/◌, ◌%◌, ◌<◌, ◌≡◌, ◌↔◌, refl, ◌∙◌, ap, true, some, List, [], ◌∷◌, arith, All,
  IsByte,
}
use eltex.Base.Int.{ℤ, pos}
use eltex.Decimal.{scan_int, scan_unsigned, scan_digits}
use eltex.Checksum.{checksum, word_at}
use eltex.Checksum.Sums.{words, total, sum_of}
use eltex.Checksum.Reference.{residue, ones_sum-residue, checksum-sum}
use eltex.KernelPing.{
  Kernel, Packet, create_packet, inet_addr, scan_dotted, packet_of, echo_header, saddr_text,
  daddr_text,
}

sum_of-echo_header : (low high : ℕ) → sum_of (echo_header low high) ≡ 1239 + word_at low high
unfolding words total
sum_of-echo_header low high = omega arith

abbrev header_sum : ℕ → ℕ
header_sum w = 65535 - residue (1239 + w)

module _ (a b c d : ℤ) where
  abbrev variables : List ℤ
  variables = a ∷ b ∷ c ∷ d ∷ []

  saddr_read : inet_addr variables saddr_text ≡ some 0x0205a8c0
  unfolding inet_addr scan_dotted scan_int scan_unsigned scan_digits
  saddr_read = refl

  daddr_read : inet_addr variables daddr_text ≡ some 0x08080808
  unfolding inet_addr scan_dotted scan_int scan_unsigned scan_digits
  daddr_read = refl

residue_stale :
    (w c : ℕ) → w < 65536 → c ≡ header_sum w → (residue (1239 + c) ≡ 65535) ↔ (w % 65535 ≡ 0)
residue_stale w c h e = ground arith

echo_bytes : (low high : ℕ) → low < 256 → high < 256 → All IsByte (echo_header low high)
echo_bytes low high h h' = omega arith

checksum-echo_header :
    (low high : ℕ)
    → low < 256
    → high < 256
    → checksum (echo_header low high) 8 ≡ some (65535 - residue (1239 + word_at low high))
checksum-echo_header low high h h' =
    rw (← sum_of-echo_header low high)
      (checksum-sum (echo_header low high) [] (echo_bytes low high h h') (omega arith))

-- Where there is memory and the device, the module sends one packet, from 192.168.5.2 to 8.8.8.8,
-- whatever its variables held. Its checksum is right, so that the sum over the ICMP header is 0,
-- exactly if the memory held 0 or 65535 where the checksum goes: it is not cleared before the sum.
pub create_packet-verifies :
    (k : Kernel) (a b c d : ℤ) (ifindex : ℕ)
    → k.alloc_skb ≡ true
    → k.dev_get_by_name ≡ some ifindex
    → k.stale_low < 256
    → k.stale_high < 256
    → (p : Packet) × (create_packet k (a ∷ b ∷ c ∷ d ∷ []) ≡ some (pos 0, some p))
      × (p.saddr ≡ 192 + 256 * 168 + 65536 * 5 + 16777216 * 2)
      × (p.daddr ≡ 8 + 256 * 8 + 65536 * 8 + 16777216 * 8)
      × ((checksum p.icmp 8 ≡ some 0) ↔ (word_at k.stale_low k.stale_high % 65535 ≡ 0))
unfolding create_packet
create_packet-verifies k a b c d ifindex memory device low high =
    let header = echo_header k.stale_low k.stale_high in
    let w = word_at k.stale_low k.stale_high in
    let csum = k.ip_compute_csum header in
    let computed : csum ≡ 65535 - residue (1239 + w) =
      k.computes header (echo_bytes k.stale_low k.stale_high low high) (omega arith)
      ∙ ap (λ (s : ℕ). 65535 - s)
          (ones_sum-residue header (echo_bytes k.stale_low k.stale_high low high)
            ∙ ap residue (sum_of-echo_header k.stale_low k.stale_high)) in
    let small : csum < 65536 = omega (arith, computed) in
    let whole = checksum-echo_header (csum % 256) (csum / 256) (omega arith) (omega arith) in
    (
      packet_of k 0x0205a8c0 0x08080808,
      ground (arith, memory, device, saddr_read a b c d, daddr_read a b c d),
      omega arith,
      omega arith,
      ground (arith, whole, residue_stale w csum (omega arith) computed),
    )
