-- ===== src/PortBlock.antt =====
-- core/netfilter/port_block/kernel_module.c: m_filter_port, a netfilter hook that drops the
-- packets of one port. Fields in network order are kept as the little-endian host reads them.
-- Registering the hook is a call of the kernel and is not modelled.
use eltex.Base.{◌<◌, ℕ, ◌||◌, ◌==◌, if◌then◌else◌, htons, ◌≡◌, ◌⊎◌, ◌↔◌, arith}

pub data Verdict : Type 0 where
  nf_accept nf_drop : Verdict

-- iphdr.protocol, and the ports of the header behind it.
pub record Packet : Type 0 where
  pub protocol : ℕ
  pub source : ℕ
  pub dest : ℕ

-- `port = htons(7777)`.
abbrev pub port : ℕ
port = htons 7777

abbrev pub ipproto_udp : ℕ
ipproto_udp = 17

abbrev pub ipproto_tcp : ℕ
ipproto_tcp = 6

abbrev pub of_port : Packet → Verdict → Verdict
of_port p otherwise = if p.dest == port || p.source == port then nf_drop else otherwise

unfoldable pub m_filter_port : Packet → Verdict
m_filter_port p =
    if p.protocol == ipproto_udp
    then of_port p nf_accept
    else if p.protocol == ipproto_tcp
    then of_port p nf_accept
    else nf_accept

-- With 16-bit ports, a packet is dropped exactly if it is UDP or TCP and port 7777, in network order, is its source or
-- its destination; every other packet is accepted.
pub m_filter_port-drop :
    (p : Packet)
    → p.source < 65536
    → p.dest < 65536
    → (m_filter_port p ≡ nf_drop)
      ↔ (((p.protocol ≡ 17) ⊎ (p.protocol ≡ 6)) × ((htons p.source ≡ 7777) ⊎ (htons p.dest ≡ 7777)))
unfolding m_filter_port
m_filter_port-drop p hs hd = ground arith
