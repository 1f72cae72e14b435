-- ===== src/Proxy/Packet.antt =====
-- The socket buffers of proxy_server.c: the header fields that the hooks read and write, and the
-- memory from the DNS header to the end of the buffer. The host is little-endian, and a field in
-- network order is kept as the host reads it, so the sources' htons is `htons`.
use eltex.Base.{◌>>=◌, ℕ, zero, suc, ◌+◌, ◌*◌, Option, none, some, List, [], ◌∷◌, get_elem?}
use mathlib.Core.Option

-- The parts of an sk_buff that the module touches: iphdr, udphdr, `skb->len` and the payload.
pub record Skb : Type 0 where
  pub protocol : ℕ
  pub saddr : ℕ
  pub daddr : ℕ
  pub tot_len : ℕ
  pub source : ℕ
  pub dest : ℕ
  pub udp_len : ℕ
  pub check : ℕ
  pub size : ℕ
  pub payload : List ℕ

abbrev pub dnshdr_size : ℕ
dnshdr_size = 12

abbrev pub r_data_size : ℕ
r_data_size = 16

-- `ntohs` of the 16-bit word at an offset, and a 32-bit word as the host reads it.
abbrev pub ntohs_at : List ℕ → ℕ → Option ℕ
ntohs_at mem i = do hi ← get_elem? mem i; lo ← get_elem? mem (i + 1); some (hi * 256 + lo)

-- A run of bytes stored at an offset; `none` is a store past the end of the memory.
unfoldable pub overwrite : ℕ → List ℕ → List ℕ → Option (List ℕ)
overwrite (suc i) new [] = none
overwrite (suc i) new (m ∷ mem) = Option.map (◌∷◌ m) (overwrite i new mem)
overwrite zero [] mem = some mem
overwrite zero (b ∷ new) [] = none
overwrite zero (b ∷ new) (m ∷ mem) = Option.map (◌∷◌ b) (overwrite zero new mem)
