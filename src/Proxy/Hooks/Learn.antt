-- ===== src/Proxy/Hooks/Learn.antt =====
-- What `hook_in_packets` does to the cache.
use eltex.Base.{
  u32_at, ℕ, ◌+◌, ◌<◌, ◌≡◌, ◌≢◌, refl, sym, ◌∙◌, ap, true, none, some, List, arith, length, drop,
}
use eltex.Cstring.{strncpy, text, IsTerminated}
use eltex.Cstring.Laws.{strlen-text, strncpy-text, strncpy-text_inv}
use eltex.Proxy.Cache.{DnsNode, Tree, inorder, search}
use eltex.Proxy.Cache.Answers.{find}
use eltex.Proxy.Cache.Refinement.{IsCache, search-find}
use eltex.Proxy.Cache.Laws.{Inserted, search-insert}
use eltex.Proxy.Packet.{Skb, ntohs_at, dnshdr_size}
use eltex.Proxy.Hooks.{
  dns_port, Kernel, nf_accept, hostname_len, remember, learn, receive, hook_in_packets,
}

-- `search` sees only the string that an array holds.
pub search-text :
    (t : Tree) (a b : List ℕ)
    → IsCache t
    → IsTerminated a
    → IsTerminated b
    → text a ≡ text b
    → search t a ≡ search t b
search-text t a b v ha hb e =
    search-find t a v.ascending v.names ha
    ∙ ap (λ (s : List ℕ). some (find s (inorder t))) e
    ∙ sym (search-find t b v.ascending v.names hb)

-- The cache after a name was learned: found with this address and time to live, all else as before.
pub record Learned (root u : Tree) (hname : List ℕ) (addr ttl : ℕ) : Type 0 where
  pub valid : IsCache u
  pub node : DnsNode
  pub found : search u hname ≡ some (some node)
  pub same_name : text node.host_name ≡ text hname
  pub same_addr : node.addr ≡ addr
  pub same_ttl : node.ttl ≡ ttl
  pub others :
      (string : List ℕ)
      → IsTerminated string
      → text string ≢ text hname
      → search u string ≡ search root string

-- Where the first answer stands behind a DNS header and one question.
abbrev pub record_at : List ℕ → ℕ
record_at p = dnshdr_size + length (text (drop dnshdr_size p)) + 5

module _ (k : Kernel) (root : Tree) (v : IsCache root) where
  Inserted-Learned :
      (u : Tree) (hname host : List ℕ) (addr ttl n : ℕ)
      → IsTerminated hname
      → IsTerminated host
      → text host ≡ text hname
      → search root hname ≡ some none
      → Inserted root u (record { host_name = host; addr = addr; ttl = ttl }) n
      → Learned root u hname addr ttl
  Inserted-Learned u hname host addr ttl n ended host_ended same absent i = record {
    valid = i.valid;
    node = record { host_name = host; addr = addr; ttl = ttl };
    found =
        search-text u hname host i.valid ended host_ended (sym same)
        ∙ (i.fresh (search-text root host hname v host_ended ended same ∙ absent)).0;
    same_name = same;
    same_addr = refl;
    same_ttl = refl;
    others = λ string c differ. i.others string c (λ e. differ (e ∙ same));
  }

  learn-Learned :
      (p hname : List ℕ) (at addr ttl : ℕ)
      → IsTerminated hname
      → length (text hname) < hostname_len
      → search root hname ≡ some none
      → ntohs_at p (at + 2) ≡ some 1
      → u32_at p (at + 12) ≡ some addr
      → u32_at p (at + 6) ≡ some ttl
      → (u : Tree) × (learn k true root p hname at ≡ some u) × Learned root u hname addr ttl
  learn-Learned p hname at addr ttl ended short absent is_a has_addr has_ttl =
      let (host, stored, host_ended, same, full) = strncpy-text hostname_len hname ended short in
      let (u, n, inserted, i) =
        search-insert k.rebalance root (record { host_name = host; addr = addr; ttl = ttl }) v
          host_ended in
      (
        u,
        (unfold learn remember in ground (arith, is_a, has_addr, has_ttl, stored, inserted)),
        Inserted-Learned u hname host addr ttl n ended host_ended same absent i,
      )

  receive-Learned :
      (p hname : List ℕ) (addr ttl : ℕ)
      → IsTerminated (drop dnshdr_size p)
      → strncpy hostname_len (drop dnshdr_size p) ≡ some hname
      → IsTerminated hname
      → search root hname ≡ some none
      → ntohs_at p (record_at p + 2) ≡ some 1
      → u32_at p (record_at p + 12) ≡ some addr
      → u32_at p (record_at p + 6) ≡ some ttl
      → (u : Tree) × (receive k (record { hname = true; node = true }) root p ≡ some u)
        × Learned root u hname addr ttl
  receive-Learned p hname addr ttl name stored ended absent is_a has_addr has_ttl =
      let (src_ended, same, short) =
        strncpy-text_inv hostname_len (drop dnshdr_size p) hname stored ended in
      let (u, learned, l) =
        learn-Learned p hname (record_at p) addr ttl ended (rw same short) absent is_a has_addr
          has_ttl in
      (
        u,
        (unfold receive in ground (arith, stored, strlen-text hname ended, same, absent, learned)),
        l,
      )

  -- A UDP packet from port 53 that carries an address record for a name which the cache does not
  -- have, the name terminated within its 255 bytes, is accepted, and where both allocations succeed
  -- the name is found afterwards with the record's address and time to live, every other name
  -- finds what it found before, and the cache stays well formed.
  pub hook_in-Learned :
      (skb : Skb) (hname : List ℕ) (addr ttl : ℕ)
      → skb.protocol ≡ 17
      → skb.source ≡ dns_port
      → IsTerminated (drop dnshdr_size skb.payload)
      → strncpy hostname_len (drop dnshdr_size skb.payload) ≡ some hname
      → IsTerminated hname
      → search root hname ≡ some none
      → ntohs_at skb.payload (record_at skb.payload + 2) ≡ some 1
      → u32_at skb.payload (record_at skb.payload + 12) ≡ some addr
      → u32_at skb.payload (record_at skb.payload + 6) ≡ some ttl
      → (u : Tree) × (hook_in_packets k (record { hname = true; node = true }) root skb
          ≡ some (u, nf_accept))
        × Learned root u hname addr ttl
  hook_in-Learned skb hname addr ttl is_udp from_dns name stored ended absent is_a has_addr
        has_ttl =
      let (u, received, l) =
        receive-Learned skb.payload hname addr ttl name stored ended absent is_a has_addr has_ttl in
      (u, (unfold hook_in_packets in ground (arith, received)), l)
