-- ===== src/Examples/Dns.antt =====
-- proxy_server.c: an answer for the name "a" learned, and a query for it answered.
use eltex.Base.{
  u32_at, ℕ, ◌≡◌, ◌+◌, refl, true, some, inl, inr, List, [], ◌∷◌, ◌++◌, arith, replicate, length,
  htons, u32, if◌then◌else◌, drop,
}
use eltex.Base.Int.{pos, eqb_ℤ}
use eltex.Cstring.{strlen, strncpy, strcmp, text}
use eltex.Proxy.Cache.{DnsNode, Tree, leaf, node, inorder, Rebalance, search, insert, link}
use eltex.Proxy.Cache.Answers.{find}
use eltex.Proxy.Cache.Refinement.{IsCache, search-find}
use eltex.Proxy.Cache.Laws.{Inserted, search-insert, leaf-IsCache}
use eltex.Proxy.Packet.{Skb, ntohs_at, dnshdr_size}
use eltex.Proxy.Hooks.{
  Kernel, nf_accept, nf_drop, dns_port, hook_in_packets, hook_out_packets, receive, learn, remember,
}
use eltex.Proxy.Hooks.Learn.{Learned, hook_in-Learned}
use eltex.Proxy.Hooks.Keeps.{Keeps, hook_in-Keeps}
use eltex.Proxy.Hooks.Relay.{IsQuery, hook_out-reply, hook_in-hook_out}

-- Rebalancing that finds the tree balanced, memory that does not run out, a network that sends.
abbrev balanced : Rebalance
balanced = record { rb_insert_color = λ d t. t; keeps = λ d t. refl }

abbrev kernel : Kernel
kernel = record {
  rebalance = balanced;
  skb_copy_expand = λ s. some (record s { payload = s.payload ++ replicate 16 0 });
  ip_local_out = λ s. pos 0;
  copied = λ s t e. (replicate 16 0, refl, ground (arith, e));
}

-- The name "a" as a packet holds it, its type and class, and the array that the module keeps.
abbrev question : List ℕ
question = 1 ∷ b'a' ∷ 0 ∷ 0 ∷ 1 ∷ 0 ∷ 1 ∷ []

abbrev name : List ℕ
name = 1 ∷ b'a' ∷ replicate 253 0

abbrev entry : DnsNode
entry = record { host_name = name; addr = 0x0200000a; ttl = 0x3c000000 }

abbrev stocked : Tree
stocked = node leaf entry leaf

stocked-IsCache : IsCache stocked
unfolding inorder
stocked-IsCache = record { ascending = (tt, tt); names = (inr (inr (inl refl)), tt) }

abbrev other_entry : DnsNode
other_entry = record { host_name = 1 ∷ b'b' ∷ 0 ∷ []; addr = 1; ttl = 2 }

search-insert_example :
    (u : Tree) × (n : ℕ) × (insert balanced stocked other_entry ≡ some (u, n))
    × Inserted stocked u other_entry n
search-insert_example =
    search-insert balanced stocked other_entry stocked-IsCache (inr (inr (inl refl)))

search-find_example : search stocked question ≡ some (find (text question) (inorder stocked))
search-find_example =
    search-find stocked question stocked-IsCache.ascending stocked-IsCache.names
      (inr (inr (inl refl)))

-- An answer from port 53.
abbrev response : Skb
response = record {
  protocol = 17;
  saddr = 1;
  daddr = 2;
  tot_len = 0;
  source = dns_port;
  dest = 9;
  udp_len = 0;
  check = 0;
  size = 63;
  payload =
      0 ∷ 1 ∷ 0x81 ∷ 0x80 ∷ 0 ∷ 1 ∷ 0 ∷ 1 ∷ 0 ∷ 0 ∷ 0 ∷ 0 ∷ question
      ++ 0xc0 ∷ 0x0c ∷ 0 ∷ 1 ∷ 0 ∷ 1 ∷ 0 ∷ 0 ∷ 0 ∷ 60 ∷ 0 ∷ 4 ∷ 10 ∷ 0 ∷ 0 ∷ 2 ∷ [];
}

stored : strncpy 255 (drop 12 response.payload) ≡ some name
unfolding strncpy
stored = refl

hook_in-Learned_example :
    (u : Tree) × (hook_in_packets kernel (record { hname = true; node = true }) leaf response
      ≡ some (u, nf_accept))
    × Learned leaf u name 0x0200000a 0x3c000000
hook_in-Learned_example =
    hook_in-Learned kernel leaf leaf-IsCache response name 0x0200000a 0x3c000000 refl refl
      (inr (inr (inl refl))) stored (inr (inr (inl refl))) (unfold search in refl)
      (unfold text in refl) (unfold text in refl) (unfold text in refl)

learned :
    hook_in_packets kernel (record { hname = true; node = true }) leaf response
    ≡ some (stocked, nf_accept)
unfolding hook_in_packets receive learn remember strncpy strlen search insert link
learned = refl

hook_in-Keeps_example : (nf_accept ≡ nf_accept) × Keeps kernel leaf leaf-IsCache stocked
hook_in-Keeps_example =
    hook_in-Keeps kernel leaf leaf-IsCache (record { hname = true; node = true }) response stocked
      nf_accept learned

-- A query for the same name.
abbrev query : Skb
query = record response {
  source = 9;
  dest = dns_port;
  size = 47;
  payload = 0 ∷ 1 ∷ 1 ∷ 0 ∷ 0 ∷ 1 ∷ 0 ∷ 0 ∷ 0 ∷ 0 ∷ 0 ∷ 0 ∷ question;
}

abbrev query-IsQuery : IsQuery query question
query-IsQuery = record {
  is_udp = refl;
  to_dns = refl;
  a = 0;
  b = 1;
  f = 1;
  g = 0;
  eight = 0 ∷ 1 ∷ 0 ∷ 0 ∷ 0 ∷ 0 ∷ 0 ∷ 0 ∷ [];
  rest = [];
  layout = refl;
  eight_long = refl;
  named = inr (inr (inl refl));
  question_long = (unfold text in refl);
  short = (unfold text in omega arith);
}

cached : search stocked question ≡ some (some entry)
unfolding search strcmp
cached = refl

abbrev expanded : Skb
expanded = record query { payload = query.payload ++ replicate 16 0 }

hook_out-reply_example :
    let at = dnshdr_size + length (text question) + 5 in
    (r : Skb) × (hook_out_packets kernel true stocked query
      ≡ some (if eqb_ℤ (kernel.ip_local_out r) (pos 0) then nf_drop else nf_accept, some r))
    × ((r.saddr ≡ query.daddr)
        × (r.daddr ≡ query.saddr)
        × (r.source ≡ query.dest)
        × (r.dest ≡ query.source)
        × (r.check ≡ query.check))
    × ((r.size ≡ u32 (query.size + 16))
        × (r.tot_len ≡ htons (u32 (query.size + 16)))
        × (r.udp_len ≡ htons (htons query.udp_len + 16)))
    × ((ntohs_at r.payload (at + 2) ≡ some 1)
        × (ntohs_at r.payload (at + 10) ≡ some 4)
        × (u32_at r.payload (at + 12) ≡ some entry.addr)
        × (u32_at r.payload (at + 6) ≡ some entry.ttl))
hook_out-reply_example =
    hook_out-reply kernel stocked stocked-IsCache query expanded question query-IsQuery entry cached
      refl (omega arith) (omega arith)

hook_in-hook_out_example :
    (r : Skb) × (u : Tree) × (hname : List ℕ) × (hook_out_packets kernel true stocked query
      ≡ some (if eqb_ℤ (kernel.ip_local_out r) (pos 0) then nf_drop else nf_accept, some r))
    × (hook_in_packets kernel (record { hname = true; node = true }) leaf r ≡ some (u, nf_accept))
    × Learned leaf u hname entry.addr entry.ttl
    × (text hname ≡ text question)
hook_in-hook_out_example =
    hook_in-hook_out kernel stocked stocked-IsCache query expanded question query-IsQuery entry
      cached refl kernel leaf leaf-IsCache (unfold search in refl) (omega arith) (omega arith)
