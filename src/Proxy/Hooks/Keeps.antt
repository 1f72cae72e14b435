-- ===== src/Proxy/Hooks/Keeps.antt =====
-- hook_in_packets of proxy_server.c on any packet.
use eltex.Base.{
  u32_at, ℕ, ◌+◌, ◌<◌, ◌≡◌, sym, ◌∙◌, Bool, some, List, ◌⊎◌, arith, length, drop, Option-cases, inl,
  inr,
}
use eltex.Cstring.{strlen, strncpy, text, IsTerminated}
use eltex.Cstring.Laws.{strlen-IsTerminated, strncpy-text, strncpy-text_inv, lex_decides}
use eltex.Proxy.Cache.{DnsNode, Tree, search}
use eltex.Proxy.Cache.Refinement.{IsCache}
use eltex.Proxy.Cache.Laws.{Inserted, search-insert}
use eltex.Proxy.Packet.{Skb, dnshdr_size}
use eltex.Proxy.Hooks.{
  Kernel, Allocation, Verdict, nf_accept, hostname_len, remember, learn, receive, hook_in_packets,
}
use eltex.Proxy.Hooks.Learn.{search-text}

module _ (k : Kernel) (root : Tree) (v : IsCache root) where
  -- What no packet changes: the cache stays well formed, and an answer once found stays the answer.
  pub record Keeps (u : Tree) : Type 0 where
    pub valid : IsCache u
    pub answers :
        (string : List ℕ) (d : DnsNode)
        → IsTerminated string
        → search root string ≡ some (some d)
        → search u string ≡ some (some d)

  same-Keeps : Keeps root
  same-Keeps = record { valid = v; answers = λ string d c e. e }

  Inserted-Keeps :
      (u : Tree) (new : DnsNode) (n : ℕ)
      → IsTerminated new.host_name
      → Inserted root u new n
      → Keeps u
  Inserted-Keeps u new n ended i = record {
    valid = i.valid;
    answers = λ string d c e. elim (lex_decides (text string) (text new.host_name)) [
      | inl same ↦
          let found = sym (search-text root string new.host_name v c ended same) ∙ e in
          rw (i.present d found).0 e
      | inr differ ↦ i.others string c differ ∙ e
    ];
  }

  learn_cases :
      (allocated : Bool) (p hname : List ℕ) (at : ℕ) (u : Tree)
      → learn k allocated root p hname at ≡ some u
      → (u ≡ root) ⊎ (remember k root p hname at ≡ some u)
  unfolding learn
  learn_cases allocated p hname at u e = ground arith

  remember-Keeps :
      (p hname : List ℕ) (at : ℕ) (u : Tree)
      → IsTerminated hname
      → length (text hname) < hostname_len
      → remember k root p hname at ≡ some u
      → Keeps u
  unfolding remember
  remember-Keeps p hname at u ended short e =
      let (host, stored, host_ended, same, full) = strncpy-text hostname_len hname ended short in
      elim (Option-cases (u32_at p (at + 12))) [
        | inl no_addr ↦ ground (arith, no_addr)
        | inr (addr, has_addr) ↦ elim (Option-cases (u32_at p (at + 6))) [
          | inl no_ttl ↦ ground (arith, has_addr, no_ttl)
          | inr (ttl, has_ttl) ↦
              let new : DnsNode = record { host_name = host; addr = addr; ttl = ttl } in
              let (u', n, inserted, i) = search-insert k.rebalance root new v host_ended in
              let same_tree : u ≡ u' = ground (arith, has_addr, has_ttl, stored, inserted) in
              rw same_tree (Inserted-Keeps u' new n host_ended i)
        ]
      ]

  learn-Keeps :
      (allocated : Bool) (p hname : List ℕ) (at : ℕ) (u : Tree)
      → IsTerminated hname
      → length (text hname) < hostname_len
      → learn k allocated root p hname at ≡ some u
      → Keeps u
  unfolding learn
  learn-Keeps allocated p hname at u ended short e = elim (learn_cases allocated p hname at u e) [
    | inl kept ↦ rw kept same-Keeps
    | inr remembered ↦ remember-Keeps p hname at u ended short remembered
  ]

  receive_cases :
      (a : Allocation) (p : List ℕ) (u : Tree)
      → receive k a root p ≡ some u
      → (hname : List ℕ) × (n : ℕ) × (strncpy hostname_len (drop dnshdr_size p) ≡ some hname)
        × (strlen hname ≡ some n)
        × ((u ≡ root) ⊎ (learn k a.node root p hname (dnshdr_size + n + 5) ≡ some u))
  unfolding receive
  receive_cases a p u e = elim (Option-cases (strncpy hostname_len (drop dnshdr_size p))) [
    | inl over ↦ ground (arith, over)
    | inr (hname, stored) ↦ elim (Option-cases (strlen hname)) [
      | inl over ↦ ground (arith, stored, over)
      | inr (n, measured) ↦ (hname, n, stored, measured, ground (arith, stored, measured))
    ]
  ]

  receive-Keeps : (a : Allocation) (p : List ℕ) (u : Tree) → receive k a root p ≡ some u → Keeps u
  receive-Keeps a p u e =
      let (hname, n, stored, measured, ends) = receive_cases a p u e in
      let ended : IsTerminated hname = strlen-IsTerminated hname measured in
      let (src_ended, same, short) =
        strncpy-text_inv hostname_len (drop dnshdr_size p) hname stored ended in
      elim ends [
        | inl kept ↦ rw kept same-Keeps
        | inr learned ↦
            learn-Keeps a.node p hname (dnshdr_size + n + 5) u ended (rw same short) learned
      ]

  hook_cases :
      (a : Allocation) (skb : Skb) (u : Tree) (verdict : Verdict)
      → hook_in_packets k a root skb ≡ some (u, verdict)
      → ((verdict ≡ nf_accept) × (u ≡ root))
        ⊎ ((verdict ≡ nf_accept) × (receive k a root skb.payload ≡ some u))
  unfolding hook_in_packets
  hook_cases a skb u verdict e = ground arith

  -- Whatever the packet, the allocations and the rebalancing, a call of `hook_in_packets` that
  -- stays inside its memory accepts the packet and keeps the cache well formed, and
  -- every name that was found keeps its answer: a later answer never replaces an earlier one.
  pub hook_in-Keeps :
      (a : Allocation) (skb : Skb) (u : Tree) (verdict : Verdict)
      → hook_in_packets k a root skb ≡ some (u, verdict)
      → (verdict ≡ nf_accept) × Keeps u
  hook_in-Keeps a skb u verdict e = elim (hook_cases a skb u verdict e) [
    | inl (accepted, kept) ↦ (accepted, rw kept same-Keeps)
    | inr (accepted, received) ↦ (accepted, receive-Keeps a skb.payload u received)
  ]
