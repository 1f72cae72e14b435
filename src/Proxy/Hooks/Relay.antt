-- ===== src/Proxy/Hooks/Relay.antt =====
-- A query answered from the cache, and the reply as another such module receives it.
use eltex.Base.{
  u32_at, ℕ, ◌+◌, ◌^◌, ◌<◌, ◌≤◌, ◌≡◌, refl, ◌∙◌, ap, true, none, some, List, ◌++◌, arith, length,
  drop, length-append, drop-append, if◌then◌else◌, htons, u32,
}
use mathlib.Core.List.{append_assoc}
use eltex.Base.Int.{pos, eqb_ℤ}
use eltex.Cstring.{strlen, strncpy, text, IsTerminated}
use eltex.Cstring.Laws.{strlen-text, strncpy-text, text-append}
use eltex.Proxy.Cache.{DnsNode, Tree, inorder, search}
use eltex.Proxy.Cache.Answers.{find-key}
use eltex.Proxy.Cache.Refinement.{IsCache, search-find}
use eltex.Proxy.Packet.{Skb, ntohs_at, dnshdr_size, r_data_size}
use eltex.Proxy.Hooks.{
  Kernel, nf_accept, nf_drop, answer, reply, create_packet, look_up, hook_out_packets,
  hook_in_packets, dns_port, hostname_len, r_data,
}
use eltex.Proxy.Hooks.Learn.{Learned, hook_in-Learned, search-text, record_at}
use eltex.Proxy.Hooks.Reply.{message, answered, answer_lem, reads_back}

-- A UDP packet to port 53 that holds one question, whose name fits a cache entry.
pub record IsQuery (skb : Skb) (question : List ℕ) : Type 0 where
  pub is_udp : skb.protocol ≡ 17
  pub to_dns : skb.dest ≡ dns_port
  pub a : ℕ
  pub b : ℕ
  pub f : ℕ
  pub g : ℕ
  pub eight : List ℕ
  pub rest : List ℕ
  pub layout : skb.payload ≡ message a b f g eight question rest
  pub eight_long : length eight ≡ 8
  pub named : IsTerminated question
  pub question_long : length question ≡ length (text question) + 5
  pub short : length (text question) < hostname_len

module _ (k : Kernel) (root : Tree) (v : IsCache root) (skb t : Skb) (question : List ℕ)
    (q : IsQuery skb question) (d : DnsNode) (cached : search root question ≡ some (some d))
    (expanded : k.skb_copy_expand skb ≡ some t) where
  node_of : (text d.host_name ≡ text question) × IsTerminated d.host_name
  node_of =
      find-key (text question) (inorder root) d v.names
        (ground (arith, cached, search-find root question v.ascending v.names q.named))

  tail_of :
      (tail : List ℕ) × (length tail ≡ r_data_size)
      × (t ≡ record skb { payload = skb.payload ++ tail })
  tail_of = k.copied skb t expanded

  abbrev space : List ℕ
  space = q.rest ++ tail_of.0

  roomy : 16 ≤ length space
  roomy = omega (arith, length-append q.rest tail_of.0, tail_of.1)

  measured : strlen d.host_name ≡ some (length (text question))
  measured = strlen-text d.host_name node_of.1 ∙ ap (λ (s : List ℕ). some (length s)) node_of.0

  abbrev reply_payload : List ℕ
  reply_payload =
      answered q.a q.b q.f q.g q.eight question space d (length (text question)) q.eight_long
        q.question_long measured roomy

  expanded_payload : t.payload ≡ message q.a q.b q.f q.g q.eight question space
  expanded_payload = ap (λ (s : Skb). s.payload) tail_of.2 ∙ rw q.layout (simp append_assoc)

  abbrev sent : Skb
  sent = reply t reply_payload

  created : create_packet k skb d ≡ some (k.ip_local_out sent, some sent)
  unfolding create_packet
  created =
      let written : answer t.payload d ≡ some reply_payload = rw expanded_payload (
        answer_lem q.a q.b q.f q.g q.eight question space d (length (text question)) q.eight_long
          q.question_long measured roomy) in
      ground (arith, expanded, written)

  -- What stands behind the DNS header of the query.
  named_at : drop dnshdr_size skb.payload ≡ question ++ q.rest
  named_at =
      let skipped : drop 8 (q.eight ++ (question ++ q.rest)) ≡ question ++ q.rest =
        rw (← q.eight_long) (drop-append q.eight (question ++ q.rest)) in
      rw q.layout skipped

  looked_up :
      look_up k true root skb
      ≡ some (if eqb_ℤ (k.ip_local_out sent) (pos 0) then nf_drop else nf_accept, some sent)
  unfolding look_up
  looked_up =
      let (src_named, src_same) = text-append question q.rest q.named in
      let (hname, stored, ended, same, full) =
        strncpy-text hostname_len (question ++ q.rest) src_named (rw src_same q.short) in
      ground (
        arith,
        named_at,
        stored,
        strlen-text hname ended,
        search-text root hname question v ended q.named (same ∙ src_same),
        cached,
        created,
      )

  t_fields :
      (t.saddr ≡ skb.saddr)
      × (t.daddr ≡ skb.daddr)
      × (t.source ≡ skb.source)
      × (t.dest ≡ skb.dest)
      × (t.protocol ≡ skb.protocol)
      × (t.check ≡ skb.check)
      × (t.size ≡ skb.size)
      × (t.udp_len ≡ skb.udp_len)
  t_fields = rw tail_of.2 (refl, refl, refl, refl, refl, refl, refl, refl)

  sent_out :
      hook_out_packets k true root skb
      ≡ some (if eqb_ℤ (k.ip_local_out sent) (pos 0) then nf_drop else nf_accept, some sent)
  unfolding hook_out_packets
  sent_out = ground (arith, q.is_udp, q.to_dns, looked_up)

  -- A UDP query to port 53 of one question, whose name of less than 255 bytes is in a well-formed
  -- cache with an address and a time to live of 32 bits, is answered from the cache when the array
  -- for the name can be allocated and the packet copied: one packet is handed to the network, with
  -- the endpoints exchanged, 16 bytes longer in all three lengths, its UDP checksum untouched, and in
  -- it, where a receiver looks behind the question, an address record with the cached address and
  -- time to live; the query is dropped exactly if ip_local_out returned 0.
  pub hook_out-reply :
      d.addr < 2 ^ 32
      → d.ttl < 2 ^ 32
      → let at = dnshdr_size + length (text question) + 5 in
        (r : Skb) × (hook_out_packets k true root skb
          ≡ some (if eqb_ℤ (k.ip_local_out r) (pos 0) then nf_drop else nf_accept, some r))
        × ((r.saddr ≡ skb.daddr)
            × (r.daddr ≡ skb.saddr)
            × (r.source ≡ skb.dest)
            × (r.dest ≡ skb.source)
            × (r.check ≡ skb.check))
        × ((r.size ≡ u32 (skb.size + 16))
            × (r.tot_len ≡ htons (u32 (skb.size + 16)))
            × (r.udp_len ≡ htons (htons skb.udp_len + 16)))
        × ((ntohs_at r.payload (at + 2) ≡ some 1)
            × (ntohs_at r.payload (at + 10) ≡ some 4)
            × (u32_at r.payload (at + 12) ≡ some d.addr)
            × (u32_at r.payload (at + 6) ≡ some d.ttl))
  hook_out-reply addr_fits ttl_fits = (
    sent,
    sent_out,
    (unfold reply in ground (arith, t_fields)),
    (unfold reply in ground (arith, t_fields)),
    (unfold reply in
        reads_back q.a q.b q.f q.g q.eight question space d (length (text question)) q.eight_long
          q.question_long measured roomy addr_fits ttl_fits),
  )

  received_reply :
      (k' : Kernel) (root' : Tree)
      → IsCache root'
      → (hname : List ℕ) → search root' question ≡ some none
      → strncpy hostname_len (question ++ (r_data d ++ drop 16 space)) ≡ some hname
      → IsTerminated hname
      → text hname ≡ text question
      → d.addr < 2 ^ 32
      → d.ttl < 2 ^ 32
      → (u : Tree) × (hook_in_packets k' (record { hname = true; node = true }) root' sent
          ≡ some (u, nf_accept))
        × Learned root' u hname d.addr d.ttl
  unfolding reply
  received_reply k' root' v' hname absent stored hname_ended named_so addr_fits ttl_fits =
      let (ended, same) = text-append question (r_data d ++ drop 16 space) q.named in
      let at : record_at sent.payload ≡ dnshdr_size + length (text question) + 5 = rw same in
      let (is_a, four, has_addr, has_ttl) =
        reads_back q.a q.b q.f q.g q.eight question space d (length (text question)) q.eight_long
          q.question_long measured roomy addr_fits ttl_fits in
      hook_in-Learned k' root' v' sent hname d.addr d.ttl (t_fields.4 ∙ q.is_udp)
        (t_fields.3 ∙ q.to_dns) ended stored hname_ended
        (search-text root' hname question v' hname_ended q.named named_so ∙ absent) (rw at is_a)
        (rw at has_addr) (rw at has_ttl)

  -- Where a module answers a query of one question from its well-formed cache, with an address and a
  -- time to live of 32 bits, its reply, received by a module of the same kind whose well-formed cache
  -- lacks the name and whose allocations succeed, teaches that one the same answer: it finds the name
  -- with the address and the time to live that were cached here, and its other names as before.
  pub hook_in-hook_out :
      (k' : Kernel) (root' : Tree)
      → IsCache root'
      → search root' question ≡ some none
      → d.addr < 2 ^ 32
      → d.ttl < 2 ^ 32
      → (r : Skb) × (u : Tree) × (hname : List ℕ) × (hook_out_packets k true root skb
          ≡ some (if eqb_ℤ (k.ip_local_out r) (pos 0) then nf_drop else nf_accept, some r))
        × (hook_in_packets k' (record { hname = true; node = true }) root' r ≡ some (u, nf_accept))
        × Learned root' u hname d.addr d.ttl
        × (text hname ≡ text question)
  hook_in-hook_out k' root' v' absent addr_fits ttl_fits =
      let behind = r_data d ++ drop 16 space in
      let (ended, same) = text-append question behind q.named in
      let (hname, stored, hname_ended, hname_same, full) =
        strncpy-text hostname_len (question ++ behind) ended (rw same q.short) in
      let (u, received, learned) =
        received_reply k' root' v' hname absent stored hname_ended (hname_same ∙ same) addr_fits
          ttl_fits in
      (sent, u, hname, sent_out, received, learned, hname_same ∙ same)
