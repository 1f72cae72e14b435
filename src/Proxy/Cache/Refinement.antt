-- ===== src/Proxy/Cache/Refinement.antt =====
-- `search` and `insert` of proxy_server.c against lookup and insertion in the list of the tree's nodes.
use eltex.Base.{ℕ, ◌≡◌, refl, ◌∙◌, Option, none, some, List, arith, ◌⊎◌, inl, inr}
use eltex.Cstring.{less, equal, greater, text, lex, IsTerminated, strcmp}
use eltex.Cstring.Laws.{strcmp-lex, Sign-cases}
use eltex.Proxy.Cache.{DnsNode, Tree, leaf, node, inorder, Rebalance, search, link, insert}
use eltex.Proxy.Cache.Answers.{key, find, place, IsAscending, AllTerminated}
use eltex.Proxy.Cache.Around.{
  Around, around, find-append_less, find-append_greater, find-append_equal, place-append_less,
  place-append_greater,
}

-- On a tree whose names are terminated and strictly ascend from left to right, and a terminated
-- name, `search` stays inside every name, and finds the node that a walk along the list of all nodes
-- finds, or that there is none.
pub search-find :
    (t : Tree) (string : List ℕ)
    → IsAscending (inorder t)
    → AllTerminated (inorder t)
    → IsTerminated string
    → search t string ≡ some (find (text string) (inorder t))
unfolding search inorder
search-find leaf string a n s = unfold find in refl
search-find (node l d r) string a n s =
    let p = around d (inorder l) (inorder r) a n in
    ground (
      arith,
      strcmp-lex string d.host_name s p.name,
      search-find l string p.left p.left_names s,
      search-find r string p.right p.right_names s,
      find-append_less d (text string) (inorder l) (inorder r),
      find-append_greater d (text string) (inorder l) (inorder r),
      find-append_equal d (text string) (inorder l) (inorder r),
      p.below,
      p.above,
    )

-- How the walk of `insert` ends: at a node of that name, or with the node linked in its place.
abbrev Linked : DnsNode → List DnsNode → Option (Option Tree) → Type 0
Linked new ds result =
    ((e : DnsNode) × (find (key new) ds ≡ some e) × (result ≡ some none))
    ⊎ ((t : Tree) × (find (key new) ds ≡ none)
        × (result ≡ some (some t))
        × (inorder t ≡ place new ds))

module _ (new d : DnsNode) (l r : Tree) (p : Around d (inorder l) (inorder r))
    (s : IsTerminated new.host_name) where
  compared : strcmp new.host_name d.host_name ≡ some (lex (key new) (key d))
  compared = strcmp-lex new.host_name d.host_name s p.name

  Linked-less :
      lex (key new) (key d) ≡ less
      → Linked new (inorder l) (link new l)
      → Linked new (inorder (node l d r)) (link new (node l d r))
  unfolding link inorder
  Linked-less c (inl (e, found, stop)) = inl (
    e,
    find-append_less d (key new) (inorder l) (inorder r) c p.above ∙ found,
    rw (compared, c, stop, link),
  )
  Linked-less c (inr (t, absent, linked, listed)) = inr (
    node t d r,
    find-append_less d (key new) (inorder l) (inorder r) c p.above ∙ absent,
    rw (compared, c, linked, link),
    rw (place-append_less d new (inorder l) (inorder r) c, listed),
  )

  Linked-greater :
      lex (key new) (key d) ≡ greater
      → Linked new (inorder r) (link new r)
      → Linked new (inorder (node l d r)) (link new (node l d r))
  unfolding link inorder
  Linked-greater c (inl (e, found, stop)) = inl (
    e,
    find-append_greater d (key new) (inorder l) (inorder r) c p.below ∙ found,
    rw (compared, c, stop, link),
  )
  Linked-greater c (inr (t, absent, linked, listed)) = inr (
    node l d t,
    find-append_greater d (key new) (inorder l) (inorder r) c p.below ∙ absent,
    rw (compared, c, linked, link),
    rw (place-append_greater d new (inorder l) (inorder r) c p.below, listed),
  )

  Linked-equal :
      lex (key new) (key d) ≡ equal → Linked new (inorder (node l d r)) (link new (node l d r))
  unfolding link inorder
  Linked-equal c =
      inl
        (d, find-append_equal d (key new) (inorder l) (inorder r) c p.below, rw (compared, c, link))

  Linked-node :
      Linked new (inorder l) (link new l)
      → Linked new (inorder r) (link new r)
      → Linked new (inorder (node l d r)) (link new (node l d r))
  Linked-node hl hr = elim (Sign-cases (lex (key new) (key d))) [
    | inl c ↦ Linked-less c hl
    | inr (inl c) ↦ Linked-equal c
    | inr (inr c) ↦ Linked-greater c hr
  ]

pub link-Linked :
    (t : Tree) (new : DnsNode)
    → IsAscending (inorder t)
    → AllTerminated (inorder t)
    → IsTerminated new.host_name
    → Linked new (inorder t) (link new t)
link-Linked leaf new a n s = inr (
  node leaf new leaf,
  unfold inorder find in refl,
  unfold link in refl,
  unfold inorder place in refl,
)
link-Linked (node l d r) new a n s =
    let p = around d (inorder l) (inorder r) (unfold inorder in a) (unfold inorder in n) in
    Linked-node new d l r p s (link-Linked l new p.left p.left_names s)
      (link-Linked r new p.right p.right_names s)

-- The cache is well formed: the names ascend, and each is a terminated array.
pub record IsCache (t : Tree) : Type 0 where
  pub ascending : IsAscending (inorder t)
  pub names : AllTerminated (inorder t)

-- Whether a name was there decides what `insert` does: it returns 0 and leaves the tree, or it
-- returns 1 and the nodes of the tree are those before and the new one, in their order.
pub insert-place :
    (rb : Rebalance) (t : Tree) (new : DnsNode)
    → IsCache t
    → IsTerminated new.host_name
    → ((e : DnsNode) × (find (key new) (inorder t) ≡ some e) × (insert rb t new ≡ some (t, 0)))
      ⊎ ((u : Tree) × (find (key new) (inorder t) ≡ none)
          × (insert rb t new ≡ some (u, 1))
          × (inorder u ≡ place new (inorder t)))
insert-place rb t new v s = elim (link-Linked t new v.ascending v.names s) [
  | inl (e, found, stop) ↦ inl (e, found, unfold insert in rw (stop, insert))
  | inr (u, absent, linked, listed) ↦ inr (
    rb.rb_insert_color new u,
    absent,
    (unfold insert in rw (linked, insert)),
    rb.keeps new u ∙ listed,
  )
]
