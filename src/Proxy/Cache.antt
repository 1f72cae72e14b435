-- ===== src/Proxy/Cache.antt =====
-- proxy_server.c: the binary search tree of answers, `search` and `insert`. The rebalancing that
-- the kernel does behind `insert`, rb_insert_color, is a parameter.

pub mod Answers
pub mod Around
pub mod Refinement
pub mod Laws
use eltex.Base.{ℕ, ◌≡◌, Option, none, some, List, [], ◌∷◌, ◌++◌}
use eltex.Cstring.{less, equal, greater, strcmp}

-- struct dns_node; `addr` and `ttl` are kept as they stood in the packet.
pub record DnsNode : Type 0 where
  pub host_name : List ℕ
  pub addr : ℕ
  pub ttl : ℕ

-- The nodes under `rb_root`, by rb_left and rb_right; NULL is `leaf`.
pub data Tree : Type 0 where
  leaf : Tree
  node : Tree → DnsNode → Tree → Tree

unfoldable pub inorder : Tree → List DnsNode
inorder leaf = []
inorder (node l d r) = inorder l ++ (d ∷ inorder r)

-- Rebalancing after a node was linked in keeps the nodes and their order.
pub record Rebalance : Type 0 where
  pub rb_insert_color : DnsNode → Tree → Tree
  pub keeps : (d : DnsNode) (t : Tree) → inorder (rb_insert_color d t) ≡ inorder t

-- `none` is a read past the end of a name; else the node with that name, if there is one.
unfoldable pub search : Tree → List ℕ → Option (Option DnsNode)
search leaf string = some none
search (node l d r) string = elim (strcmp string d.host_name) [
  | none ↦ none
  | some less ↦ search l string
  | some greater ↦ search r string
  | some equal ↦ some (some d)
]

-- The walk of `insert` down to the place of the new node; `some none` where the name is there.
unfoldable pub link : DnsNode → Tree → Option (Option Tree)
link new leaf = some (some (node leaf new leaf))
link new (node l this r) = elim (strcmp new.host_name this.host_name) [
  | none ↦ none
  | some less ↦ elim (link new l) [
    | none ↦ none
    | some none ↦ some none
    | some (some l') ↦ some (some (node l' this r))
  ]
  | some greater ↦ elim (link new r) [
    | none ↦ none
    | some none ↦ some none
    | some (some r') ↦ some (some (node l this r'))
  ]
  | some equal ↦ some none
]

-- The tree after `insert`, and what it returns.
unfoldable pub insert : Rebalance → Tree → DnsNode → Option (Tree × ℕ)
insert rb root new = elim (link new root) [
  | none ↦ none
  | some none ↦ some (root, 0)
  | some (some linked) ↦ some (rb.rb_insert_color new linked, 1)
]
