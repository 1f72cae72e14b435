-- ===== src/Proxy/Cache/Laws.antt =====
-- `search` and `insert` of proxy_server.c as their callers see them.
use eltex.Base.{ℕ, ◌≡◌, ◌≢◌, refl, ◌∙◌, ap, Option, none, some, List, arith, inl, inr}
use eltex.Cstring.{equal, text, lex, IsTerminated}
use eltex.Cstring.Laws.{lex_refl, lex_eq}
use eltex.Proxy.Cache.{DnsNode, Tree, leaf, inorder, Rebalance, search, insert}
use eltex.Proxy.Cache.Answers.{key, find, place, find-place, place-IsAscending, place-AllTerminated}
use eltex.Proxy.Cache.Refinement.{IsCache, search-find, insert-place}

-- The answers to the caller's names that insertion of a node gives.
pub record Inserted (t u : Tree) (new : DnsNode) (n : ℕ) : Type 0 where
  pub valid : IsCache u
  pub fresh :
      search t new.host_name ≡ some none → (search u new.host_name ≡ some (some new)) × (n ≡ 1)
  pub present : (e : DnsNode) → search t new.host_name ≡ some (some e) → (u ≡ t) × (n ≡ 0)
  pub others :
      (string : List ℕ)
      → IsTerminated string
      → text string ≢ key new
      → search u string ≡ search t string

module _ (t u : Tree) (new : DnsNode) (v : IsCache t) (s : IsTerminated new.host_name)
    (absent : find (key new) (inorder t) ≡ none) (listed : inorder u ≡ place new (inorder t)) where
  placed-IsCache : IsCache u
  placed-IsCache = record {
    ascending = rw listed (place-IsAscending new (inorder t) v.ascending);
    names = rw listed (place-AllTerminated new (inorder t) s v.names);
  }

  search-placed :
      (string : List ℕ)
      → IsTerminated string
      → search u string
        ≡ some (elim (lex (text string) (key new)) [
          | equal ↦ some new
          | _ ↦ find (text string) (inorder t)
        ])
  search-placed string c =
      search-find u string placed-IsCache.ascending placed-IsCache.names c
      ∙ ap some (
          ap (find (text string)) listed
          ∙ find-place (text string) new (inorder t) v.ascending absent)

  placed-Inserted : Inserted t u new 1
  placed-Inserted = record {
    valid = placed-IsCache;
    fresh = λ e. (search-placed new.host_name s ∙ rw (lex_refl (key new)), refl);
    present = λ e found. ground (arith, absent, search-find t new.host_name v.ascending v.names s);
    others = λ string c differ. ground (
      arith,
      search-placed string c,
      search-find t string v.ascending v.names c,
      lex_eq (text string) (key new),
    );
  }

-- On a well-formed cache and a terminated name `insert` reads nothing out of range and keeps the
-- cache well formed, however the kernel rebalances: a name that `search` did not find is found
-- afterwards, with the new node, and 1 is returned; a name that it found keeps its node and the
-- tree, and 0 is returned; every other name finds what it found before.
pub search-insert :
    (rb : Rebalance) (t : Tree) (new : DnsNode)
    → IsCache t
    → IsTerminated new.host_name
    → (u : Tree) × (n : ℕ) × (insert rb t new ≡ some (u, n)) × Inserted t u new n
search-insert rb t new v s = elim (insert-place rb t new v s) [
  | inl (e, found, kept) ↦ (
    t,
    0,
    kept,
    record {
      valid = v;
      fresh = λ h. ground (arith, found, search-find t new.host_name v.ascending v.names s);
      present = λ d h. (refl, refl);
      others = λ string c differ. refl;
    },
  )
  | inr (u, absent, linked, listed) ↦ (u, 1, linked, placed-Inserted t u new v s absent listed)
]

-- The empty tree, RB_ROOT, is a cache, and finds nothing.
pub leaf-IsCache : IsCache leaf
unfolding inorder
leaf-IsCache = record { ascending = tt; names = tt }

-- On a well-formed cache `search` of a terminated name returns.
pub search_returns :
    (t : Tree) (string : List ℕ)
    → IsCache t
    → IsTerminated string
    → (r : Option DnsNode) × (search t string ≡ some r)
search_returns t string v c =
    (find (text string) (inorder t), search-find t string v.ascending v.names c)
