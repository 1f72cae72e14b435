-- ===== src/Proxy/Cache/Around.antt =====
-- An ascending list of nodes cut at one of them: what stands on its sides, and where lookup and
-- insertion go then, as `search` and `insert` of proxy_server.c do at a node of the tree.
use eltex.Base.{ℕ, ◌≡◌, some, List, [], ◌∷◌, ◌++◌, arith}
use eltex.Cstring.{less, equal, greater, lex, IsTerminated}
use eltex.Cstring.Laws.{lex_eq, lex-flip, lex_trans}
use eltex.Proxy.Cache.{DnsNode}
use eltex.Proxy.Cache.Answers.{
  key, find, place, Above, Below, IsAscending, AllTerminated, Above-trans, find-Above,
}

module _ (d : DnsNode) where
  -- What an ascending list around a node says of its two sides.
  pub record Around (ls rs : List DnsNode) : Type 0 where
    pub left : IsAscending ls
    pub right : IsAscending rs
    pub below : Below (key d) ls
    pub above : Above (key d) rs
    pub left_names : AllTerminated ls
    pub right_names : AllTerminated rs
    pub name : IsTerminated d.host_name

  Above-middle : (k : List ℕ) (ls rs : List DnsNode) → Above k (ls ++ d ∷ rs) → lex k (key d) ≡ less
  Above-middle k [] rs a = a.0
  Above-middle k (e ∷ ls) rs a = Above-middle k ls rs a.1

  Above-left : (k : List ℕ) (ls rs : List DnsNode) → Above k (ls ++ d ∷ rs) → Above k ls
  Above-left k [] rs a = tt
  Above-left k (e ∷ ls) rs a = (a.0, Above-left k ls rs a.1)

  pub around :
      (ls rs : List DnsNode)
      → IsAscending (ls ++ d ∷ rs)
      → AllTerminated (ls ++ d ∷ rs)
      → Around ls rs
  around [] rs a t = record {
    left = tt;
    right = a.1;
    below = tt;
    above = a.0;
    left_names = tt;
    right_names = t.1;
    name = t.0;
  }
  around (e ∷ ls) rs a t =
      let rest = around ls rs a.1 t.1 in
      record {
        left = (Above-left (key e) ls rs a.0, rest.left);
        right = rest.right;
        below = (Above-middle (key e) ls rs a.0, rest.below);
        above = rest.above;
        left_names = (t.0, rest.left_names);
        right_names = rest.right_names;
        name = rest.name;
      }

  pub find-append_less :
      (k : List ℕ) (ls rs : List DnsNode)
      → lex k (key d) ≡ less
      → Above (key d) rs
      → find k (ls ++ d ∷ rs) ≡ find k ls
  unfolding find
  find-append_less k [] rs h a = ground (arith, find-Above k rs (Above-trans k (key d) rs h a))
  find-append_less k (e ∷ ls) rs h a = ground (arith, find-append_less k ls rs h a)

  pub find-append_greater :
      (k : List ℕ) (ls rs : List DnsNode)
      → lex k (key d) ≡ greater
      → Below (key d) ls
      → find k (ls ++ d ∷ rs) ≡ find k rs
  unfolding find
  find-append_greater k [] rs h b = ground arith
  find-append_greater k (e ∷ ls) rs h b =
      ground (arith, lex_eq k (key e), find-append_greater k ls rs h b.1)

  pub find-append_equal :
      (k : List ℕ) (ls rs : List DnsNode)
      → lex k (key d) ≡ equal
      → Below (key d) ls
      → find k (ls ++ d ∷ rs) ≡ some d
  unfolding find
  find-append_equal k [] rs h b = ground arith
  find-append_equal k (e ∷ ls) rs h b =
      ground (arith, lex_eq k (key e), lex-flip k (key d), find-append_equal k ls rs h b.1)

  pub place-append_less :
      (new : DnsNode) (ls rs : List DnsNode)
      → lex (key new) (key d) ≡ less
      → place new (ls ++ d ∷ rs) ≡ place new ls ++ d ∷ rs
  unfolding place
  place-append_less new [] rs h = ground arith
  place-append_less new (e ∷ ls) rs h = ground (arith, place-append_less new ls rs h)

  pub place-append_greater :
      (new : DnsNode) (ls rs : List DnsNode)
      → lex (key new) (key d) ≡ greater
      → Below (key d) ls
      → place new (ls ++ d ∷ rs) ≡ ls ++ d ∷ place new rs
  unfolding place
  place-append_greater new [] rs h b = ground arith
  place-append_greater new (e ∷ ls) rs h b = ground (
    arith,
    lex_eq (key new) (key e),
    lex-flip (key new) (key d),
    lex-flip (key new) (key e),
    lex_trans (key new) (key e) (key d),
    place-append_greater new ls rs h b.1,
  )
