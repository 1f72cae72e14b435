-- ===== src/Proxy/Cache/Answers.antt =====
-- What the tree of answers stands for: the list of its nodes by ascending name, with lookup by
-- name and insertion of a name that is not there.
use eltex.Base.{inl, inr, sym, ℕ, ◌≡◌, refl, Option, none, some, List, [], ◌∷◌, arith, All}
use eltex.Cstring.{less, equal, greater, text, lex, IsTerminated}
use eltex.Cstring.Laws.{lex_eq, lex-flip, lex_trans, Sign-cases}
use eltex.Proxy.Cache.{DnsNode}

abbrev pub key : DnsNode → List ℕ
key d = text d.host_name

-- The node with a given name.
unfoldable pub find : List ℕ → List DnsNode → Option DnsNode
find k [] = none
find k (d ∷ ds) = elim (lex k (key d)) [ equal ↦ some d | _ ↦ find k ds ]

-- A list with a node put in its place, or as it was where the name is there.
unfoldable pub place : DnsNode → List DnsNode → List DnsNode
place d [] = d ∷ []
place d (e ∷ es) = elim (lex (key d) (key e)) [
  | less ↦ d ∷ e ∷ es
  | equal ↦ e ∷ es
  | greater ↦ e ∷ place d es
]

-- Every name of the list is greater than `k`.
abbrev pub Above : List ℕ → List DnsNode → Type 0
Above k = All (λ d. lex k (key d) ≡ less)

abbrev pub Below : List ℕ → List DnsNode → Type 0
Below k = All (λ d. lex (key d) k ≡ less)

abbrev pub IsAscending : List DnsNode → Type 0
IsAscending [] = Unit
IsAscending (d ∷ ds) = Above (key d) ds × IsAscending ds

abbrev pub AllTerminated : List DnsNode → Type 0
AllTerminated = All (λ d. IsTerminated d.host_name)

pub Above-trans : (j k : List ℕ) (ds : List DnsNode) → lex j k ≡ less → Above k ds → Above j ds
Above-trans j k [] h a = tt
Above-trans j k (d ∷ ds) h a = (lex_trans j k (key d) h a.0, Above-trans j k ds h a.1)

pub find-Above : (k : List ℕ) (ds : List DnsNode) → Above k ds → find k ds ≡ none
unfolding find
find-Above k [] a = refl
find-Above k (d ∷ ds) a = ground (arith, find-Above k ds)

pub find-place :
    (k : List ℕ) (d : DnsNode) (ds : List DnsNode)
    → IsAscending ds
    → find (key d) ds ≡ none
    → find k (place d ds) ≡ elim (lex k (key d)) [ equal ↦ some d | _ ↦ find k ds ]
unfolding find place
find-place k d [] a absent = refl
find-place k d (e ∷ es) a absent =
    ground (arith, find-place k d es a.1, lex-flip (key d) (key e), lex_eq k (key e))

place-Above :
    (k : List ℕ) (d : DnsNode) (ds : List DnsNode)
    → lex k (key d) ≡ less
    → Above k ds
    → Above k (place d ds)
unfolding place
place-Above k d [] h a = (h, tt)
place-Above k d (e ∷ es) h a = ground (arith, place-Above k d es)

pub place-IsAscending :
    (d : DnsNode) (ds : List DnsNode) → IsAscending ds → IsAscending (place d ds)
unfolding place
place-IsAscending d [] a = (tt, tt)
place-IsAscending d (e ∷ es) a = ground (
  arith,
  place-IsAscending d es,
  place-Above (key e) d es,
  lex-flip (key d) (key e),
  Above-trans (key d) (key e) es,
)

pub place-AllTerminated :
    (d : DnsNode) (ds : List DnsNode)
    → IsTerminated d.host_name
    → AllTerminated ds
    → AllTerminated (place d ds)
unfolding place
place-AllTerminated d [] t a = (t, tt)
place-AllTerminated d (e ∷ es) t a = ground (arith, place-AllTerminated d es)

-- A node that was found has the name, and is one of the list's.
pub find-key :
    (k : List ℕ) (ds : List DnsNode) (d : DnsNode)
    → AllTerminated ds
    → find k ds ≡ some d
    → (key d ≡ k) × IsTerminated d.host_name
unfolding find
find-key k [] d t e = cc
find-key k (x ∷ ds) d t e = elim (Sign-cases (lex k (key x))) [
  | inl less_than ↦ find-key k ds d t.1 (ground (arith, less_than))
  | inr (inl same) ↦
      let hit : x ≡ d = ground (arith, same) in rw (← hit) (sym (lex_eq k (key x) same), t.0)
  | inr (inr greater_than) ↦ find-key k ds d t.1 (ground (arith, greater_than))
]
