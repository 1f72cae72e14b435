-- ===== src/TextManager/Navigate/Panels.antt =====
-- A panel of navigate.c that stands within its directory, and what one key makes of it.
use eltex.Base.{
  ℕ, zero, suc, ◌+◌, ◌-◌, ◌≤◌, ◌<◌, ◌≡◌, refl, sym, ◌∙◌, arith, ◌==◌, List, [], ◌∷◌, ◌++◌, Option,
  some, length, length-append, All, get_elem?, get_elem?-some, Bool-cases, Option-cases, inl, inr,
}
use eltex.Base.Int.{pos, ◌+ℤ◌}
use eltex.TextManager.Files.{Dirent, Field, FileSystem, listed, entry_at, clear_path}
use eltex.TextManager.Navigate.{
  Key, down, up, page_down, page_up, enter, parent, yank, tab, quit, other, handle_key,
  open_directory, open_parent, append_path, top_of,
}
use eltex.TextManager.Navigate.Cursor.{at_line, IsVisible, IsMove, handle_key-Shows}

-- The paths that a session may come to: each is short, its directory can be read and has from 2
-- to 256 entries, which still read behind closedir as entries with names of less than 256 bytes,
-- whatever else is in them, and chdir leads from these paths to such paths only.
pub record IsClosed (fs : FileSystem) (Known : List ℕ → Type 0) : Type 0 where
  pub short : (p : List ℕ) → Known p → length p < 1700
  pub list_of :
      (p : List ℕ)
      → Known p
      → (es : List Dirent) × (listed fs p ≡ some es)
        × (2 ≤ length es)
        × (length es ≤ 256)
        × All (λ (e : Dirent). length e.d_name < 256) es
  pub leads : (cwd q there : List ℕ) → Known cwd → fs.chdir cwd q ≡ some there → Known there

-- Every element of a list at an index has what all have.
All-get_elem? :
    (es : List Dirent) (i : ℕ) (e : Dirent)
    → All (λ (e : Dirent). length e.d_name < 256) es
    → get_elem? es i ≡ some e
    → length e.d_name < 256
All-get_elem? [] i e a h = ground (arith, h)
All-get_elem? (x ∷ es) zero e a h = let same : x ≡ e = cc in rw (sym same) a.0
All-get_elem? (x ∷ es) (suc i) e a h = All-get_elem? es i e a.1 h

get_elem?-front :
    (es tail : List Dirent) (i : ℕ) → i < length es → get_elem? (es ++ tail) i ≡ get_elem? es i
get_elem?-front [] tail i h = absurd (omega arith)
get_elem?-front (e ∷ es) tail zero h = refl
get_elem?-front (e ∷ es) tail (suc i) h = get_elem?-front es tail i (omega arith)

module _ (fs : FileSystem) (Known : List ℕ → Type 0) (closed : IsClosed fs Known) (h : ℕ)
    (tall : 0 < h) where
  -- A panel over a known directory: the line is on the screen and the entry under it is one of those
  -- that can be selected.
  pub record IsPanel (f : Field) : Type 0 where
    pub path : List ℕ
    pub known : Known path
    pub region : ℕ
    pub line : ℕ
    pub stands : f ≡ at_line path region line
    pub visible : IsVisible h (length (closed.list_of path known).0 - 1) region line

  clear_path-Known : (cwd q : List ℕ) → Known cwd → Known (clear_path fs cwd q)
  unfolding clear_path
  clear_path-Known cwd q k = elim (Option-cases (fs.chdir cwd q)) [
    | inl fails ↦ rw (clear_path, fails) k
    | inr (there, e) ↦ rw (clear_path, e) (closed.leads cwd q there k e)
  ]

  pub top_of-IsPanel : (q : List ℕ) (f : Field) → Known q → IsPanel (top_of q f)
  top_of-IsPanel q f k = record {
    path = q;
    known = k;
    region = 0;
    line = 0;
    stands = refl;
    visible = let two = (closed.list_of q k).2 in omega (arith, two);
  }

  -- What a key leaves of the focused panel.
  abbrev pub Stays : Option (List ℕ × Field) → Type 0
  Stays o = (cwd : List ℕ) × (f : Field) × (o ≡ some (cwd, f)) × Known cwd × IsPanel f

  append_path_lem :
      (p more : List ℕ) → length p + length more < 2048 → append_path p more ≡ some (p ++ more)
  append_path_lem p more fits = ground (arith, length-append p more)

  there-Stays :
      (q cwd : List ℕ) (f : Field)
      → Known cwd
      → Stays (some (clear_path fs cwd q, top_of (clear_path fs cwd q) f))
  there-Stays q cwd f k =
      let k' = clear_path-Known cwd q k in
      (
        clear_path fs cwd q,
        top_of (clear_path fs cwd q) f,
        refl,
        k',
        top_of-IsPanel (clear_path fs cwd q) f k',
      )

  open_parent-Stays :
      (cwd : List ℕ) (f : Field) → Known cwd → IsPanel f → Stays (open_parent fs cwd f)
  unfolding open_parent
  open_parent-Stays cwd f k p =
      let room : length f.current_path + 3 < 2048 =
        rw p.stands (let small = closed.short p.path p.known in omega arith) in
      rw (open_parent, append_path_lem f.current_path (b'/' ∷ b'.' ∷ b'.' ∷ []) room)
        (there-Stays (f.current_path ++ b'/' ∷ b'.' ∷ b'.' ∷ []) cwd f k)

  open_directory_lem :
      (cwd p : List ℕ) (es behind : List Dirent) (r l : ℕ)
      → Known cwd
      → length p < 1700
      → All (λ (e : Dirent). length e.d_name < 256) es
      → r + l < length es
      → IsPanel (at_line p r l)
      → Stays (open_directory fs cwd (es ++ behind) (at_line p r l))
  unfolding open_directory
  open_directory_lem cwd p es behind r l k small names inside v =
      let (e0, first) = get_elem?-some es l (omega arith) in
      let (e1, both) = get_elem?-some es (r + l) inside in
      let tested : get_elem? (es ++ behind) l ≡ some e0 =
        get_elem?-front es behind l (omega arith) ∙ first in
      let sum : pos r +ℤ pos l ≡ pos (r + l) = ground arith in
      let chosen : entry_at (es ++ behind) (pos r +ℤ pos l) ≡ some e1 =
        rw sum (get_elem?-front es behind (r + l) inside ∙ both) in
      let named : length e1.d_name < 256 = All-get_elem? es (r + l) e1 names both in
      let slashed : length (p ++ b'/' ∷ []) ≡ length p + 1 = length-append p (b'/' ∷ []) in
      let slash = append_path_lem p (b'/' ∷ []) (omega arith) in
      let path = append_path_lem (p ++ b'/' ∷ []) e1.d_name (omega arith) in
      elim (Bool-cases (e0.d_type == 4)) [
        | inl dir ↦
            rw (open_directory, tested, dir, chosen, slash, path)
              (there-Stays ((p ++ b'/' ∷ []) ++ e1.d_name) cwd (at_line p r l) k)
        | inr file ↦ rw (open_directory, tested, file) (cwd, at_line p r l, refl, k, v)
      ]

  module _ (cwd p : List ℕ) (here : Known cwd) (known : Known p) (behind : List Dirent) (r l : ℕ)
      (v : IsVisible h (length (closed.list_of p known).0 - 1) r l) where
    abbrev entries_of : List Dirent
    entries_of = (closed.list_of p known).0

    at_line-IsPanel : IsPanel (at_line p r l)
    at_line-IsPanel = record {
      path = p;
      known = known;
      region = r;
      line = l;
      stands = refl;
      visible = v;
    }

    abbrev pressed : Key → Option (List ℕ × Field)
    pressed key =
        handle_key fs (pos h) (pos (length entries_of - 1)) (entries_of ++ behind) key cwd
          (at_line p r l)

    move-Stays : (key : Key) → IsMove key → Stays (pressed key)
    move-Stays key m =
        let (f, moved, (r', l', stands, v', selected)) =
          handle_key-Shows fs (entries_of ++ behind) cwd p h (length entries_of - 1) r l key v m in
        (
          cwd,
          f,
          moved,
          here,
          record { path = p; known = known; region = r'; line = l'; stands = stands; visible = v' },
        )

    pressed-Stays : (key : Key) → Stays (pressed key)
    unfolding handle_key
    pressed-Stays down = move-Stays down tt
    pressed-Stays up = move-Stays up tt
    pressed-Stays page_down = move-Stays page_down tt
    pressed-Stays page_up = move-Stays page_up tt
    pressed-Stays enter =
        let (es, e, two, fits, names) = closed.list_of p known in
        open_directory_lem cwd p es behind r l here (closed.short p known) names (omega arith)
          at_line-IsPanel
    pressed-Stays parent = open_parent-Stays cwd (at_line p r l) here at_line-IsPanel
    pressed-Stays yank = (cwd, at_line p r l, refl, here, at_line-IsPanel)
    pressed-Stays tab = (cwd, at_line p r l, refl, here, at_line-IsPanel)
    pressed-Stays quit = (cwd, at_line p r l, refl, here, at_line-IsPanel)
    pressed-Stays other = (cwd, at_line p r l, refl, here, at_line-IsPanel)

  pub handle_key-Stays :
      (key : Key) (cwd : List ℕ) (f : Field) (entries behind : List Dirent)
      → Known cwd
      → IsPanel f
      → listed fs f.current_path ≡ some entries
      → Stays (handle_key fs (pos h) (pos (length entries - 1)) (entries ++ behind) key cwd f)
  handle_key-Stays key cwd f entries behind k p given =
      let (es, e, two, fits, names) = closed.list_of p.path p.known in
      let here : listed fs p.path ≡ some entries = rw p.stands at given in
      let same : entries ≡ es = cc in
      rw (same, p.stands) (pressed-Stays cwd p.path k p.known behind p.region p.line p.visible key)
