-- ===== src/TextManager/Navigate/Rounds.antt =====
-- A round of the loop of navigate.c, and the listings before it: both panels stay within their
-- directories.
use eltex.Base.{
  ◌≤◌, ℕ, suc, ◌-◌, ◌<◌, ◌≡◌, refl, ap₂, ◌∙◌, arith, ◌==◌, List, ◌++◌, some, length, Bool-cases,
  inl, inr, drop,
}
use eltex.Base.Int.{pos}
use eltex.TextManager.Files.{Dirent, Field, FileSystem, listed, Listing, print_files}
use eltex.TextManager.Files.Lines.{print_files-styled}
use eltex.TextManager.Navigate.{
  Key, handle_key, Manager, focused, with_focused, next_window, round, start,
}
use eltex.TextManager.Navigate.Panels.{IsClosed, IsPanel, handle_key-Stays}

module _ (fs : FileSystem) (Known : List ℕ → Type 0) (closed : IsClosed fs Known) (h : ℕ)
    (tall : 0 < h) where
  abbrev pub Fits : Field → Type 0
  Fits f = IsPanel fs Known closed h tall f

  -- Both panels so, and what `d` and `file_count` hold is the listing of the focused one.
  pub record IsManager (m : Manager) : Type 0 where
    pub left : Fits m.left
    pub right : Fits m.right
    pub here : Known m.cwd
    pub entries : List Dirent
    pub behind : List Dirent
    pub as_listed : listed fs (focused m).current_path ≡ some entries
    pub stored : m.d ≡ entries ++ behind
    pub counted : m.file_count ≡ pos (length entries - 1)

  -- What listing a panel stores.
  pub print_files-IsPanel :
      (f : Field) (old : List Dirent)
      → Fits f
      → (l : Listing) × (print_files fs h f old ≡ some l)
        × (entries : List Dirent) × (behind : List Dirent) × (listed fs f.current_path
            ≡ some entries)
        × (l.d ≡ entries ++ behind)
        × (l.file_count ≡ pos (length entries - 1))
  print_files-IsPanel f old p =
      let (es, e, two, fits, names) = closed.list_of p.path p.known in
      let as_listed : listed fs f.current_path ≡ some es = rw p.stands e in
      let at : f.current_region ≡ pos p.region = rw p.stands in
      let long : length es ≡ suc (length es - 1) = omega arith in
      (
        _,
        print_files-styled fs h f old es (length es - 1) p.region as_listed long (omega arith) at
            (omega (arith, p.visible)),
        es,
        drop (length es) old,
        as_listed,
        refl,
        refl,
      )

  focused-IsPanel : (m : Manager) → Fits m.left → Fits m.right → Fits (focused m)
  focused-IsPanel m left right = elim (Bool-cases (m.current_window == 0)) [
    | inl first ↦ rw first left
    | inr second ↦ rw second right
  ]

  with_focused-IsPanel :
      (m : Manager) (f : Field)
      → Fits m.left
      → Fits m.right
      → Fits f
      → Fits (with_focused m f).left × Fits (with_focused m f).right
  with_focused-IsPanel m f left right p = elim (Bool-cases (m.current_window == 0)) [
    | inl first ↦ rw first (p, right)
    | inr second ↦ rw second (left, p)
  ]

  -- A listed directory of the paths has few entries.
  pub few :
      (f : Field)
      → Fits f
      → (entries : List Dirent) → listed fs f.current_path ≡ some entries
      → length entries ≤ 256
  few f p entries at =
      let (es, e, two, fits, names) = closed.list_of p.path p.known in
      let here : listed fs p.path ≡ some entries = rw p.stands at at in
      let same : entries ≡ es = cc in rw same fits

  pub round-IsManager :
      (m : Manager) (key : Key)
      → IsManager m
      → (m' : Manager) × (round fs h m key ≡ some m') × IsManager m'
  unfolding round
  round-IsManager m key v =
      let (cwd, f, pressed, here, p) =
        handle_key-Stays fs Known closed h tall key m.cwd (focused m) v.entries v.behind v.here
          (focused-IsPanel m v.left v.right) v.as_listed in
      let pressed' : handle_key fs (pos h) m.file_count m.d key m.cwd (focused m) ≡ some (cwd, f) =
        ap₂ (λ n d. handle_key fs (pos h) n d key m.cwd (focused m)) v.counted v.stored ∙ pressed in
      let (left, right) = with_focused-IsPanel m f v.left v.right p in
      let m' = record (with_focused m f) { current_window = next_window key m.current_window } in
      let (l, printed, es, tail, as_listed, stored, counted) =
        print_files-IsPanel (focused m') m.d (focused-IsPanel m' left right) in
      (
        record m' { d = l.d; file_count = l.file_count; cwd = cwd },
        rw (round, pressed', printed),
        record {
          left = left;
          right = right;
          here = here;
          entries = es;
          behind = tail;
          as_listed = as_listed;
          stored = stored;
          counted = counted;
        },
      )

  pub start-IsManager :
      (left right : Field) (cwd : List ℕ) (d : List Dirent)
      → Fits left
      → Fits right
      → Known cwd
      → (m : Manager) × (start fs h left right cwd d ≡ some m) × IsManager m
  unfolding start
  start-IsManager left right cwd d p q k =
      let (a, first, _, _, _, _, _) = print_files-IsPanel left d p in
      let (b, second, _, _, _, _, _) = print_files-IsPanel right a.d q in
      let (l, third, es, tail, as_listed, stored, counted) = print_files-IsPanel left b.d p in
      (
        record {
          left = left;
          right = right;
          current_window = 0;
          d = l.d;
          file_count = l.file_count;
          cwd = cwd;
        },
        rw (start, first, second, third),
        record {
          left = p;
          right = q;
          here = k;
          entries = es;
          behind = tail;
          as_listed = as_listed;
          stored = stored;
          counted = counted;
        },
      )
