-- ===== src/TextManager/Navigate/Sessions.antt =====
-- Whole sessions of navigate.c, whatever keys are pressed: both panels stay within their directories.
use eltex.Base.{
  sym, ap, if◌then◌else◌, Bool, true, false, ◌≢◌, ◌%◌, ℕ, ◌<◌, ◌≡◌, refl, ◌∙◌, List, [], ◌∷◌, some,
  Bool-cases, inl, inr,
}
use mathlib.Core.Option.{some-injective}
use eltex.TextManager.Copy.{Turn, goes_on_with, answered, popup_turn}
use eltex.TextManager.Redraw.{total_refresh, total_refresh-print_files}
use eltex.TextManager.Files.{Style, Dirent, Field, FileSystem}
use eltex.TextManager.Navigate.{Key, Manager, goes_on, key_of, yank}
use eltex.TextManager.Navigate.Loop.{
  rounds, Mode, choosing, asking, hanging, ended, Session, is_yank, press_key, press_popup, press,
  navigate,
}
use eltex.TextManager.Navigate.Panels.{IsClosed}
use eltex.TextManager.Navigate.Rounds.{
  Fits, IsManager, print_files-IsPanel, few, round-IsManager, start-IsManager,
}

-- A y is typed before any q.
unfoldable pub asks : List ℕ → Bool
asks [] = false
asks (c ∷ keys) =
    if is_yank (key_of c) then true else if goes_on (key_of c) then asks keys else false

module _ (fs : FileSystem) (Known : List ℕ → Type 0) (closed : IsClosed fs Known) (h : ℕ)
    (tall : 0 < h) where
  -- total_refresh reads both panels without a fault.
  total_refresh-Fits :
      (left right : Field)
      → Fits fs Known closed h tall left
      → Fits fs Known closed h tall right
      → (lines : List (List ℕ × Style) × List (List ℕ × Style)) × (total_refresh fs h left right
          ≡ some lines)
  total_refresh-Fits left right p q =
      let (a, first, those, _, there, _, _) =
        print_files-IsPanel fs Known closed h tall left [] p in
      let (b, second, these, _, here, _, _) =
        print_files-IsPanel fs Known closed h tall right [] q in
      (
        (a.lines, b.lines),
        total_refresh-print_files fs h left right those these there here
              (few fs Known closed h tall left p those there)
              (few fs Known closed h tall right q these here)
            ∙ rw (first, second) refl,
      )

  -- Both panels fit, and the session hangs only where popup gets no window.
  abbrev pub Goes : Bool → Session → Type 0
  Goes dialogue s =
      IsManager fs Known closed h tall s.manager × (dialogue ≡ true → s.mode ≢ hanging)

  press_key-Goes :
      (dialogue : Bool) (m : Manager) (key : Key)
      → IsManager fs Known closed h tall m
      → (s : Session) × (press_key fs h dialogue m key ≡ some s) × Goes dialogue s
  unfolding press_key
  press_key-Goes dialogue m key v = elim (Bool-cases (is_yank key)) [
    | inl asks ↦ (
      record { mode = if dialogue then asking 1 else hanging; manager = m },
      rw asks refl,
      (v, λ shown. rw shown (λ e. cc)),
    )
    | inr plain ↦
        let (m', done, v') = round-IsManager fs Known closed h tall m key v in
        elim (Bool-cases (goes_on key)) [
          | inl more ↦ (
            record { mode = choosing; manager = m' },
            rw (plain, done, more) refl,
            (v', λ _ e. cc),
          )
          | inr ends ↦
              (record { mode = ended; manager = m' }, rw (plain, done, ends) refl, (v', λ _ e. cc))
        ]
  ]

  press_popup-Goes :
      (dialogue : Bool) (m : Manager) (turn : Turn)
      → IsManager fs Known closed h tall m
      → (s : Session) × (press_popup fs h dialogue m turn ≡ some s) × Goes dialogue s
  unfolding press_popup
  press_popup-Goes dialogue m (goes_on_with button) v = (_, refl, (v, λ _ e. cc))
  press_popup-Goes dialogue m (answered button) v =
      let (lines, drawn) = total_refresh-Fits m.left m.right v.left v.right in
      let (m', done, v') = round-IsManager fs Known closed h tall m yank v in
      (record { mode = choosing; manager = m' }, rw (drawn, done) refl, (v', λ _ e. cc))

  press-Goes :
      (dialogue : Bool) (mode : Mode) (m : Manager) (c : ℕ)
      → Goes dialogue (record { mode = mode; manager = m })
      → (s : Session) × (press fs h dialogue mode m c ≡ some s) × Goes dialogue s
  unfolding press
  press-Goes dialogue choosing m c v = press_key-Goes dialogue m (key_of c) v.0
  press-Goes dialogue (asking button) m c v =
      press_popup-Goes dialogue m (popup_turn button (c % 256)) v.0
  press-Goes dialogue hanging m c v = (_, refl, v)
  press-Goes dialogue ended m c v = (_, refl, v)

  rounds-Goes :
      (dialogue : Bool) (keys : List ℕ) (s : Session)
      → Goes dialogue s
      → (t : Session) × (rounds fs h dialogue s keys ≡ some t) × Goes dialogue t
  unfolding rounds
  rounds-Goes dialogue [] s v = (s, refl, v)
  rounds-Goes dialogue (c ∷ keys) s v =
      let (t, done, w) = press-Goes dialogue s.mode s.manager c v in
      let (u, rest, x) = rounds-Goes dialogue keys t w in (u, rw (rounds, done) rest, x)

  -- Without its window the dialogue takes no key.
  rounds-hanging :
      (dialogue : Bool) (keys : List ℕ) (m : Manager)
      → rounds fs h dialogue (record { mode = hanging; manager = m }) keys
        ≡ some (record { mode = hanging; manager = m })
  unfolding rounds press
  rounds-hanging dialogue [] m = refl
  rounds-hanging dialogue (c ∷ keys) m = rounds-hanging dialogue keys m

  rounds-asks :
      (dialogue : Bool) (keys : List ℕ) (m : Manager) (s : Session)
      → IsManager fs Known closed h tall m
      → rounds fs h dialogue (record { mode = choosing; manager = m }) keys ≡ some s
      → dialogue ≡ false
      → asks keys ≡ true
      → s.mode ≡ hanging
  unfolding rounds press press_key asks
  rounds-asks dialogue [] m s v e small typed = let never : false ≡ true = typed in absurd cc
  rounds-asks dialogue (c ∷ keys) m s v e small typed = elim (Bool-cases (is_yank (key_of c))) [
    | inl y ↦
        let stuck =
          some-injective _ _ (rw (rounds, y, small, rounds-hanging dialogue keys m) at e) in
        sym (ap (λ (s : Session). s.mode) stuck)
    | inr plain ↦ elim (Bool-cases (goes_on (key_of c))) [
      | inl more ↦
          let (m', done, v') = round-IsManager fs Known closed h tall m (key_of c) v in
          rounds-asks dialogue keys m' s v' (rw (rounds, plain, done, more) at e) small
            (rw (asks, plain, more) at typed)
      | inr ends ↦ let never : false ≡ true = rw (asks, plain, ends) at typed in absurd cc
    ]
  ]

  -- Over a file system in which chdir leads from a set of paths only to paths of the set, each shorter
  -- than 1700 bytes and of a directory that can be read, of 2 to 256 entries, which still read as entries
  -- with names of less than 256 bytes once closedir has freed them (the code reads them only then): from
  -- panels of one line at least that fit their directories, whatever is typed, at the panels or in the
  -- dialogue of y, `navigate` never reads an entry of the array that was never filled, nor writes
  -- past a path; both panels fit their directories afterwards, and the array holds the focused one's
  -- entries. Where derwin makes the dialogue's window, no y leads into a loop that takes no keys; where it
  -- does not, the first y that is typed before a q does, and nothing that follows it is taken.
  pub navigate-IsManager :
      (dialogue : Bool) (left right : Field) (cwd : List ℕ) (d : List Dirent) (keys : List ℕ)
      → Fits fs Known closed h tall left
      → Fits fs Known closed h tall right
      → Known cwd
      → (s : Session) × (navigate fs h dialogue left right cwd d keys ≡ some s)
        × IsManager fs Known closed h tall s.manager
        × (dialogue ≡ true → s.mode ≢ hanging)
        × (dialogue ≡ false → asks keys ≡ true → s.mode ≡ hanging)
  unfolding navigate
  navigate-IsManager dialogue left right cwd d keys p q k =
      let (m, begun, v) = start-IsManager fs Known closed h tall left right cwd d p q k in
      let (s, done, w) =
        rounds-Goes dialogue keys (record { mode = choosing; manager = m }) (v, λ _ e. cc) in
      (s, rw (navigate, begun) done, w.0, w.1, rounds-asks dialogue keys m s v done)
