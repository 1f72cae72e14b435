-- ===== src/TextManager/Navigate/Loop.antt =====
-- navigate.c, where its keys go: to the loop or to the dialogue that y shows, and the whole of navigate.
use eltex.Base.{Bool, true, false, ◌>>=◌, ℕ, ◌%◌, Option, none, some, List, [], ◌∷◌, if◌then◌else◌}
use eltex.TextManager.Copy.{Turn, goes_on_with, answered, popup_turn}
use eltex.TextManager.Redraw.{total_refresh}
use eltex.TextManager.Files.{Dirent, Field, FileSystem}
use eltex.TextManager.Navigate.{Key, yank, key_of, goes_on, Manager, round, start}

-- Where the process takes its next key: at getch of the loop; in the dialogue of ui.c, with the
-- button chosen; in a dialogue that got no window, where wgetch has an error for each turn and no key
-- is ever taken; or nowhere, behind the loop.
pub data Mode : Type 0 where
  choosing : Mode
  asking : ℕ → Mode
  hanging ended : Mode

pub record Session : Type 0 where
  pub mode : Mode
  pub manager : Manager

abbrev pub is_yank : Key → Bool
is_yank yank = true
is_yank _ = false

module _ (fs : FileSystem) (height : ℕ) (dialogue : Bool) where
  -- A key at getch; `dialogue` is whether derwin makes the window of popup.
  unfoldable pub press_key : Manager → Key → Option Session
  press_key m key =
      if is_yank key
      then some (record { mode = if dialogue then asking 1 else hanging; manager = m })
      else (do
        m' ← round fs height m key
        some (record { mode = if goes_on key then choosing else ended; manager = m' }))

  -- A turn of the dialogue; answered, it draws both panels anew, and the round of y goes on.
  unfoldable pub press_popup : Manager → Turn → Option Session
  press_popup m (goes_on_with button) = some (record { mode = asking button; manager = m })
  press_popup m (answered button) = do
    _ ← total_refresh fs height m.left m.right
    m' ← round fs height m yank
    some (record { mode = choosing; manager = m' })

  -- A key, where the process is; popup keeps a char of it.
  unfoldable pub press : Mode → Manager → ℕ → Option Session
  press choosing m c = press_key m (key_of c)
  press (asking button) m c = press_popup m (popup_turn button (c % 256))
  press hanging m c = some (record { mode = hanging; manager = m })
  press ended m c = some (record { mode = ended; manager = m })

  -- The loop over the keys that are typed.
  unfoldable pub rounds : Session → List ℕ → Option Session
  rounds s [] = some s
  rounds s (c ∷ keys) = elim (press s.mode s.manager c) [ none ↦ none | some t ↦ rounds t keys ]

-- `d` is what the array on the stack held.
unfoldable pub navigate :
    FileSystem → ℕ → Bool → Field → Field → List ℕ → List Dirent → List ℕ → Option Session
navigate fs height dialogue left right cwd d keys =
    (start fs height left right cwd d >>= λ m.
    rounds fs height dialogue (record { mode = choosing; manager = m }) keys)
