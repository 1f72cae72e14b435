-- ===== src/Base/Fallible.antt =====
-- Chains of calls that can fail, in do blocks: `none` ends the chain.
use mathlib.Core.Option.{Option, none, some}

infixl 5 ◌>>=◌
abbrev pub ◌>>=◌ : {A B : Type 0} → Option A → (A → Option B) → Option B
none >>= f = none
some a >>= f = f a
