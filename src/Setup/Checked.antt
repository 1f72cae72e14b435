-- ===== src/Setup/Checked.antt =====
-- Set-ups that stop at the first call that fails.
use eltex.Base.{◌≡◌, true, false, List, [], ◌∷◌, ◌++◌, All, Bool-cases, inl, inr}
use native.Mathlib.Omega.{arith}
use eltex.Base.Int.{ℤ}
use eltex.Setup.{
  Call, Outcome, ready, died, waiting, Setup, go_on, ◌>>=◌, pure, is_negative, checked,
}

abbrev pub Succeeded : Call × ℤ → Type 0
Succeeded c = is_negative c.1 ≡ false

-- Calls that succeeded, and the one behind them that failed.
abbrev pub FailsLast : List (Call × ℤ) → Type 0
FailsLast [] = ⊥
FailsLast (c ∷ []) = is_negative c.1 ≡ true
FailsLast (c ∷ (d ∷ calls)) = Succeeded c × FailsLast (d ∷ calls)

abbrev pub Verdict : {A : Type 0} → Outcome A → List (Call × ℤ) → Type 0
Verdict died calls = FailsLast calls
Verdict _ calls = All Succeeded calls

-- Whatever the kernel answers, it dies at the first call that fails, with no call behind it, and
-- otherwise all calls succeeded.
abbrev pub IsChecked : {A : Type 0} → Setup A → Type 0
IsChecked m = (answers : List ℤ) → Verdict (m answers).outcome (m answers).calls

pub pure-IsChecked : {A : Type 0} (a : A) → IsChecked (pure a)
pure-IsChecked a answers = tt

pub checked-IsChecked : (c : Call) → IsChecked (checked c)
checked-IsChecked c [] = tt
checked-IsChecked c (a ∷ answers) = elim (Bool-cases (is_negative a)) [
  | inl failed ↦ ground (arith, failed)
  | inr fine ↦ ground (arith, fine)
]

-- Calls that succeeded in front.
fails_behind :
    (before calls : List (Call × ℤ))
    → All Succeeded before
    → FailsLast calls
    → FailsLast (before ++ calls)
fails_behind [] calls h v = v
fails_behind (c ∷ before) [] h v = absurd v
fails_behind (c ∷ []) (d ∷ calls) h v = (h.0, v)
fails_behind (c ∷ (e ∷ before)) (d ∷ calls) h v = (h.0, fails_behind (e ∷ before) (d ∷ calls) h.1 v)

verdict_behind :
    {A : Type 0} (o : Outcome A) (before calls : List (Call × ℤ))
    → All Succeeded before
    → Verdict o calls
    → Verdict o (before ++ calls)
verdict_behind (ready a) [] calls h v = v
verdict_behind (ready a) (c ∷ before) calls h v = (h.0, verdict_behind (ready a) before calls h.1 v)
verdict_behind {A} waiting [] calls h v = v
verdict_behind {A} waiting (c ∷ before) calls h v =
    (h.0, verdict_behind {A = A} waiting before calls h.1 v)
verdict_behind died before calls h v = fails_behind before calls h v

go_on-Verdict :
    {A B : Type 0} (o : Outcome A) (calls : List (Call × ℤ)) (rest : List ℤ) (f : A → Setup B)
    → Verdict o calls
    → ((a : A) → IsChecked (f a))
    → Verdict (go_on o calls rest f).outcome (go_on o calls rest f).calls
go_on-Verdict (ready a) calls rest f v k =
    verdict_behind (f a rest).outcome calls (f a rest).calls v (k a rest)
go_on-Verdict died calls rest f v k = v
go_on-Verdict waiting calls rest f v k = v

pub bind-IsChecked :
    {A B : Type 0} (m : Setup A) (f : A → Setup B)
    → IsChecked m
    → ((a : A) → IsChecked (f a))
    → IsChecked (m >>= f)
bind-IsChecked m f h k answers =
    go_on-Verdict (m answers).outcome (m answers).calls (m answers).rest f (h answers) k
