-- ===== src/Sniffer/Capture.antt =====
-- sniffer/main.c: main, as the calls of libpcap that it makes for the options, and print_devices.
-- ERROR only prints, so every call is followed by the next one whatever it gave. `none` is a pointer
-- followed that was never set.
pub mod Loops
use eltex.Base.{
  refl, sym, ap, ◌∙◌, ℕ, zero, suc, ◌+◌, ◌≡◌, Bool, true, false, Option, none, some, List, [], ◌∷◌,
  ◌++◌, map, ◌==◌, ◌>>=◌, if◌then◌else◌, arith, All,
}

-- What libpcap answers: the devices that it finds, the name that it looks up, the handle
-- that it opens, and whether the other three calls succeed.
pub record Pcap : Type 0 where
  pub findalldevs : Option (List (List ℕ))
  pub lookupdev : Option (List ℕ)
  pub lookupnet : Bool
  pub open_live : Option ℕ
  pub compile : Bool
  pub setfilter : Bool

-- A handle is the number of one, or NULL.
pub data Act : Type 0 where
  error : Act
  device : List ℕ → Act
  looked_up : Option (List ℕ) → Act
  opened : Option (List ℕ) → Act
  compiled filtered closed : Option ℕ → Act
  looped : Option ℕ → ℕ → Act

abbrev pub error_if : Bool → List Act
error_if true = error ∷ []
error_if false = []

abbrev pub is_none : {A : Type 0} → Option A → Bool
is_none none = true
is_none (some a) = false

abbrev pub is_false : Bool → Bool
is_false true = false
is_false false = true

-- The list is walked also where it was not set.
unfoldable pub print_devices : Pcap → Option (List Act)
print_devices p = elim p.findalldevs [
  | none ↦ none
  | some names ↦ some (map (λ name. device name) names)
]

-- The case of -l.
unfoldable pub capture : Pcap → List Act
capture p =
    error_if (is_none p.lookupdev)
    ++ looked_up p.lookupdev ∷ error_if (is_false p.lookupnet)
    ++ opened p.lookupdev ∷ error_if (is_none p.open_live)
    ++ compiled p.open_live ∷ error_if (is_false p.compile)
    ++ filtered p.open_live ∷ error_if (is_false p.setfilter)
    ++ looped p.open_live 100000 ∷ closed p.open_live ∷ []

-- The switch.
unfoldable pub on_option : Pcap → ℕ → Option (List Act)
on_option p opt =
    if opt == b'p' then print_devices p else if opt == b'l' then some (capture p) else some []

-- The loop over the options.
unfoldable pub main : Pcap → List ℕ → Option (List Act)
main p [] = some []
main p (opt ∷ opts) = do now ← on_option p opt; rest ← main p opts; some (now ++ rest)

-- How often packets are captured with a handle.
abbrev pub loops_on : List Act → List (Option ℕ)
loops_on [] = []
loops_on (looped h n ∷ acts) = h ∷ loops_on acts
loops_on (_ ∷ acts) = loops_on acts

-- An error for each call that failed.
abbrev pub errors : List Act → ℕ
errors [] = 0
errors (error ∷ acts) = suc (errors acts)
errors (_ ∷ acts) = errors acts
