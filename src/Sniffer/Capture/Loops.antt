-- ===== src/Sniffer/Capture/Loops.antt =====
-- How often, and on what, main of sniffer/main.c captures.
use eltex.Base.{
  refl, ap, ap₂, ◌∙◌, ℕ, zero, suc, ◌+◌, ◌≡◌, Bool, true, false, Option, none, some, List, [], ◌∷◌,
  ◌++◌, map, ◌==◌, if◌then◌else◌, arith, replicate,
}
use native.Mathlib.Decide.{ℕ_discrete}
use eltex.Sniffer.Capture.{
  Pcap, Act, device, print_devices, capture, on_option, main, loops_on, error_if, error, looked_up,
  opened, compiled, filtered, closed, looped,
}

loops_on-append : (xs ys : List Act) → loops_on (xs ++ ys) ≡ loops_on xs ++ loops_on ys
loops_on-append [] ys = refl
loops_on-append (looped h n ∷ xs) ys = ap (◌∷◌ h) (loops_on-append xs ys)
loops_on-append (error ∷ xs) ys = loops_on-append xs ys
loops_on-append (device name ∷ xs) ys = loops_on-append xs ys
loops_on-append (looked_up d ∷ xs) ys = loops_on-append xs ys
loops_on-append (opened d ∷ xs) ys = loops_on-append xs ys
loops_on-append (compiled h ∷ xs) ys = loops_on-append xs ys
loops_on-append (filtered h ∷ xs) ys = loops_on-append xs ys
loops_on-append (closed h ∷ xs) ys = loops_on-append xs ys

loops_on-devices : (names : List (List ℕ)) → loops_on (map (λ name. device name) names) ≡ []
loops_on-devices [] = refl
loops_on-devices (name ∷ names) = loops_on-devices names

error_if-loops : (b : Bool) → loops_on (error_if b) ≡ []
error_if-loops true = refl
error_if-loops false = refl

capture-loops : (p : Pcap) → loops_on (capture p) ≡ p.open_live ∷ []
unfolding capture
capture-loops p = simp (loops_on-append, error_if-loops) refl

-- How often -l stands among the options.
abbrev pub captures : List ℕ → ℕ
captures [] = 0
captures (opt ∷ opts) = (if opt == b'l' then 1 else 0) + captures opts

module _ (p : Pcap) (names : List (List ℕ)) (found : p.findalldevs ≡ some names) where
  on_option-loops :
      (opt : ℕ)
      → (acts : List Act) × (on_option p opt ≡ some acts)
        × (loops_on acts ≡ replicate (if opt == b'l' then 1 else 0) p.open_live)
  unfolding on_option print_devices
  on_option-loops opt = elim (ℕ_discrete opt b'p') [
    | yes devices ↦ (
      map (λ name. device name) names,
      ground (arith, found),
      ground (arith, loops_on-devices names),
    )
    | no other ↦ elim (ℕ_discrete opt b'l') [
      | yes listen ↦ (capture p, ground arith, ground (arith, capture-loops p))
      | no none_of ↦ ([], ground arith, ground arith)
    ]
  ]

  replicate-add : (m n : ℕ) (h : Option ℕ) → replicate m h ++ replicate n h ≡ replicate (m + n) h
  replicate-add zero n h = let same : 0 + n ≡ n = omega arith in rw same refl
  replicate-add (suc m) n h =
      let next : suc m + n ≡ suc (m + n) = omega arith in rw next (ap (◌∷◌ h) (replicate-add m n h))

  main_all :
      (opts : List ℕ)
      → (acts : List Act) × (main p opts ≡ some acts)
        × (loops_on acts ≡ replicate (captures opts) p.open_live)
  unfolding main
  main_all [] = ([], refl, refl)
  main_all (opt ∷ opts) =
      let (now, one, here) = on_option-loops opt in
      let (rest, more, there) = main_all opts in
      (
        now ++ rest,
        rw (one, more) refl,
        loops_on-append now rest
            ∙ ap₂ (λ a b. a ++ b) here there
            ∙ replicate-add (if opt == b'l' then 1 else 0) (captures opts) p.open_live,
      )

-- Where pcap_findalldevs succeeds main gets through any options, and captures once for each -l, with
-- what pcap_open_live gave: also where that, or any call before it, failed, and also with NULL.
-- Where pcap_findalldevs fails, -p follows a pointer that was never set.
pub main-loops :
    (p : Pcap) (opts : List ℕ)
    → ((names : List (List ℕ))
        → p.findalldevs ≡ some names
        → (acts : List Act) × (main p opts ≡ some acts)
          × (loops_on acts ≡ replicate (captures opts) p.open_live))
      × (p.findalldevs ≡ none → main p (b'p' ∷ opts) ≡ none)
unfolding main on_option print_devices
main-loops p opts = (λ names found. main_all p names found opts, λ failed. ground (arith, failed))
