-- ===== src/UdpServer/Runs.antt =====
-- Runs of udp_client_server/main.c in which msgrcv fails only on an empty queue, and what a run keeps
-- when each step keeps it.
use mathlib.Core.Option.{some-injective}
use mathlib.Core.Path.{subst}
use eltex.Base.{◌≡◌, some, List, [], ◌∷◌, arith, ℕ, Option-cases, inl, inr, All}
use eltex.UdpServer.{Server, Event, send_failure, interrupt, step, run}

-- The kernel takes messages off the queues only as asked: no error but an empty queue, and no
-- signal wakes a worker.
abbrev pub IsRegular : Event → Type 0
IsRegular send_failure = ⊥
IsRegular (interrupt i m) = ⊥
IsRegular _ = Unit

module _ (P : Server → Type 0) (capacity : ℕ)
    (keeps : (s t : Server) (e : Event)
      → IsRegular e
      → P s
      → step capacity s e ≡ some t
      → P t) where
  pub run-keeps :
      (es : List Event) (s t : Server) → All IsRegular es → P s → run capacity s es ≡ some t → P t
  unfolding run
  run-keeps [] s t r p h = subst P (some-injective s t h) p
  run-keeps (e ∷ es) s t r p h = elim (Option-cases (step capacity s e)) [
    | inl stops ↦ ground (arith, stops)
    | inr (m, goes) ↦ run-keeps es m t r.1 (keeps s m e r.0 p goes) (rw (goes, run) at h)
  ]
