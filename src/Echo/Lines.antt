-- ===== src/Echo/Lines.antt =====
-- The lines of traceroute/main.c.
use eltex.Base.{
  ℕ, ◌+◌, ◌-◌, ◌≤◌, ◌<◌, ◌≡◌, false, some, List, [], ◌∷◌, arith, Option-cases, inl, inr, length,
}
use eltex.Echo.{
  Answer, failure, timeout, packet, Line, hop, target, lost, Trace, trace_start, trace_step, run,
}

-- Lines, newest first, of which each has the number of its place.
abbrev pub Numbered : List Line → Type 0
Numbered [] = Unit
Numbered (hop k a ∷ lines) = (k ≡ length lines + 1) × Numbered lines
Numbered (target k a ∷ lines) = (k ≡ length lines + 1) × Numbered lines
Numbered (lost ∷ lines) = Numbered lines

abbrev InTrace : ℕ → Trace → Type 0
InTrace ttl s =
    Numbered s.lines
    × (length s.lines ≤ ttl - 1)
    × (s.ended ≡ false → (s.i ≡ length s.lines + 1) × (s.i < ttl))

step-InTrace :
    (ttl pid : ℕ) (s t : Trace) (a : Answer)
    → InTrace ttl s
    → trace_step ttl pid s a ≡ some t
    → InTrace ttl t
unfolding trace_step
step-InTrace ttl pid s t failure v h = ground arith
step-InTrace ttl pid s t timeout v h = ground arith
step-InTrace ttl pid s t (packet p) v h = ground arith

run-InTrace :
    (ttl pid : ℕ) (answers : List Answer) (s t : Trace)
    → InTrace ttl s
    → run (trace_step ttl pid) s answers ≡ some t
    → InTrace ttl t
unfolding run
run-InTrace ttl pid [] s t v h = ground arith
run-InTrace ttl pid (a ∷ answers) s t v h = elim (Option-cases (trace_step ttl pid s a)) [
  | inl stops ↦ ground (arith, stops)
  | inr (m, goes) ↦
      run-InTrace ttl pid answers m t (step-InTrace ttl pid s m a v goes) (rw (goes, run) at h)
]

-- Whatever comes back, traceroute prints at most one line for each time to live below its limit, in
-- their order: a line of a router or of the target carries the number of its place.
pub trace-Numbered :
    (ttl pid : ℕ) (answers : List Answer) (t : Trace)
    → run (trace_step ttl pid) (trace_start ttl) answers ≡ some t
    → Numbered t.lines × (length t.lines ≤ ttl - 1)
unfolding trace_start
trace-Numbered ttl pid answers t h =
    let v = run-InTrace ttl pid answers (trace_start ttl) t (ground arith) h in (v.0, v.1)
