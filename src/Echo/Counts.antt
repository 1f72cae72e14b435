-- ===== src/Echo/Counts.antt =====
-- What ping/main.c has counted when it prints its two numbers.
use eltex.Base.{
  ℕ, suc, ◌+◌, ◌≤◌, ◌<◌, ◌≡◌, some, List, [], ◌∷◌, arith, ◌==◌, ◌&&◌, ◌%◌, ltb, true, false, refl,
  ◌∙◌, if◌then◌else◌, Option-cases, inl, inr, All,
}
use native.Mathlib.Decide.{dec_lt}
use eltex.Echo.{Answer, failure, timeout, packet, Ping, ping_start, ping_step, run}

-- Answers of a kind among those met.
unfoldable pub timeouts : List Answer → ℕ
timeouts [] = 0
timeouts (timeout ∷ answers) = suc (timeouts answers)
timeouts (_ ∷ answers) = timeouts answers

-- Echo replies that carry an identifier.
unfoldable pub with_id : ℕ → List Answer → ℕ
with_id id [] = 0
with_id id (packet p ∷ answers) =
    (if (p.type == 0) && (p.id == id) then 1 else 0) + with_id id answers
with_id id (_ ∷ answers) = with_id id answers

-- Echo replies to the requests of a process: the identifier that its requests carry has 16 bits.
abbrev pub replies : ℕ → List Answer → ℕ
replies pid answers = with_id (pid % 65536) answers

ping_one :
    (pid : ℕ) (a : Answer) (s t : Ping)
    → ping_step pid s a ≡ some t
    → (t.total ≡ s.total + with_id pid (a ∷ []))
      × (t.seq ≡ s.seq + with_id pid (a ∷ []) + timeouts (a ∷ []))
unfolding ping_step timeouts with_id
ping_one pid failure s t h = ground arith
ping_one pid timeout s t h = ground arith
ping_one pid (packet p) s t h = ground arith

counted :
    (pid : ℕ) (a : Answer) (answers : List Answer)
    → (with_id pid (a ∷ answers) ≡ with_id pid (a ∷ []) + with_id pid answers)
      × (timeouts (a ∷ answers) ≡ timeouts (a ∷ []) + timeouts answers)
unfolding timeouts with_id
counted pid failure answers = omega arith
counted pid timeout answers = omega arith
counted pid (packet p) answers = omega arith

ping_run :
    (pid : ℕ) (answers : List Answer) (s t : Ping)
    → run (ping_step pid) s answers ≡ some t
    → (t.total ≡ s.total + with_id pid answers)
      × (t.seq ≡ s.seq + with_id pid answers + timeouts answers)
unfolding run timeouts with_id
ping_run pid [] s t h = ground arith
ping_run pid (a ∷ answers) s t h = elim (Option-cases (ping_step pid s a)) [
  | inl stops ↦ ground (arith, stops)
  | inr (m, goes) ↦
      let later = ping_run pid answers m t (rw (goes, run) at h) in
      omega (arith, later, ping_one pid a s m goes, counted pid a answers)
]

-- The identifier of a packet has 16 bits.
abbrev pub HasId : Answer → Type 0
HasId (packet p) = p.id < 65536
HasId _ = Unit

none_with_id :
    (pid : ℕ) (answers : List Answer) → 65536 ≤ pid → All HasId answers → with_id pid answers ≡ 0
unfolding with_id
none_with_id pid [] big h = ground arith
none_with_id pid (failure ∷ answers) big h = none_with_id pid answers big h.1
none_with_id pid (timeout ∷ answers) big h = none_with_id pid answers big h.1
none_with_id pid (packet p ∷ answers) big h = ground (arith, none_with_id pid answers big h.1)

with_id-replies :
    (pid : ℕ) (answers : List Answer)
    → All HasId answers
    → with_id pid answers ≡ (if ltb pid 65536 then replies pid answers else 0)
with_id-replies pid answers h = elim (dec_lt pid 65536) [
  | yes small ↦
      let same : pid % 65536 ≡ pid = omega arith in
      let inside : ltb pid 65536 ≡ true = ground arith in rw (inside, same) refl
  | no big ↦
      let outside : ltb pid 65536 ≡ false = ground arith in
      rw outside (none_with_id pid answers (omega arith) h)
]

-- Whatever is met, in any order, of packets whose identifiers have 16 bits: with a process number
-- below 65536 `total` is the number of echo replies with the identifier that ping's requests carry,
-- and every other packet counts for nothing; with a greater number, of which the requests carry the
-- low 16 bits, `total` stays 0, the replies to ping's own requests included. Each request but the
-- last was answered by a reply that was counted or timed out.
pub ping-accounts :
    (pid : ℕ) (answers : List Answer) (t : Ping)
    → All HasId answers
    → run (ping_step pid) ping_start answers ≡ some t
    → (t.total ≡ (if ltb pid 65536 then replies pid answers else 0))
      × (t.seq ≡ suc (t.total + timeouts answers))
unfolding ping_start
ping-accounts pid answers t h e =
    let met = ping_run pid answers ping_start t e in
    let named = with_id-replies pid answers h in
    let total : t.total ≡ with_id pid answers = omega (arith, met) in
    (total ∙ named, omega (arith, met))
