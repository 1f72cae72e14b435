-- ===== src/Proxy/Hooks/Reply.antt =====
-- What `create_packet` writes, read back as `hook_in_packets` reads an answer.
use eltex.Base.{
  u32_at, ℕ, suc, ◌+◌, ◌<◌, ◌≤◌, ◌≡◌, refl, sym, ◌∙◌, ap, some, List, [], ◌∷◌, ◌++◌, arith, length,
  drop, get_elem?, take-append-drop, length-take, take, ◌^◌,
}
use eltex.Cstring.{strlen}
use eltex.Proxy.Cache.{DnsNode}
use eltex.Proxy.Packet.{ntohs_at, overwrite, dnshdr_size}
use eltex.Proxy.Hooks.{as_response, as_available, counts, r_data, answer}

-- Stores inside the memory replace the bytes there and no others.
pub overwrite_lem :
    (pre mid post new : List ℕ)
    → length mid ≡ length new
    → overwrite (length pre) new (pre ++ (mid ++ post)) ≡ some (pre ++ (new ++ post))
unfolding overwrite
overwrite_lem [] [] post [] e = refl
overwrite_lem [] [] post (b ∷ new) e = absurd (omega arith)
overwrite_lem [] (m ∷ mid) post [] e = absurd (omega arith)
overwrite_lem [] (m ∷ mid) post (b ∷ new) e = rw (overwrite_lem [] mid post new (omega arith))
overwrite_lem (x ∷ pre) mid post new e = rw (overwrite_lem pre mid post new e)

pub get_elem?-append {ℓ} :
    {A : Type ℓ} (pre xs : List A) (i : ℕ) → get_elem? (pre ++ xs) (length pre + i) ≡ get_elem? xs i
get_elem?-append [] xs i = ap (get_elem? xs) (omega arith)
get_elem?-append (x ∷ pre) xs i =
    let shifted : length (x ∷ pre) + i ≡ suc (length pre + i) = omega arith in
    rw shifted (get_elem?-append pre xs i)

-- Reads behind a prefix.
module _ (pre xs : List ℕ) (at : ℕ) (e : at ≡ length pre) where
  get_at : (i : ℕ) → get_elem? (pre ++ xs) (at + i) ≡ get_elem? xs i
  get_at i = rw e (get_elem?-append pre xs i)

  get_at_next : (i j : ℕ) → get_elem? (pre ++ xs) (at + i + j) ≡ get_elem? xs (i + j)
  get_at_next i j =
      let regrouped : at + i + j ≡ at + (i + j) = omega arith in rw regrouped (get_at (i + j))

  pub ntohs_at-append : (i : ℕ) → ntohs_at (pre ++ xs) (at + i) ≡ ntohs_at xs i
  ntohs_at-append i = rw (get_at i, get_at_next i 1)

  pub u32_at-append : (i : ℕ) → u32_at (pre ++ xs) (at + i) ≡ u32_at xs i
  u32_at-append i = rw (get_at i, get_at_next i 1, get_at_next i 2, get_at_next i 3)

-- A DNS message with room behind its question: id, flags, counts, the question, the rest.
abbrev pub message : ℕ → ℕ → ℕ → ℕ → List ℕ → List ℕ → List ℕ → List ℕ
message a b f g eight question rest = a ∷ b ∷ f ∷ g ∷ eight ++ (question ++ rest)

module _ (a b f g : ℕ) (eight question rest : List ℕ) (d : DnsNode) (n : ℕ)
    (eight_long : length eight ≡ 8) (question_long : length question ≡ n + 5)
    (name_long : strlen d.host_name ≡ some n) (room : 16 ≤ length rest) where
  -- What stands before the answer, and the message with it.
  abbrev pub front : List ℕ
  front = a ∷ b ∷ as_response f ∷ as_available g ∷ counts ++ question

  abbrev pub answered : List ℕ
  answered = front ++ (r_data d ++ drop 16 rest)

  at_front : dnshdr_size + n + 5 ≡ length front
  at_front = omega (arith, question_long)

  header_written :
      overwrite 2 (as_response f ∷ as_available g ∷ counts) (message a b f g eight question rest)
      ≡ some (front ++ rest)
  header_written =
      overwrite_lem (a ∷ b ∷ []) (f ∷ g ∷ eight) (question ++ rest)
        (as_response f ∷ as_available g ∷ counts) (omega (arith, eight_long))

  record_written : overwrite (dnshdr_size + n + 5) (r_data d) (front ++ rest) ≡ some answered
  record_written = rw at_front (
      ap (λ (xs : List ℕ). overwrite (length front) (r_data d) (front ++ xs))
        (sym (take-append-drop 16 rest))
      ∙ overwrite_lem front (take 16 rest) (drop 16 rest) (r_data d)
          (omega (arith, length-take 16 rest)))

  -- With room for one record behind the question, the message becomes a response whose header,
  -- counts and record are those of the answer, with the id and the question as they were.
  pub answer_lem : answer (message a b f g eight question rest) d ≡ some answered
  unfolding answer
  answer_lem = ground (arith, name_long, header_written, record_written)

  pub reads_back :
      d.addr < 2 ^ 32
      → d.ttl < 2 ^ 32
      → (ntohs_at answered (dnshdr_size + n + 5 + 2) ≡ some 1)
        × (ntohs_at answered (dnshdr_size + n + 5 + 10) ≡ some 4)
        × (u32_at answered (dnshdr_size + n + 5 + 12) ≡ some d.addr)
        × (u32_at answered (dnshdr_size + n + 5 + 6) ≡ some d.ttl)
  reads_back addr_fits ttl_fits = (
    ntohs_at-append front (r_data d ++ drop 16 rest) (dnshdr_size + n + 5) at_front 2,
    ntohs_at-append front (r_data d ++ drop 16 rest) (dnshdr_size + n + 5) at_front 10,
    u32_at-append front (r_data d ++ drop 16 rest) (dnshdr_size + n + 5) at_front 12
        ∙ ap some (omega arith),
    u32_at-append front (r_data d ++ drop 16 rest) (dnshdr_size + n + 5) at_front 6
        ∙ ap some (omega arith),
  )
