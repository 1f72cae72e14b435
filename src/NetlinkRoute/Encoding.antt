-- ===== src/NetlinkRoute/Encoding.antt =====
-- Attributes and messages as the kernel lays them out for netlink_recv.c: a header, the contents, and
-- padding to a multiple of four bytes.
use eltex.Base.{
  ℕ, ◌+◌, ◌-◌, ◌*◌, ◌<◌, ◌≡◌, refl, ◌∙◌, ap, some, List, [], ◌∷◌, ◌++◌, arith, length,
  length-append, length-replicate, replicate, drop, drop-append, get_elem?, u16_at, u32_at, bytes16,
  bytes32, get_elem?-append_add, drop-append_add,
}
use mathlib.Core.List.{append_assoc}
use eltex.NetlinkRoute.{align}

-- An attribute of four bytes at least; the value is what they hold.
pub record Attr : Type 0 where
  pub type : ℕ
  pub b0 : ℕ
  pub b1 : ℕ
  pub b2 : ℕ
  pub b3 : ℕ
  pub more : List ℕ

abbrev pub value : Attr → ℕ
value a = a.b0 + 256 * a.b1 + 65536 * a.b2 + 16777216 * a.b3

abbrev pub IsAttr : Attr → Type 0
IsAttr a = (a.type < 65536) × (length a.more < 65528)

abbrev pub attr_len : Attr → ℕ
attr_len a = 8 + length a.more

abbrev pub padding : ℕ → List ℕ
padding n = replicate (align n - n) 0

unfoldable pub encode_attr : Attr → List ℕ
encode_attr a =
    bytes16 (attr_len a)
      (bytes16 a.type (a.b0 ∷ a.b1 ∷ a.b2 ∷ a.b3 ∷ (a.more ++ padding (attr_len a))))

unfoldable pub encode_attrs : List Attr → List ℕ
encode_attrs [] = []
encode_attrs (a ∷ attrs) = encode_attr a ++ encode_attrs attrs

pub length-encode_attr : (a : Attr) → length (encode_attr a) ≡ align (attr_len a)
unfolding encode_attr
length-encode_attr a = omega (
  arith,
  length-append a.more (padding (attr_len a)),
  length-replicate {A = ℕ} (align (attr_len a) - attr_len a) 0,
)

-- What the macros read of an attribute, with anything behind it.
pub attr_read :
    (a : Attr) (rest : List ℕ)
    → IsAttr a
    → (u16_at (encode_attr a ++ rest) 0 ≡ some (attr_len a))
      × (u16_at (encode_attr a ++ rest) 2 ≡ some a.type)
      × (u32_at (encode_attr a ++ rest) 4 ≡ some (value a))
      × (drop (align (attr_len a)) (encode_attr a ++ rest) ≡ rest)
attr_read a rest v = (
  (unfold encode_attr in ap (λ (n : ℕ). some n) (omega arith)),
  (unfold encode_attr in ap (λ (n : ℕ). some n) (omega arith)),
  (unfold encode_attr in refl),
  rw (← length-encode_attr a) (drop-append (encode_attr a) rest),
)

-- A message of a type and with contents; flags, sequence number and process are ten bytes.
pub record Message : Type 0 where
  pub type : ℕ
  pub ten : List ℕ
  pub body : List ℕ

abbrev pub IsMessage : Message → Type 0
IsMessage m = (m.type < 65536) × (length m.ten ≡ 10) × (length m.body < 65536)

abbrev pub msg_len : Message → ℕ
msg_len m = 16 + length m.body

unfoldable pub encode_msg : Message → List ℕ
encode_msg m = bytes32 (msg_len m) (bytes16 m.type (m.ten ++ (m.body ++ padding (msg_len m))))

pub length-encode_msg : (m : Message) → IsMessage m → length (encode_msg m) ≡ align (msg_len m)
unfolding encode_msg
length-encode_msg m v = omega (
  arith,
  length-append m.ten (m.body ++ padding (msg_len m)),
  length-append m.body (padding (msg_len m)),
  length-replicate {A = ℕ} (align (msg_len m) - msg_len m) 0,
)

pub msg_read :
    (m : Message) (rest : List ℕ)
    → IsMessage m
    → (u32_at (encode_msg m ++ rest) 0 ≡ some (msg_len m))
      × (u16_at (encode_msg m ++ rest) 4 ≡ some m.type)
      × (drop (align (msg_len m)) (encode_msg m ++ rest) ≡ rest)
msg_read m rest v = (
  (unfold encode_msg in ap (λ (n : ℕ). some n) (omega arith)),
  (unfold encode_msg in ap (λ (n : ℕ). some n) (omega arith)),
  rw (← length-encode_msg m v) (drop-append (encode_msg m) rest),
)

-- Its contents stand behind the header.
pub msg_body :
    (m : Message) (rest : List ℕ) (i : ℕ)
    → IsMessage m
    → let behind = m.body ++ (padding (msg_len m) ++ rest) in
      (get_elem? (encode_msg m ++ rest) (6 + (10 + i)) ≡ get_elem? behind i)
      × (drop (6 + (10 + i)) (encode_msg m ++ rest) ≡ drop i behind)
unfolding encode_msg
msg_body m rest i v =
    let behind = m.body ++ (padding (msg_len m) ++ rest) in
    let joined : (m.ten ++ (m.body ++ padding (msg_len m))) ++ rest ≡ m.ten ++ behind =
      simp append_assoc in
    let six = bytes32 (msg_len m) (bytes16 m.type []) in
    rw joined (
      get_elem?-append_add six (m.ten ++ behind) 6 (10 + i) refl
          ∙ get_elem?-append_add m.ten behind 10 i v.1,
      drop-append_add six (m.ten ++ behind) 6 (10 + i) refl ∙ drop-append_add m.ten behind 10 i v.1,
    )
