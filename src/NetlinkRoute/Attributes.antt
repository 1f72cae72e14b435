-- ===== src/NetlinkRoute/Attributes.antt =====
-- The attributes of a route, as read_attrs walks over them.
use eltex.Base.{
  ℕ, zero, suc, ◌+◌, ◌-◌, ◌≤◌, ◌<◌, ◌≡◌, refl, ◌∙◌, ap, some, List, [], ◌∷◌, ◌++◌, arith, length,
  length-append, drop, u16_at, u32_at, All, Option, none, Option-cases, inl, inr, ◌==◌,
  if◌then◌else◌,
}
use mathlib.Core.List.{append_assoc}
use eltex.NetlinkRoute.{System, RouteInfo, align, set_field, read_attr, read_attrs}
use eltex.NetlinkRoute.Encoding.{
  Attr, IsAttr, value, attr_len, encode_attr, encode_attrs, length-encode_attr, attr_read,
}

-- What a list of attributes says: the value of the last one of a type, or else `old`.
unfoldable pub last : ℕ → List Attr → ℕ → ℕ
last type [] old = old
last type (a ∷ attrs) old = last type attrs (if a.type == type then value a else old)

abbrev name_or : Option (List ℕ) → List ℕ → List ℕ
name_or none old = old
name_or (some name) old = name

-- The name of the last interface that has one.
unfoldable pub last_name : System → List Attr → List ℕ → List ℕ
last_name sys [] old = old
last_name sys (a ∷ attrs) old =
    last_name sys attrs (if a.type == 4 then name_or (sys.if_indextoname (value a)) old else old)

-- RTA_DST is 1, RTA_OIF 4, RTA_GATEWAY 5 and RTA_PREFSRC 7.
abbrev pub told : System → List Attr → RouteInfo → RouteInfo
told sys attrs info = record {
  dst_addr = last 1 attrs info.dst_addr;
  src_addr = last 7 attrs info.src_addr;
  gateway = last 5 attrs info.gateway;
  if_name = last_name sys attrs info.if_name;
}

module _ (sys : System) where
  -- The fields after some attributes, each in its turn.
  unfoldable apply_attrs : List Attr → RouteInfo → RouteInfo
  apply_attrs [] info = info
  apply_attrs (a ∷ attrs) info = apply_attrs attrs (set_field sys a.type (value a) info)

  read_attr_lem :
      (mem : List ℕ) (type v : ℕ) (info : RouteInfo)
      → u32_at mem 4 ≡ some v
      → read_attr sys mem type info ≡ some (set_field sys type v info)
  unfolding read_attr set_field
  read_attr_lem mem type v info e = ground (arith, e)

  read_attrs_step :
      (fuel n len type v : ℕ) (mem rest : List ℕ) (info : RouteInfo)
      → u16_at mem 0 ≡ some len
      → u16_at mem 2 ≡ some type
      → u32_at mem 4 ≡ some v
      → drop (align len) mem ≡ rest
      → 4 ≤ len
      → read_attrs sys (suc fuel) mem (align len + n) info
        ≡ read_attrs sys fuel rest n (set_field sys type v info)
  unfolding read_attrs
  read_attrs_step fuel n len type v mem rest info e f g behind long =
      let left : align len + n - align len ≡ n = omega arith in
      ground (arith, e, f, behind, left, read_attr_lem mem type v info g)

  read_attrs-encode_attrs :
      (attrs : List Attr) (fuel : ℕ) (rest : List ℕ) (info : RouteInfo)
      → All IsAttr attrs
      → length (encode_attrs attrs) < fuel
      → read_attrs sys fuel (encode_attrs attrs ++ rest) (length (encode_attrs attrs)) info
        ≡ some (apply_attrs attrs info)
  unfolding encode_attrs apply_attrs
  read_attrs-encode_attrs attrs zero rest info v enough = absurd (omega arith)
  read_attrs-encode_attrs [] (suc fuel) rest info v enough = unfold read_attrs in refl
  read_attrs-encode_attrs (a ∷ attrs) (suc fuel) rest info v enough =
      let behind = encode_attrs attrs ++ rest in
      let joined : (encode_attr a ++ encode_attrs attrs) ++ rest ≡ encode_attr a ++ behind =
        append_assoc (encode_attr a) (encode_attrs attrs) rest in
      let whole : length (encode_attr a ++ encode_attrs attrs)
          ≡ align (attr_len a) + length (encode_attrs attrs) =
        omega (arith, length-append (encode_attr a) (encode_attrs attrs), length-encode_attr a) in
      let (len, type, val, after) = attr_read a behind v.0 in
      rw (joined, whole)
        (read_attrs_step fuel (length (encode_attrs attrs)) (attr_len a) a.type (value a)
            (encode_attr a ++ behind) behind info len type val after (omega arith)
          ∙ read_attrs-encode_attrs attrs fuel rest (set_field sys a.type (value a) info) v.1
              (omega (arith, whole)))

  set_field-told :
      (a : Attr) (info : RouteInfo) → set_field sys a.type (value a) info ≡ told sys (a ∷ []) info
  unfolding set_field last last_name
  set_field-told a info = elim (Option-cases (sys.if_indextoname (value a))) [
    | inl unnamed ↦ ground (arith, unnamed)
    | inr (name, found) ↦ ground (arith, found)
  ]

  apply_attrs-told :
      (attrs : List Attr) (info : RouteInfo) → apply_attrs attrs info ≡ told sys attrs info
  unfolding apply_attrs last last_name
  apply_attrs-told [] info = refl
  apply_attrs-told (a ∷ attrs) info =
      rw (set_field-told a info) (apply_attrs-told attrs (told sys (a ∷ []) info))

  pub read_attrs-told :
      (attrs : List Attr) (fuel : ℕ) (rest : List ℕ) (info : RouteInfo)
      → All IsAttr attrs
      → length (encode_attrs attrs) < fuel
      → read_attrs sys fuel (encode_attrs attrs ++ rest) (length (encode_attrs attrs)) info
        ≡ some (told sys attrs info)
  read_attrs-told attrs fuel rest info v enough =
      read_attrs-encode_attrs attrs fuel rest info v enough ∙ ap some (apply_attrs-told attrs info)
