-- ===== src/NetlinkRoute/Routes.antt =====
-- The loops of netlink_recv.c over what the kernel sends.
use eltex.Base.{
  ℕ, suc, ◌-◌, ◌≡◌, ◌≢◌, ◌∙◌, ap, some, List, [], ◌∷◌, ◌++◌, arith, length, length-append, drop,
  drop-append_add, get_elem?, All, ◌==◌, if◌then◌else◌,
}
use mathlib.Core.List.{append_assoc}
use eltex.NetlinkRoute.{System, RouteInfo, Output, route, other, line_of, print_route, print_msg}
use eltex.NetlinkRoute.Address.{dotted_text, ntoa_text}
use eltex.NetlinkRoute.Encoding.{
  Attr, IsAttr, encode_attrs, Message, IsMessage, msg_len, encode_msg, msg_read, msg_body, padding,
}
use eltex.NetlinkRoute.Attributes.{told, read_attrs-told}

-- A route as the kernel sends it: the fields of rtmsg, of which the table is read, and attributes.
pub record Route : Type 0 where
  pub ten : List ℕ
  pub family : ℕ
  pub dst_len : ℕ
  pub src_len : ℕ
  pub tos : ℕ
  pub table : ℕ
  pub seven : List ℕ
  pub attrs : List Attr

abbrev pub route_message : Route → Message
route_message r = record {
  type = 24;
  ten = r.ten;
  body = r.family ∷ r.dst_len ∷ r.src_len ∷ r.tos ∷ r.table ∷ (r.seven ++ encode_attrs r.attrs);
}

abbrev pub IsRoute : Route → Type 0
IsRoute r = IsMessage (route_message r) × (length r.seven ≡ 7) × All IsAttr r.attrs

-- The line of a route, with no buffer to fit.
abbrev pub shown_text : List ℕ → ℕ → List ℕ
shown_text unset addr = if addr == 0 then unset else dotted_text addr

abbrev pub line : RouteInfo → Output
line info =
    route (shown_text (b'0' ∷ b'.' ∷ b'0' ∷ b'.' ∷ b'0' ∷ b'.' ∷ b'0' ∷ 32 ∷ 32 ∷ []) info.dst_addr)
      (shown_text (b'*' ∷ b'.' ∷ b'*' ∷ b'.' ∷ b'*' ∷ b'.' ∷ b'*' ∷ []) info.gateway) info.if_name
      (shown_text (b'*' ∷ b'.' ∷ b'*' ∷ b'.' ∷ b'*' ∷ b'.' ∷ b'*' ∷ []) info.src_addr)

pub line_of_lem : (sys : System) (info : RouteInfo) → line_of sys info ≡ some (line info)
unfolding line_of
line_of_lem sys info =
    ground
      (arith, (ntoa_text info.dst_addr).0, (ntoa_text info.gateway).0, (ntoa_text info.src_addr).0)

-- What the kernel sends, and what is printed of it: `left` bytes of the reply are left there.
pub data Sent : Type 0 where
  route_sent : Route → Sent
  plain : Message → Sent

abbrev pub message_of : Sent → Message
message_of (route_sent r) = route_message r
message_of (plain m) = m

abbrev pub IsSent : Sent → Type 0
IsSent (route_sent r) = IsRoute r
IsSent (plain m) = IsMessage m × (m.type ≢ 24)

unfoldable pub encode_all : List Sent → List ℕ
encode_all [] = []
encode_all (x ∷ xs) = encode_msg (message_of x) ++ encode_all xs

module _ (sys : System) where
  abbrev pub lines_of : Sent → ℕ → List Output
  lines_of (route_sent r) left =
      if r.table == 254 then line (told sys r.attrs (sys.garbage left)) ∷ [] else []
  lines_of (plain m) left =
      if m.type == 3 then [] else if m.type == 16 then [] else other m.type (msg_len m) ∷ []

  unfoldable pub all_lines : List Sent → List Output
  all_lines [] = []
  all_lines (x ∷ xs) = lines_of x (length (encode_all (x ∷ xs))) ++ all_lines xs

  print_route_lem :
      (r : Route) (rest : List ℕ) (left : ℕ)
      → IsRoute r
      → print_route sys (encode_msg (route_message r) ++ rest) left
        ≡ some (lines_of (route_sent r) left)
  unfolding print_route
  print_route_lem r rest left v =
      let m = route_message r in
      let tail = padding (msg_len m) ++ rest in
      let (len, type, after) = msg_read m rest v.0 in
      let table : get_elem? (encode_msg m ++ rest) 20 ≡ some r.table = (msg_body m rest 4 v.0).0 in
      let attrs_at : drop 28 (encode_msg m ++ rest) ≡ encode_attrs r.attrs ++ tail =
        (msg_body m rest 12 v.0).1
        ∙ ap (drop 7) (append_assoc r.seven (encode_attrs r.attrs) tail)
        ∙ drop-append_add r.seven (encode_attrs r.attrs ++ tail) 7 0 v.1 in
      let size : msg_len m - 28 ≡ length (encode_attrs r.attrs) =
        omega (arith, length-append r.seven (encode_attrs r.attrs), v.1) in
      ground (
        arith,
        len,
        table,
        attrs_at,
        size,
        read_attrs-told sys r.attrs (suc (length (encode_attrs r.attrs))) tail (sys.garbage left)
            v.2 (omega arith),
        line_of_lem sys (told sys r.attrs (sys.garbage left)),
      )

  pub print_msg_lem :
      (x : Sent) (rest : List ℕ) (left : ℕ)
      → IsSent x
      → let m = message_of x in
        print_msg sys (encode_msg m ++ rest) m.type (msg_len m) left ≡ some (lines_of x left)
  unfolding print_msg
  print_msg_lem (route_sent r) rest left v = print_route_lem r rest left v
  print_msg_lem (plain m) rest left v = ground arith
