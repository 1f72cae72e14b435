-- ===== src/NetlinkRoute/Bounds.antt =====
-- netlink_recv.c on a reply of any bytes.
use eltex.Base.{
  ℕ, zero, suc, ◌+◌, ◌-◌, ◌*◌, ◌≤◌, ◌<◌, ◌≡◌, ◌⊎◌, true, some, List, [], ◌∷◌, ◌++◌, arith, length,
  length-drop, drop, get_elem?-some, u16_at, u32_at, leb, Bool-cases, inl, inr, ◌==◌, ◌&&◌,
}
use eltex.Base.Int.{pos}
use eltex.NetlinkRoute.{
  System, RouteInfo, Output, align, is_read, read_attr, read_attrs, other, print_route, print_msg,
  print_msgs, reply_msg, set_field,
}
use eltex.NetlinkRoute.Routes.{line, line_of_lem}

u16_at-some : (mem : List ℕ) (i : ℕ) → i + 2 ≤ length mem → (v : ℕ) × (u16_at mem i ≡ some v)
u16_at-some mem i h =
    let (a, e) = get_elem?-some mem i (omega arith) in
    let (b, f) = get_elem?-some mem (i + 1) (omega arith) in (a + 256 * b, rw (e, f))

u32_at-some : (mem : List ℕ) (i : ℕ) → i + 4 ≤ length mem → (v : ℕ) × (u32_at mem i ≡ some v)
u32_at-some mem i h =
    let (a, e) = get_elem?-some mem i (omega arith) in
    let (b, f) = get_elem?-some mem (i + 1) (omega arith) in
    let (c, g) = get_elem?-some mem (i + 2) (omega arith) in
    let (d, k) = get_elem?-some mem (i + 3) (omega arith) in
    (a + 256 * b + 65536 * c + 16777216 * d, rw (e, f, g, k))

module _ (sys : System) where
  read_attr-some :
      (mem : List ℕ) (type : ℕ) (info : RouteInfo)
      → 8 ≤ length mem
      → (info' : RouteInfo) × (read_attr sys mem type info ≡ some info')
  unfolding read_attr
  read_attr-some mem type info h =
      let (v, e) = u32_at-some mem 4 (omega arith) in
      elim (Bool-cases (is_read sys type)) [
        | inl yes_read ↦ (set_field sys type v info, rw (read_attr, yes_read, e))
        | inr not_read ↦ (info, rw (read_attr, not_read))
      ]

  -- Four bytes behind the attributes are enough for the walk over them.
  read_attrs-some :
      (fuel rt_len : ℕ) (mem : List ℕ) (info : RouteInfo)
      → rt_len < fuel
      → (rt_len + 4 ≤ length mem) ⊎ (rt_len < 4)
      → (info' : RouteInfo) × (read_attrs sys fuel mem rt_len info ≡ some info')
  unfolding read_attrs
  read_attrs-some zero rt_len mem info enough room = absurd (omega arith)
  read_attrs-some (suc fuel) rt_len mem info enough room = elim (Bool-cases (leb 4 rt_len)) [
    | inr over ↦ (info, rw (read_attrs, over))
    | inl header ↦
        let (rta_len, e) = u16_at-some mem 0 (ground arith) in
        let (type, f) = u16_at-some mem 2 (ground arith) in
        elim (Bool-cases (leb 4 rta_len && leb rta_len rt_len)) [
          | inr bad ↦ (info, rw (read_attrs, header, e, f, bad))
          | inl good ↦
              let (info', read) = read_attr-some mem type info (ground arith) in
              let left : length (drop (align rta_len) mem) ≡ length mem - align rta_len =
                length-drop (align rta_len) mem in
              let (last, rest) =
                read_attrs-some fuel (rt_len - align rta_len) (drop (align rta_len) mem) info'
                  (ground arith) (ground arith) in
              (last, rw (read_attrs, header, e, f, good, read) rest)
        ]
  ]

  print_route-some :
      (nlh : List ℕ) (len left : ℕ)
      → len + 5 ≤ length nlh
      → 16 ≤ len
      → (nlmsg_len : ℕ) → u32_at nlh 0 ≡ some nlmsg_len
      → nlmsg_len ≤ len
      → (out : List Output) × (print_route sys nlh left ≡ some out)
  unfolding print_route
  print_route-some nlh len left room long nlmsg_len e inside =
      let (table, f) = get_elem?-some nlh 20 (omega arith) in
      let rt_len = nlmsg_len - 28 in
      let behind : length (drop 28 nlh) ≡ length nlh - 28 = length-drop 28 nlh in
      let (info, read) =
        read_attrs-some (suc rt_len) rt_len (drop 28 nlh) (sys.garbage left) (omega arith)
          (ground arith) in
      elim (Bool-cases (table == 254)) [
        | inr other_table ↦ ([], rw (print_route, e, f, other_table))
        | inl main_table ↦
            (line info ∷ [], rw (print_route, e, f, main_table, read, line_of_lem sys info))
      ]

  print_msg-some :
      (mem : List ℕ) (type len nlmsg_len : ℕ)
      → len + 5 ≤ length mem
      → 16 ≤ len
      → u32_at mem 0 ≡ some nlmsg_len
      → nlmsg_len ≤ len
      → (out : List Output) × (print_msg sys mem type nlmsg_len len ≡ some out)
  unfolding print_msg
  print_msg-some mem type len nlmsg_len room long e inside =
      let (out, printed) = print_route-some mem len len room long nlmsg_len e inside in
      elim (Bool-cases (type == 3)) [
        | inl done ↦ ([], rw (print_msg, done))
        | inr not_done ↦ elim (Bool-cases (type == 16)) [
          | inl link ↦ ([], rw (print_msg, not_done, link))
          | inr not_link ↦ elim (Bool-cases (type == 24)) [
            | inl is_route ↦ (out, rw (print_msg, not_done, not_link, is_route) printed)
            | inr not_route ↦
                (other type nlmsg_len ∷ [], rw (print_msg, not_done, not_link, not_route))
          ]
        ]
      ]

  print_msgs_next :
      (fuel len nlmsg_len type : ℕ) (mem : List ℕ) (out more : List Output)
      → leb 16 len ≡ true
      → u32_at mem 0 ≡ some nlmsg_len
      → u16_at mem 4 ≡ some type
      → (leb 16 nlmsg_len && leb nlmsg_len len) ≡ true
      → print_msg sys mem type nlmsg_len len ≡ some out
      → print_msgs sys fuel (drop (align nlmsg_len) mem) (len - align nlmsg_len) ≡ some more
      → print_msgs sys (suc fuel) mem len ≡ some (out ++ more)
  unfolding print_msgs
  print_msgs_next fuel len nlmsg_len type mem out more header e f good printed rest =
      rw (print_msgs, header, e, f, good, printed, rest)

  print_msgs-some :
      (fuel len : ℕ) (mem : List ℕ)
      → len < fuel
      → (len + 5 ≤ length mem) ⊎ (len ≡ 0)
      → (out : List Output) × (print_msgs sys fuel mem len ≡ some out)
  unfolding print_msgs
  print_msgs-some zero len mem enough room = absurd (omega arith)
  print_msgs-some (suc fuel) len mem enough room = elim (Bool-cases (leb 16 len)) [
    | inr over ↦ ([], rw (print_msgs, over))
    | inl header ↦
        let (nlmsg_len, e) = u32_at-some mem 0 (ground arith) in
        let (type, f) = u16_at-some mem 4 (ground arith) in
        elim (Bool-cases (leb 16 nlmsg_len && leb nlmsg_len len)) [
          | inr bad ↦ ([], rw (print_msgs, header, e, f, bad))
          | inl good ↦
              let (out, printed) =
                print_msg-some mem type len nlmsg_len (ground arith) (ground arith) e
                  (ground arith) in
              let left : length (drop (align nlmsg_len) mem) ≡ length mem - align nlmsg_len =
                length-drop (align nlmsg_len) mem in
              let (more, rest) =
                print_msgs-some fuel (len - align nlmsg_len) (drop (align nlmsg_len) mem)
                  (ground arith) (ground arith) in
              (
                out ++ more,
                print_msgs_next fuel len nlmsg_len type mem out more header e f good printed rest,
              )
        ]
  ]

  -- Whatever the bytes of a reply are, well formed or not, if five bytes can be read behind what
  -- recvmsg gave, reply_msg ends within its fuel, reads nothing behind those and returns 0.
  pub reply_msg-bounds :
      (len : ℕ) (message : List ℕ)
      → len + 5 ≤ length message
      → (out : List Output) × (reply_msg sys (pos len) message ≡ some (pos 0, out))
  unfolding reply_msg
  reply_msg-bounds len message room =
      let (out, printed) = print_msgs-some (suc len) len message (omega arith) (inl room) in
      (out, rw (reply_msg, printed))
