-- ===== src/NetlinkRoute.antt =====
-- core/netlinkdev/netlink_rt/netlink_recv.c: what it prints of a reply of the kernel, message by message
-- and attribute by attribute. The macros of <linux/netlink.h> and <linux/rtnetlink.h> are written out;
-- their signed lengths fall below their headers' sizes and end a loop where ℕ stops at 0.
-- Memory is a list of bytes from a pointer on, `none` a read past it.
pub mod Address
pub mod Encoding
pub mod Attributes
pub mod Routes
pub mod Replies
pub mod Bounds
pub mod Request
use eltex.Base.{
  ℕ, zero, suc, ◌+◌, ◌-◌, ◌*◌, ◌/◌, ◌%◌, Bool, ◌&&◌, ◌||◌, not, Option, none, some, List, [], ◌∷◌,
  ◌++◌, ltb, leb, ◌==◌, if◌then◌else◌, ◌>>=◌, get_elem?, drop, length, u16_at, u32_at,
}
use eltex.Base.Int.{ℤ, pos, negsuc}
use eltex.Decimal.{decimal}

-- sprintf into the buffer of 18 bytes; `none` is a write past it.
unfoldable pub ntoa : ℕ → Option (List ℕ)
ntoa addr =
    let s =
      decimal (addr % 256)
      ++ b'.'
        ∷ (decimal (addr / 256 % 256)
            ++ b'.' ∷ (decimal (addr / 65536 % 256) ++ b'.' ∷ decimal (addr / 16777216 % 256))) in
    if ltb (length s) 18 then some s else none

pub record RouteInfo : Type 0 where
  pub dst_addr : ℕ
  pub src_addr : ℕ
  pub gateway : ℕ
  pub if_name : List ℕ

-- One line of the table, or a message of another type with its length.
pub data Output : Type 0 where
  route : List ℕ → List ℕ → List ℕ → List ℕ → Output
  other : ℕ → ℕ → Output

-- The name of an interface, where there is one of that index; and what the storage of a local
-- variable happens to hold when so many bytes of the reply are left.
pub record System : Type 0 where
  pub if_indextoname : ℕ → Option (List ℕ)
  pub garbage : ℕ → RouteInfo

-- NLMSG_ALIGN and RTA_ALIGN.
abbrev pub align : ℕ → ℕ
align n = (n + 3) / 4 * 4

abbrev pub nlmsg_header : ℕ
nlmsg_header = 16

abbrev pub rtmsg_size : ℕ
rtmsg_size = 12

abbrev pub rtattr_size : ℕ
rtattr_size = 4

abbrev pub rt_table_main : ℕ
rt_table_main = 254

-- The case of the switch for one attribute, of the four bytes behind its header.
abbrev pub named : Option (List ℕ) → RouteInfo → RouteInfo
named none info = info
named (some name) info = record info { if_name = name }

module _ (sys : System) where
  unfoldable pub set_field : ℕ → ℕ → RouteInfo → RouteInfo
  set_field type value info =
      if type == 4
      then named (sys.if_indextoname value) info
      else if type == 5
      then record info { gateway = value }
      else if type == 7
      then record info { src_addr = value }
      else if type == 1
      then record info { dst_addr = value }
      else info

  abbrev pub is_read : ℕ → Bool
  is_read type = type == 4 || (type == 5 || (type == 7 || type == 1))

  unfoldable pub read_attr : List ℕ → ℕ → RouteInfo → Option RouteInfo
  read_attr rt_attr type info =
      if is_read type
      then (u32_at rt_attr rtattr_size >>= λ v. some (set_field type v info))
      else some info

  -- `for (; RTA_OK(rt_attr, rt_len); rt_attr = RTA_NEXT(rt_attr, rt_len))`.
  unfoldable pub read_attrs : ℕ → List ℕ → ℕ → RouteInfo → Option RouteInfo
  read_attrs zero rt_attr rt_len info = none
  read_attrs (suc fuel) rt_attr rt_len info =
      let found = (do
        rta_len ← u16_at rt_attr 0
        type ← u16_at rt_attr 2
        let more =
            (read_attr rt_attr type info >>= λ info'.
            read_attrs fuel (drop (align rta_len) rt_attr) (rt_len - align rta_len) info')
        if leb rtattr_size rta_len && leb rta_len rt_len then more else some info) in
      if leb rtattr_size rt_len then found else some info

  abbrev pub shown : List ℕ → ℕ → Option (List ℕ)
  shown unset addr = if addr == 0 then some unset else ntoa addr

  unfoldable pub line_of : RouteInfo → Option Output
  line_of info = do
    dst ← shown (b'0' ∷ b'.' ∷ b'0' ∷ b'.' ∷ b'0' ∷ b'.' ∷ b'0' ∷ 32 ∷ 32 ∷ []) info.dst_addr
    gateway ← shown (b'*' ∷ b'.' ∷ b'*' ∷ b'.' ∷ b'*' ∷ b'.' ∷ b'*' ∷ []) info.gateway
    src ← shown (b'*' ∷ b'.' ∷ b'*' ∷ b'.' ∷ b'*' ∷ b'.' ∷ b'*' ∷ []) info.src_addr
    some (route dst gateway info.if_name src)

  -- The message at a pointer, with `left` bytes of the reply from there on.
  unfoldable pub print_route : List ℕ → ℕ → Option (List Output)
  print_route nlh left = do
    nlmsg_len ← u32_at nlh 0
    rtm_table ← get_elem? nlh 20
    if not (rtm_table == rt_table_main) then some [] else do
      let rt_len = nlmsg_len - (nlmsg_header + rtmsg_size)
      info ←
          read_attrs (suc rt_len) (drop (nlmsg_header + rtmsg_size) nlh) rt_len (sys.garbage left)
      line ← line_of info
      some (line ∷ [])

  -- `switch (msg_ptr->nlmsg_type)`: NLMSG_DONE, 16 and 24 have cases.
  unfoldable pub print_msg : List ℕ → ℕ → ℕ → ℕ → Option (List Output)
  print_msg msg_ptr nlmsg_type nlmsg_len left =
      if nlmsg_type == 3
      then some []
      else if nlmsg_type == 16
      then some []
      else if nlmsg_type == 24
      then print_route msg_ptr left
      else some (other nlmsg_type nlmsg_len ∷ [])

  -- `for (; NLMSG_OK(msg_ptr, len); msg_ptr = NLMSG_NEXT(msg_ptr, len))`.
  unfoldable pub print_msgs : ℕ → List ℕ → ℕ → Option (List Output)
  print_msgs zero msg_ptr len = none
  print_msgs (suc fuel) msg_ptr len =
      let found = (do
        nlmsg_len ← u32_at msg_ptr 0
        nlmsg_type ← u16_at msg_ptr 4
        let more = (do
          out ← print_msg msg_ptr nlmsg_type nlmsg_len len
          rest ← print_msgs fuel (drop (align nlmsg_len) msg_ptr) (len - align nlmsg_len)
          some (out ++ rest))
        if leb nlmsg_header nlmsg_len && leb nlmsg_len len then more else some []) in
      if leb nlmsg_header len then found else some []

  -- What it returns and prints, for the result of recvmsg and the buffer that it filled.
  unfoldable pub reply_msg : ℤ → List ℕ → Option (ℤ × List Output)
  reply_msg (negsuc n) message = some (negsuc 0, [])
  reply_msg (pos len) message = print_msgs (suc len) message len >>= λ out. some (pos 0, out)
