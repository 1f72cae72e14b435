-- ===== src/Examples/Lines.antt =====
-- The line of show_progress in copy.c, and the talk of core/netlinkdev/netlink_kernel.
use eltex.Base.{
  ap, ◌∙◌, drop-replicate, refl, ℕ, ◌+◌, ◌-◌, ◌≤◌, ◌<◌, ◌≡◌, true, false, some, none, List, [], ◌∷◌,
  ◌++◌, length, replicate, take, drop, arith, length-replicate,
}
use eltex.Cstring.{text}
use eltex.TextManager.Status.{message, show_status}
use eltex.TextManager.Status.Cells.{blanked, coloured, show_status-coloured}
use eltex.NetlinkKernel.{hdrlen, align, Netlink, Calls}

abbrev a : List ℕ
a = b'a' ∷ 0 ∷ []

abbrev b : List ℕ
b = b'b' ∷ 0 ∷ []

show_status-coloured_example :
    (22 + length (text a) + length (text b) < 30
      → (length (blanked (message 40 a b) 30) ≡ 30)
        × (show_status 30 12 (replicate 30 1) 40 a b
            ≡ some (
                coloured true (take 12 (blanked (message 40 a b) 30))
                ++ coloured false (drop 12 (blanked (message 40 a b) 30)))))
    × (30 ≤ 22 + length (text a) + length (text b)
        → show_status 30 12 (replicate 30 1) 40 a b ≡ none)
show_status-coloured_example = show_status-coloured 30 12 40 (replicate 30 1) a b refl (omega arith)

kernel_padded :
    (len : ℕ)
    → drop {A = ℕ} (hdrlen + len) (replicate (hdrlen + align len) 0) ≡ replicate (align len - len) 0
kernel_padded len =
    let left : hdrlen + align len - (hdrlen + len) ≡ align len - len = omega arith in
    drop-replicate {A = ℕ} (hdrlen + len) (hdrlen + align len) 0
    ∙ ap (λ n. replicate {A = ℕ} n 0) left

-- A kernel that has memory and clears all of it.
abbrev kernel : Netlink
kernel = record {
  nlmsg_new = true;
  nlmsg_put = λ type len. replicate (hdrlen + align len) 0;
  aligned = λ type len. length-replicate {A = ℕ} (hdrlen + align len) 0;
  padded = λ type len. kernel_padded len;
}

-- Everything succeeds.
abbrev all_succeed : Calls
all_succeed = record { socket = true; sendmsg = true; nlmsg_unicast = true; recvmsg = true }

abbrev memory : List ℕ
memory = replicate 8208 1
