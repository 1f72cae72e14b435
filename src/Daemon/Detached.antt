-- ===== src/Daemon/Detached.antt =====
-- The two processes of daemon/main.c together.
use eltex.Base.{refl, ℕ, suc, ◌≡◌, ◌⊎◌, inl, inr, List, [], ◌∷◌, arith}
use eltex.Base.Int.{ℤ, pos, negsuc}
use eltex.Daemon.{
  Act, cleared_umask, became_leader, ignored_children, moved_to_root, logged, closed, returned,
  exit_success, exit_failure, Run, daemonize,
}

-- How often a process logs.
abbrev pub logs : List Act → ℕ
logs [] = 0
logs (logged ∷ acts) = suc (logs acts)
logs (_ ∷ acts) = logs acts

-- Where fork gives the parent a number: the parent ends with success and has done nothing else. The
-- child returns from daemonize exactly if setsid and chdir succeed, and otherwise ends with
-- failure; it logs once if it returns, by then the leader of a session, in "/" and without the three
-- standard descriptors, and never otherwise.
pub daemonize-both :
    (child : ℕ) (sid dir : ℤ)
    → (daemonize (record { fork = pos (suc child); setsid = sid; chdir = dir })
        ≡ record { acts = []; end = exit_success })
      × ((r : Run) × (daemonize (record { fork = pos 0; setsid = sid; chdir = dir }) ≡ r)
          × (((m n : ℕ) × (sid ≡ pos m)
                × (dir ≡ pos n)
                × (r.end ≡ returned)
                × (logs r.acts ≡ 1)
                × (r.acts
                    ≡ cleared_umask
                      ∷ became_leader
                      ∷ ignored_children
                      ∷ moved_to_root
                      ∷ closed 0
                      ∷ closed 1
                      ∷ closed 2
                      ∷ logged
                      ∷ []))
              ⊎ ((e : ℕ) × ((sid ≡ negsuc e) ⊎ (dir ≡ negsuc e))
                  × (r.end ≡ exit_failure)
                  × (logs r.acts ≡ 0))))
unfolding daemonize
daemonize-both child (negsuc e) dir = (ground arith, (_, refl, inr (e, inl refl, refl, refl)))
daemonize-both child (pos m) (negsuc e) = (ground arith, (_, refl, inr (e, inr refl, refl, refl)))
daemonize-both child (pos m) (pos n) =
    (ground arith, (_, refl, inl (m, n, refl, refl, refl, refl, refl)))
