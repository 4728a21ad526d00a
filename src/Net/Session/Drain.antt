-- ===== src/Net/Session/Drain.antt =====
-- The induction rule of the driving task.
use penguinsync.Base.{◌≡◌, refl, List, [], ◌∷◌}
use penguinsync.Net.Session.{Link, Status, running, ended, panicked, Drive, Branch, round, drive}

module _ (link : Link) where
  -- What every round of a running task keeps holds at the end of any sequence of rounds.
  pub drive_induction :
      (P : Drive link → Type 0)
      → ((d : Drive link) (b : Branch link) → d.status ≡ running → P d → P (round link d b))
      → (d : Drive link) (bs : List (Branch link)) → P d
      → P (drive link d bs)
  unfolding drive
  drive_induction P keep d [] h = h
  drive_induction P keep d (b ∷ bs) h =
      go (λ e. drive_induction P keep (round link d b) bs (keep d b e h)) d.status refl
    where
      go :
          (d.status ≡ running → P (drive link (round link d b) bs))
          → (s : Status) → d.status ≡ s
          → P (elim s [ running ↦ drive link (round link d b) bs | _ ↦ d ])
      go next running e = next e
      go next ended e = h
      go next panicked e = h
