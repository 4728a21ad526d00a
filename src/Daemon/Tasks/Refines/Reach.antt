-- ===== src/Daemon/Tasks/Refines/Reach.antt =====
-- From one state of the daemon's tasks to another.
use penguinsync.Base.{◌≡◌, refl, Bytes, List, [], ◌∷◌, ◌++◌, bytes_key}
use penguinsync.Daemon.Shared.{Shared}
use penguinsync.Daemon.Tasks.{watching}
use penguinsync.Daemon.Tasks.Ticks.{System, Tick, step, run}
use penguinsync.Daemon.Tasks.Alone.Marking.{resting}

-- No handler is under way; the orchestrator may be waiting for a human.
abbrev pub at_rest : Shared → System
at_rest s = record { shared = s; place = resting s.waiting; calls = []; watch = watching }

module _ (blake3 : Bytes → Bytes) where
  pub run-append :
      (t : System) (xs ys : List Tick) → run blake3 t (xs ++ ys) ≡ run blake3 (run blake3 t xs) ys
  unfolding run
  run-append t [] ys = refl
  run-append t (x ∷ xs) ys = run-append (step blake3 t x) xs ys

  abbrev pub Reaches : System → System → Type 0
  Reaches t u = (xs : List Tick) × (run blake3 t xs ≡ u)

  pub ticks : (t : System) (x : Tick) {u : System} → Reaches (step blake3 t x) u → Reaches t u
  unfolding run
  ticks t x (xs, e) = (x ∷ xs, e)

  pub there : (t : System) → Reaches t t
  unfolding run
  there t = ([], refl)
