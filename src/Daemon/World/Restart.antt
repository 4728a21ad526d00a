-- ===== src/Daemon/World/Restart.antt =====
-- What a restart of the daemon keeps: the trust store that `main` builds from the file again
-- (crates/daemon/src/main.rs, crates/daemon/src/state.rs).
use penguinsync.Base.{
  ◌≡◌, Bytes, true, List, [], ◌∷◌, none, bytes_key, All, IsArray, subst, sym, ap, ◌∙◌,
}
use penguinsync.Base.Map.{elem}
use penguinsync.Protocol.Hex.{device_id_len}
use penguinsync.Net.Tls.{new, is_paired}
use penguinsync.Net.Tls.Trust.{is_paired-new}
use penguinsync.Daemon.State.{device_ids}
use penguinsync.Daemon.State.Devices.{IsCanonical}
use penguinsync.Daemon.Shared.{Shared}
use penguinsync.Daemon.World.{Input, step, run}
use penguinsync.Daemon.World.Core.{core}
use penguinsync.Daemon.World.Moves.{step-Move}
use penguinsync.Daemon.World.Kept.{IsKept, IsTypedEvent, IsTypedWait, IsTypedInput, Move-IsKept}

run-IsKept :
    (blake3 : Bytes → Bytes) (s : Shared) (inputs : List Input)
    → All IsTypedInput inputs
    → IsKept (core s)
    → IsKept (core (run blake3 s inputs))
unfolding run
run-IsKept blake3 s [] t h = h
run-IsKept blake3 s (i ∷ rest) t h =
    run-IsKept blake3 (step blake3 s i) rest t.1
      (Move-IsKept (core s) (core (step blake3 s i)) i (step-Move blake3 s i) t.0 h)

-- A daemon starts with the trust store that it builds from its file, no events, and nothing waited for.
pub record IsStarted (s : Shared) : Type 0 where
  pub loaded : s.state ≡ s.disk
  pub trusting : s.trust ≡ new (device_ids s.disk)
  pub quiet : s.inbox ≡ []
  pub idle : s.waiting ≡ none

start-IsKept :
    (s : Shared)
    → IsStarted s
    → All IsCanonical s.disk.devices
    → s.disk_writable ≡ true
    → IsKept (core s)
unfolding is_paired
start-IsKept s start can writable = record {
  canonical = subst (λ p. All IsCanonical p.devices) (sym start.loaded) can;
  same = λ id hid.
      ap (λ t. is_paired t id) start.trusting
      ∙ is_paired-new (device_ids s.disk) id
      ∙ ap (λ p. elem id (device_ids p)) (sym start.loaded);
  on_disk = sym start.loaded;
  writable = writable;
  events = subst (All IsTypedEvent) (sym start.quiet) tt;
  wait = subst IsTypedWait (sym start.idle) tt;
}

-- At every moment after a start, if the file can be written and held entries as `upsert` writes
-- them, and the ids in handshakes are 32 bytes, a restart would trust the devices that the running
-- daemon trusts: the trust store built from the file pairs the same 32-byte ids.
run-restart :
    (blake3 : Bytes → Bytes) (s : Shared) (inputs : List Input) (id : Bytes)
    → IsStarted s
    → All IsCanonical s.disk.devices
    → s.disk_writable ≡ true
    → All IsTypedInput inputs
    → IsArray device_id_len id
    → is_paired (new (device_ids (run blake3 s inputs).disk)) id
      ≡ is_paired (run blake3 s inputs).trust id
unfolding is_paired
run-restart blake3 s inputs id start can writable typed hid =
    let kept = run-IsKept blake3 s inputs typed (start-IsKept s start can writable) in
    let now = run blake3 s inputs in
    cc (is_paired-new (device_ids now.disk) id, kept.on_disk, kept.same id hid)
