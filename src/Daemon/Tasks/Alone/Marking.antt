-- ===== src/Daemon/Tasks/Alone/Marking.antt =====
-- The orchestrator's accesses without another task in between, up to those of `mark_connected`.
use penguinsync.Base.{
  ℕ, zero, suc, ◌≡◌, refl, Bytes, Str, Bool, true, false, Option, none, some, arith, subst, sym, ap,
  bytes_key, if◌then◌else◌, ite,
}
use penguinsync.Base.Map.{Map, lookup, insert}
use penguinsync.Base.Time.{Instant}
use penguinsync.Base.Addr.{addr_key}
use penguinsync.Protocol.Hex.{to_hex}
use penguinsync.Daemon.Shared.{Shared, Device1, SessionHandle, Waiting}
use penguinsync.Daemon.Dbus.{device_path, set_connected}
use penguinsync.Daemon.Orchestrator.{mark_connected, ensure_device_object}
use penguinsync.Daemon.Start.{at}
use penguinsync.Daemon.Tasks.{
  Peer, Place, receiving, awaiting, finding_object, adding_object, showing, fetching_handle,
  promoting, advance,
}

-- Where the orchestrator is between two events.
abbrev pub resting : Option Waiting → Place
resting none = receiving
resting (some w) = awaiting

-- The object of a device that is new, and what is left of `mark_connected` once there is an object.
abbrev new_object : Peer → Device1
new_object p = record { name = p.name; device_id = to_hex p.device_id; connected = false }

abbrev marked : Shared → Peer → Map Str Device1 → Shared
marked s p objects =
    let s' = record s { objects = set_connected objects p.device_id true } in
    elim (lookup p.remote s.remote_handles) [
      | none ↦ s'
      | some handle ↦ record s' {
        connected_devices = insert p.device_id handle s.connected_devices;
      }
    ]

module _ (now : Instant) where
  unfoldable pub iterate : ℕ → Shared → Place → Shared × Place
  iterate zero s p = (s, p)
  iterate (suc n) s p = let (s', p') = advance s p now in iterate n s' p'

  -- Moving alone, it comes to rest with this state.
  abbrev pub Rests : Shared → Place → Shared → Type 0
  Rests s p s' = (n : ℕ) × (iterate n s p ≡ (s', resting s'.waiting))

  -- One access, and on from there.
  pub moves :
      (s : Shared) (p : Place) {s' : Shared}
      → Rests (advance s p now).0 (advance s p now).1 s'
      → Rests s p s'
  unfolding iterate
  moves s p (n, e) = (suc n, e)

  pub rests : (s : Shared) → s.waiting ≡ none → Rests s receiving s
  unfolding iterate
  rests s h = (0, ap (λ o. (s, resting o)) (sym h))

  pub if-Rests :
      (b : Bool) (s : Shared) (p q : Place) {x y : Shared}
      → Rests s p x
      → Rests s q y
      → Rests s (if b then p else q) (if b then x else y)
  if-Rests true s p q hp hq = hp
  if-Rests false s p q hp hq = hq

  pub ite-Rests :
      {Q : Type 0} (d : Dec Q) (s : Shared) (p q : Place) {x y : Shared}
      → Rests s p x
      → Rests s q y
      → Rests s (ite d p q) (ite d x y)
  ite-Rests (yes _) s p q hp hq = hp
  ite-Rests (no _) s p q hp hq = hq

  promoting-Rests :
      (s : Shared) (id : Bytes) (o : Option SessionHandle)
      → s.waiting ≡ none
      → Rests s
          (elim o [ none ↦ receiving | some handle ↦ promoting id handle ])
          (elim o [
            | none ↦ s
            | some handle ↦ record s { connected_devices = insert id handle s.connected_devices }
          ])
  unfolding advance
  promoting-Rests s id none h = rests s h
  promoting-Rests s id (some handle) h = moves s (promoting id handle) (rests _ h)

  showing-Rests :
      (s : Shared) (p : Peer) (objects : Map Str Device1)
      → s.waiting ≡ none
      → Rests (record s { objects = objects }) (showing p) (marked s p objects)
  unfolding advance
  showing-Rests s p objects h = moves _ (showing p) (
      moves _ (fetching_handle p) (
        promoting-Rests (record s { objects = set_connected objects p.device_id true }) p.device_id
          (lookup p.remote s.remote_handles) h))

  pub marking-Rests :
      (s : Shared) (p : Peer)
      → s.waiting ≡ none
      → Rests s (finding_object p) (mark_connected s p.remote p.device_id p.name)
  unfolding advance mark_connected ensure_device_object at
  marking-Rests s p h =
      moves s (finding_object p) (by_object (lookup (device_path p.device_id) s.objects) refl)
    where
      by_object :
          (o : Option Device1)
          → lookup (device_path p.device_id) s.objects ≡ o
          → Rests s
              (elim o [ some _ ↦ showing p | none ↦ adding_object p ])
              (marked s p (ensure_device_object s.objects p.device_id p.name))
      by_object none absent =
          let added = at s.objects (device_path p.device_id) (new_object p) in
          let same : added ≡ ensure_device_object s.objects p.device_id p.name = ground arith in
          subst (λ objects. Rests s (adding_object p) (marked s p objects)) same
            (moves s (adding_object p) (showing-Rests s p added h))
      by_object (some object) found =
          let same : s.objects ≡ ensure_device_object s.objects p.device_id p.name = ground arith in
          subst (λ objects. Rests s (showing p) (marked s p objects)) same
            (showing-Rests s p s.objects h)
