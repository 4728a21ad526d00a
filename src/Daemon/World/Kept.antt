-- ===== src/Daemon/World/Kept.antt =====
-- The pairings in memory, in the state and on the file stay the same through every step.
use penguinsync.Base.{
  ℕ, ◌≡◌, refl, Bytes, Bool, true, false, [], ◌∷◌, ◌++◌, Option, none, some, arith, All-append,
  bytes_key, if◌then◌else◌, if-either, ◌==◌, All, IsArray, subst, sym, ap,
}
use penguinsync.Base.Map.{elem, lookup, remove}
use penguinsync.Protocol.Hex.{device_id_len}
use penguinsync.Protocol.Hex.Sizes.{from_hex-IsArray}
use penguinsync.Net.Tls.{TrustStore, is_paired, pin, unpair as revoke}
use penguinsync.Net.Tls.Trust.{is_paired-pin, is_paired-unpair}
use penguinsync.Daemon.State.{device_ids}
use penguinsync.Daemon.State.Devices.{IsCanonical, device_ids_lem}
use penguinsync.Daemon.Shared.{ListenerEvent, Waiting}
use penguinsync.Daemon.Dbus.{answer}
use penguinsync.Daemon.World.{Input, arrives}
use penguinsync.Daemon.World.Core.{
  Core, Claims, settled, resolved, forgotten, saved, pinned, unpinned,
}
use penguinsync.Daemon.World.Moves.{Move, stays, hears, takes, asks, settles, answers, forgets}

-- The pairings as a trust store.
abbrev pub store : Core → TrustStore
store c = record { paired = c.paired; pairing_deadline = none }

-- A device id is 32 bytes.
abbrev pub IsTypedEvent : ListenerEvent → Type 0
IsTypedEvent e = (id : Bytes) → Claims id e → IsArray device_id_len id

abbrev pub IsTypedWait : Option Waiting → Type 0
IsTypedWait none = Unit
IsTypedWait (some w) = IsArray device_id_len w.device_id

abbrev pub IsTypedInput : Input → Type 0
IsTypedInput (arrives e) = IsTypedEvent e
IsTypedInput _ = Unit

-- The pairings in memory are those of the state, whose entries are canonical, and the file, which can
-- be written, is the state.
pub record IsKept (c : Core) : Type 0 where
  pub canonical : All IsCanonical c.state.devices
  pub same :
      (id : Bytes)
      → IsArray device_id_len id
      → is_paired (store c) id ≡ elem id (device_ids c.state)
  pub on_disk : c.disk ≡ c.state
  pub writable : c.disk_writable ≡ true
  pub events : All IsTypedEvent c.inbox
  pub wait : IsTypedWait c.waiting

saved-IsKept :
    (c : Core)
    → All IsCanonical c.state.devices
    → ((id : Bytes)
        → IsArray device_id_len id
        → is_paired (store c) id ≡ elem id (device_ids c.state))
    → c.disk_writable ≡ true
    → All IsTypedEvent c.inbox
    → IsTypedWait c.waiting
    → IsKept (saved c)
saved-IsKept c can same writable events wait =
    subst (λ b. IsKept (if b then record c { disk = c.state } else c)) (sym writable)
      (record {
        canonical = can;
        same = same;
        on_disk = refl;
        writable = writable;
        events = events;
        wait = wait;
      })

settled-IsKept :
    (c : Core) (w : Waiting) (accept : Bool)
    → c.waiting ≡ some w
    → IsKept c
    → IsKept (settled c w accept)
unfolding pin
settled-IsKept c w false hw h = record {
  canonical = h.canonical;
  same = h.same;
  on_disk = h.on_disk;
  writable = h.writable;
  events = h.events;
  wait = tt;
}
settled-IsKept c w true hw h =
    let typed : IsArray device_id_len w.device_id = subst IsTypedWait hw h.wait in
    saved-IsKept (pinned c w)
      (device_ids_lem c.state w.device_id w.device_id w.name typed typed h.canonical).2
      (λ id hid. ground (
        arith,
        is_paired-pin (store c) w.device_id id,
        (device_ids_lem c.state w.device_id id w.name typed hid h.canonical).0,
        h.same id hid,
      ))
      h.writable h.events tt

forgotten-IsKept :
    (c : Core) (id : Bytes) → IsArray device_id_len id → IsKept c → IsKept (forgotten c id)
unfolding revoke
forgotten-IsKept c id typed h =
    saved-IsKept (unpinned c id) (device_ids_lem c.state id id [] typed typed h.canonical).3
      (λ other ho. ground (
        arith,
        is_paired-unpair (store c) id other,
        (device_ids_lem c.state id other [] typed ho h.canonical).1,
        h.same other ho,
      ))
      h.writable h.events h.wait

answer-IsTypedWait :
    (o : Option Waiting) (ch : ℕ) (accept : Bool) → IsTypedWait o → IsTypedWait (answer o ch accept)
unfolding answer
answer-IsTypedWait none ch accept h = tt
answer-IsTypedWait (some w) ch accept h =
    if-either IsTypedWait (w.channel == ch) (some (record w { answer = some accept })) (some w) h h

resolved-IsKept : (c : Core) (id : Bytes) (accept : Bool) → IsKept c → IsKept (resolved c id accept)
resolved-IsKept c id accept h = by_channel (lookup id c.pending)
  where
    by_channel :
        (o : Option ℕ)
        → IsKept (elim o [
          | none ↦ c
          | some channel ↦ record c {
            pending = remove id c.pending;
            waiting = answer c.waiting channel accept;
          }
        ])
    by_channel none = h
    by_channel (some ch) = record {
      canonical = h.canonical;
      same = h.same;
      on_disk = h.on_disk;
      writable = h.writable;
      events = h.events;
      wait = answer-IsTypedWait c.waiting ch accept h.wait;
    }

-- A different inbox, wait or table of channels is no matter, if the ids are 32 bytes.
with_events :
    (c c' : Core)
    → IsKept c
    → c'.paired ≡ c.paired
    → c'.state ≡ c.state
    → c'.disk ≡ c.disk
    → c'.disk_writable ≡ c.disk_writable
    → All IsTypedEvent c'.inbox
    → IsTypedWait c'.waiting
    → IsKept c'
with_events c c' h ep es ed ew events wait = record {
  canonical = subst (λ s. All IsCanonical s.devices) (sym es) h.canonical;
  same = λ id hid. cc (ep, es, h.same id hid);
  on_disk = cc (ed, es, h.on_disk);
  writable = cc (ew, h.writable);
  events = events;
  wait = wait;
}

pub Move-IsKept : (c c' : Core) (i : Input) → Move c i c' → IsTypedInput i → IsKept c → IsKept c'
Move-IsKept c c' i (stays e) ti h = rw e h
Move-IsKept c c' i (hears ev hi e) ti h =
    let typed : IsTypedEvent ev = subst IsTypedInput hi ti in
    rw e (
      with_events c (record c { inbox = c.inbox ++ ev ∷ [] }) h refl refl refl refl
        (All-append IsTypedEvent c.inbox (ev ∷ []) h.events (typed, tt)) h.wait)
Move-IsKept c c' i (takes ev rest hq e) ti h =
    let typed : All IsTypedEvent (ev ∷ rest) = subst (All IsTypedEvent) hq h.events in
    rw e (with_events c (record c { inbox = rest }) h refl refl refl refl typed.1 h.wait)
Move-IsKept c c' i (asks ev rest hq (w, ch, na, cl, e)) ti h =
    let typed : All IsTypedEvent (ev ∷ rest) = subst (All IsTypedEvent) hq h.events in
    with_events c c' h (ap (λ x. x.paired) e) (ap (λ x. x.state) e) (ap (λ x. x.disk) e)
      (ap (λ x. x.disk_writable) e) (subst (All IsTypedEvent) (sym (ap (λ x. x.inbox) e)) typed.1)
      (subst IsTypedWait (sym (ap (λ x. x.waiting) e)) (typed.0 w.device_id cl))
Move-IsKept c c' i (settles w accept hw ha e) ti h = rw e (settled-IsKept c w accept hw h)
Move-IsKept c c' i (answers hex accept id hi hid e) ti h = rw e (resolved-IsKept c id accept h)
Move-IsKept c c' i (forgets hex id hi hid e) ti h =
    rw e (forgotten-IsKept c id (from_hex-IsArray hex id hid) h)
