-- ===== src/Daemon/Start/Restored.antt =====
-- The objects of a daemon that has just started, against the devices that it trusts.
use penguinsync.Base.{
  ◌≡◌, refl, Bytes, Str, Bool, true, false, ◌||◌, List, [], ◌∷◌, ◌++◌, Option, none, some, arith,
  ite, ◌=?◌, bytes_key, IsArray, Option-cases, inl, inr, str, append-left-cancel, ap, ◌∙◌, ◌⊎◌,
  subst, sym,
}
use penguinsync.Base.Map.{Map, elem, lookup, lookup-insert}
use penguinsync.Protocol.Hex.{device_id_len, from_hex}
use penguinsync.Protocol.Hex.RoundTrip.{to_hex-injective}
use penguinsync.Protocol.Hex.Sizes.{from_hex-IsArray}
use penguinsync.Daemon.State.{PersistedDevice, PersistedState, ids_of, device_ids}
use penguinsync.Daemon.Shared.{Device1}
use penguinsync.Daemon.Dbus.{device_path, root_path}
use penguinsync.Daemon.Start.{at, restore}

-- The bus shows an object at a device's path exactly if the device is trusted, and that object reads
-- as this device, not connected.
abbrev pub IsShown : Bytes → Option Device1 → Bool → Type 0
IsShown id none trusted = trusted ≡ false
IsShown id (some object) trusted =
    (trusted ≡ true) × (object.connected ≡ false) × (from_hex object.device_id ≡ some id)

device_path-injective :
    (a b : Bytes)
    → IsArray device_id_len a
    → IsArray device_id_len b
    → device_path a ≡ device_path b
    → a ≡ b
unfolding device_path
device_path-injective a b ha hb e =
    to_hex-injective a b ha hb (append-left-cancel (root_path ++ str "/devices/") e)

module _ (objects : Map Str Device1) (path : Str) (object : Device1) where
  at-other : (q : Str) → ¬ (path ≡ q) → lookup q (at objects path object) ≡ lookup q objects
  unfolding at
  at-other q apart = elim (Option-cases (lookup path objects)) [
    | inl absent ↦ ground (arith, lookup-insert path q object objects)
    | inr (old, found) ↦ ground arith
  ]

  at-new : lookup path objects ≡ none → lookup path (at objects path object) ≡ some object
  unfolding at
  at-new absent = ground (arith, lookup-insert path path object objects)

  at-old :
      (old : Device1)
      → lookup path objects ≡ some old
      → lookup path (at objects path object) ≡ some old
  unfolding at
  at-old old found = ground arith

IsShown-equal :
    (id : Bytes) {o o' : Option Device1} {b b' : Bool}
    → o ≡ o'
    → b ≡ b'
    → IsShown id o b
    → IsShown id o' b'
IsShown-equal id {o} {o'} {b} {b'} p q h = subst (λ x. IsShown id x b') p (subst (IsShown id o) q h)

at-IsShown :
    (objects : Map Str Device1) (object : Device1) (other id : Bytes) (trusted : Bool)
    → IsArray device_id_len id
    → from_hex object.device_id ≡ some other
    → object.connected ≡ false
    → IsShown id (lookup (device_path id) objects) trusted
    → IsShown id
        (lookup (device_path id) (at objects (device_path other) object))
        (ite (other =? id) true trusted)
at-IsShown objects object other id trusted hid reads off h =
    elim (other =? id)
      as (λ d.
        IsShown id (lookup (device_path id) (at objects (device_path other) object))
          (ite d true trusted)) [
            | no apart ↦
                IsShown-equal id
                  (sym (
                    at-other objects (device_path other) object (device_path id) (λ e. apart (
                      device_path-injective other id (from_hex-IsArray object.device_id other reads)
                        hid e))))
                  refl h
            | yes same ↦ here same (Option-cases (lookup (device_path other) objects))
          ]
  where
    here :
        other ≡ id
        → (lookup (device_path other) objects ≡ none)
          ⊎ ((old : Device1) × (lookup (device_path other) objects ≡ some old))
        → IsShown id (lookup (device_path id) (at objects (device_path other) object)) true
    here same (inl absent) =
        IsShown-equal id
          (sym (at-new objects (device_path other) object absent)
            ∙ ap (λ i. lookup (device_path i) (at objects (device_path other) object)) same)
          refl (refl, off, reads ∙ ap some same)
    here same (inr (old, found)) =
        let shown : IsShown id (some old) trusted =
          IsShown-equal id (ap (λ i. lookup (device_path i) objects) (sym same) ∙ found) refl h in
        IsShown-equal id
          (sym (at-old objects (device_path other) object old found)
            ∙ ap (λ i. lookup (device_path i) (at objects (device_path other) object)) same)
          refl (refl, shown.1, shown.2)

restore-IsShown :
    (ds : List PersistedDevice) (objects : Map Str Device1) (id : Bytes) (trusted : Bool)
    → IsArray device_id_len id
    → IsShown id (lookup (device_path id) objects) trusted
    → IsShown id (lookup (device_path id) (restore ds objects)) (elem id (ids_of ds) || trusted)
unfolding restore ids_of elem
restore-IsShown [] objects id trusted hid h = h
restore-IsShown (d ∷ rest) objects id trusted hid h = elim (Option-cases (from_hex d.device_id)) [
  | inl unreadable ↦
      rw (unreadable, restore, ids_of) (restore-IsShown rest objects id trusted hid h)
  | inr (other, reads) ↦
      let object : Device1 = record { name = d.name; device_id = d.device_id; connected = false } in
      let shown = at-IsShown objects object other id trusted hid reads refl h in
      rw (reads, restore, ids_of)
        (IsShown-equal id refl (later (elem id (ids_of rest)) trusted (other =? id)) (
          restore-IsShown rest (at objects (device_path other) object) id
            (ite (other =? id) true trusted) hid shown))
]
  where
    later :
        (b trusted : Bool) {P : Type 0} (d : Dec P)
        → b || ite d true trusted ≡ ite d true b || trusted
    later b trusted d = ground arith

-- On a bus that shows the objects of a state, each 32-byte id has an object exactly if the state
-- holds it.
pub restored :
    (state : PersistedState) (id : Bytes)
    → IsArray device_id_len id
    → IsShown id (lookup (device_path id) (restore state.devices [])) (elem id (device_ids state))
unfolding device_ids lookup
restored state id hid =
    IsShown-equal id refl (ground arith) (restore-IsShown state.devices [] id false hid refl)
