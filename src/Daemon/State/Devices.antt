-- ===== src/Daemon/State/Devices.antt =====
-- What the list of devices holds after an insertion or a removal.
use penguinsync.Base.{
  ◌≡◌, refl, Bytes, Str, Bool, true, false, List, [], ◌∷◌, arith, ite, ◌=?◌, bytes_key, All,
  IsArray, ite-either,
}
use penguinsync.Base.Map.{elem}
use penguinsync.Protocol.Hex.{device_id_len, to_hex}
use penguinsync.Protocol.Hex.RoundTrip.{from_hex-to_hex, to_hex-injective}
use penguinsync.Daemon.State.{
  PersistedDevice, PersistedState, upsert_in, upsert, retain_other, remove, ids_of, device_ids,
}

-- Some entry carries this text as its id.
unfoldable has : Str → List PersistedDevice → Bool
has hex [] = false
has hex (d ∷ rest) = ite (d.device_id =? hex) true (has hex rest)

has-upsert_in :
    (hex name h : Str) (ds : List PersistedDevice)
    → has h (upsert_in hex name ds) ≡ ite (hex =? h) true (has h ds)
unfolding has upsert_in
has-upsert_in hex name h [] = refl
has-upsert_in hex name h (d ∷ rest) = ground (arith, has-upsert_in hex name h rest)

has-retain_other :
    (hex h : Str) (ds : List PersistedDevice)
    → has h (retain_other hex ds) ≡ ite (hex =? h) false (has h ds)
unfolding has retain_other
has-retain_other hex h [] = ground arith
has-retain_other hex h (d ∷ rest) = ground (arith, has-retain_other hex h rest)

-- The entry's id is a device id as `to_hex` prints it.
abbrev pub IsCanonical : PersistedDevice → Type 0
IsCanonical d = (id : Bytes) × IsArray device_id_len id × (d.device_id ≡ to_hex id)

upsert-IsCanonical :
    (id : Bytes) (name : Str) (ds : List PersistedDevice)
    → IsArray device_id_len id
    → All IsCanonical ds
    → All IsCanonical (upsert_in (to_hex id) name ds)
unfolding upsert_in
upsert-IsCanonical id name [] hid h = ((id, hid, refl), tt)
upsert-IsCanonical id name (d ∷ rest) hid h =
    ite-either (All IsCanonical) (d.device_id =? to_hex id) (record d { name = name } ∷ rest)
      (d ∷ upsert_in (to_hex id) name rest) (h.0, h.1)
      (h.0, upsert-IsCanonical id name rest hid h.1)

retain_other-IsCanonical :
    (hex : Str) (ds : List PersistedDevice)
    → All IsCanonical ds
    → All IsCanonical (retain_other hex ds)
unfolding retain_other
retain_other-IsCanonical hex [] h = tt
retain_other-IsCanonical hex (d ∷ rest) h =
    let kept = retain_other-IsCanonical hex rest h.1 in
    ite-either (All IsCanonical) (d.device_id =? hex) (retain_other hex rest)
      (d ∷ retain_other hex rest) kept (h.0, kept)

-- Canonical entries are read back one for one.
elem-ids_of :
    (id : Bytes) (ds : List PersistedDevice)
    → IsArray device_id_len id
    → All IsCanonical ds
    → elem id (ids_of ds) ≡ has (to_hex id) ds
unfolding elem ids_of has
elem-ids_of id [] hid h = refl
elem-ids_of id (d ∷ rest) hid ((a, ha, e), h) =
    ground (arith, from_hex-to_hex a ha, to_hex-injective a id ha hid, elem-ids_of id rest hid h)

-- On canonical entries, what `device_ids` loads is a set on which `upsert` is insertion and `remove`
-- is removal, and both keep the entries canonical.
pub device_ids_lem :
    (s : PersistedState) (id other : Bytes) (name : Str)
    → IsArray device_id_len id
    → IsArray device_id_len other
    → All IsCanonical s.devices
    → (elem other (device_ids (upsert s id name))
        ≡ ite (id =? other) true (elem other (device_ids s)))
      × (elem other (device_ids (remove s id))
          ≡ ite (id =? other) false (elem other (device_ids s)))
      × All IsCanonical (upsert s id name).devices
      × All IsCanonical (remove s id).devices
unfolding device_ids upsert remove
device_ids_lem s id other name hid ho h =
    let up = upsert-IsCanonical id name s.devices hid h in
    let down = retain_other-IsCanonical (to_hex id) s.devices h in
    (
      ground (
        arith,
        elem-ids_of other (upsert_in (to_hex id) name s.devices) ho up,
        elem-ids_of other s.devices ho h,
        has-upsert_in (to_hex id) name (to_hex other) s.devices,
        to_hex-injective id other hid ho,
      ),
      ground (
        arith,
        elem-ids_of other (retain_other (to_hex id) s.devices) ho down,
        elem-ids_of other s.devices ho h,
        has-retain_other (to_hex id) (to_hex other) s.devices,
        to_hex-injective id other hid ho,
      ),
      up,
      down,
    )
