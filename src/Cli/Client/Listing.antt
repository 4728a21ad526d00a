-- ===== src/Cli/Client/Listing.antt =====
-- The list of devices: which ones, and in which order.
use penguinsync.Base.{
  ◌≡◌, refl, Str, true, false, List, [], ◌∷◌, ◌=?◌, ite, bytes_key, All, arith, if◌then◌else◌,
  Bool-cases, inl, inr, if-either,
}
use penguinsync.Base.Result.{ok}
use penguinsync.Cli.Tui.{DeviceInfo}
use penguinsync.Cli.Client.{
  Managed, SessionBus, device_info, device_interface, has_interface, collect, str_leb,
  insert_by_name, sort_by_name, list_devices,
}

-- No later device has a smaller name.
unfoldable pub IsSorted : List DeviceInfo → Type 0
IsSorted [] = Unit
IsSorted (d ∷ rest) = All (λ e. str_leb d.name e.name ≡ true) rest × IsSorted rest

-- The devices of one name, in their order.
unfoldable pub named : Str → List DeviceInfo → List DeviceInfo
named n [] = []
named n (d ∷ rest) = ite (d.name =? n) (d ∷ named n rest) (named n rest)

-- Each object of the interface as a device, in the order of the answer.
unfoldable pub infos : List Managed → List DeviceInfo
infos [] = []
infos (o ∷ rest) =
    if has_interface device_interface o.interfaces then device_info o ∷ infos rest else infos rest

str_leb_refl : (a : Str) → str_leb a a ≡ true
unfolding str_leb
str_leb_refl [] = refl
str_leb_refl (x ∷ a) = ground (arith, str_leb_refl a)

str_leb_total : (a b : Str) → str_leb a b ≡ false → str_leb b a ≡ true
unfolding str_leb
str_leb_total [] b h = ground arith
str_leb_total (x ∷ a) [] h = refl
str_leb_total (x ∷ a) (y ∷ b) h = ground (arith, str_leb_total a b)

str_leb_trans : (a b c : Str) → str_leb a b ≡ true → str_leb b c ≡ true → str_leb a c ≡ true
unfolding str_leb
str_leb_trans [] b c h k = refl
str_leb_trans (x ∷ a) [] c h k = ground arith
str_leb_trans (x ∷ a) (y ∷ b) [] h k = ground arith
str_leb_trans (x ∷ a) (y ∷ b) (z ∷ c) h k = ground (arith, str_leb_trans a b c)

All-insert :
    (P : DeviceInfo → Type 0) (d : DeviceInfo) (ds : List DeviceInfo)
    → P d
    → All P ds
    → All P (insert_by_name d ds)
unfolding insert_by_name
All-insert P d [] h k = (h, tt)
All-insert P d (e ∷ rest) h k =
    if-either (All P) (str_leb d.name e.name) (d ∷ e ∷ rest) (e ∷ insert_by_name d rest) (h, k)
      (k.0, All-insert P d rest h k.1)

All-leb :
    (m n : Str) (ds : List DeviceInfo)
    → str_leb m n ≡ true
    → All (λ e. str_leb n e.name ≡ true) ds
    → All (λ e. str_leb m e.name ≡ true) ds
All-leb m n [] h k = tt
All-leb m n (e ∷ rest) h k = (str_leb_trans m n e.name h k.0, All-leb m n rest h k.1)

insert-IsSorted :
    (d : DeviceInfo) (ds : List DeviceInfo) → IsSorted ds → IsSorted (insert_by_name d ds)
unfolding insert_by_name IsSorted
insert-IsSorted d [] h = (tt, tt)
insert-IsSorted d (e ∷ rest) h = elim (Bool-cases (str_leb d.name e.name)) [
  | inl le ↦ rw (le, insert_by_name) ((le, All-leb d.name e.name rest le h.0), h)
  | inr gt ↦
      rw (gt, insert_by_name)
        (
          All-insert (λ x. str_leb e.name x.name ≡ true) d rest (str_leb_total d.name e.name gt)
              h.0,
          insert-IsSorted d rest h.1,
        )
]

insert-named :
    (n : Str) (d : DeviceInfo) (ds : List DeviceInfo)
    → named n (insert_by_name d ds) ≡ named n (d ∷ ds)
unfolding insert_by_name named
insert-named n d [] = refl
insert-named n d (e ∷ rest) = ground (arith, insert-named n d rest, str_leb_refl d.name)

sort-IsSorted : (ds : List DeviceInfo) → IsSorted (sort_by_name ds)
unfolding sort_by_name IsSorted
sort-IsSorted [] = tt
sort-IsSorted (d ∷ rest) = insert-IsSorted d (sort_by_name rest) (sort-IsSorted rest)

sort-named : (n : Str) (ds : List DeviceInfo) → named n (sort_by_name ds) ≡ named n ds
unfolding sort_by_name named
sort-named n [] = refl
sort-named n (d ∷ rest) = ground (arith, insert-named n d (sort_by_name rest), sort-named n rest)

-- The proxy of each object can be built.
abbrev IsReachable : Managed → Type 0
IsReachable o = o.proxy ≡ ok tt

collect-infos :
    (objects : List Managed) → All IsReachable objects → collect objects ≡ ok (infos objects)
unfolding collect infos
collect-infos [] h = refl
collect-infos (o ∷ rest) h = ground (arith, collect-infos rest h.1)

-- If the objects are given and a proxy can be built for each, the devices are listed: sorted by
-- name, and for each name those that the bus shows, as often and in the same order, so that none is
-- lost, added or doubled.
pub list_devices_lem :
    (bus : SessionBus) (objects : List Managed) (n : Str)
    → bus.managed_objects ≡ ok objects
    → All IsReachable objects
    → (devices : List DeviceInfo) × (list_devices bus ≡ ok devices)
      × IsSorted devices
      × (named n devices ≡ named n (infos objects))
unfolding list_devices
list_devices_lem bus objects n answered reachable = (
  sort_by_name (infos objects),
  ground (arith, collect-infos objects reachable),
  sort-IsSorted (infos objects),
  sort-named n (infos objects),
)
