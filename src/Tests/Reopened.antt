-- ===== src/Tests/Reopened.antt =====
-- A run of the app that is opened, paired and opened again.
use penguinsync.Base.{
  ◌≡◌, refl, Bytes, Str, str, true, false, List, [], ◌∷◌, Option, none, some, arith, ite, ◌=?◌,
  bytes_key, bytes_discrete, ℕ_discrete, if◌then◌else◌,
}
use penguinsync.Base.Map.{lookup, insert}
use penguinsync.Base.Result.{ok}
use penguinsync.Base.Disk.{Disk, exists, attempt, perform, written, read_to_string}
use penguinsync.Base.Disk.Replacing.{Json, fetch, store}
use penguinsync.Protocol.Hex.{to_hex}
use penguinsync.Net.Tls.{is_paired}
use penguinsync.Net.Identity.{load_or_generate, generate, of_key}
use penguinsync.Net.Identity
use penguinsync.Ffi.State.{PersistedPeer, PersistedPeers, upsert, upsert_peer}
use penguinsync.Ffi.State.Saving.{load, save}
use penguinsync.Ffi.Core.{forward_events, forward_event, save_peer, set_active, new}
use penguinsync.Ffi.Core.Forwarding.{any_handshake}
use penguinsync.Ffi.Core.Opening.{App, open_app, peers_file}
use penguinsync.Ffi.Core.Reopening.{open_app-forward_events}
use penguinsync.Tests.Crates.{packed, unpack, unpack-packed}
use penguinsync.Tests.Protocol.{desk_id, desk_id-IsArray, phone_id}
use penguinsync.Tests.Apps.{some_events}
use penguinsync.Tests.Starts.{plain_rcgen, identity_of}

-- A coder of lists of at most one peer.
unfoldable to_text : List PersistedPeer → Option Bytes
to_text [] = some []
to_text (d ∷ []) = some (packed d.device_id d.name)
to_text (_ ∷ _ ∷ _) = none

unfoldable of_text : Bytes → Option PersistedPeers
of_text [] = some (record { peers = [] })
of_text (n ∷ rest) =
    let (device_id, name) = unpack (n ∷ rest) in
    some (record { peers = record { device_id = device_id; name = name } ∷ [] })

of_text-to_text :
    (ds : List PersistedPeer) (text : Bytes)
    → to_text ds ≡ some text
    → of_text text ≡ some (record { peers = ds })
unfolding to_text of_text
of_text-to_text [] text h = ground arith
of_text-to_text (d ∷ []) text h = ground (arith, unpack-packed d.device_id d.name)
of_text-to_text (_ ∷ _ ∷ _) text h = ground arith

abbrev plain_json : Json PersistedPeers
plain_json = record {
  to_vec_pretty = λ s. to_text s.peers;
  from_str = of_text;
  from_str-to_vec = λ s text h. of_text-to_text s.peers text h;
}

abbrev desk_peer : PersistedPeers
desk_peer = record { peers = record { device_id = to_hex desk_id; name = str "desk" } ∷ [] }

abbrev first_app : App plain_rcgen
first_app = record { identity = identity_of (1 ∷ []); core = new (record { peers = [] }) true }

abbrev first_disk : Disk
first_disk = (open_app plain_rcgen plain_json (ok (1 ∷ [])) none (ok tt) true []).0

abbrev paired_disk : Disk
paired_disk = (save plain_json desk_peer peers_file none first_disk).0

abbrev second_app : App plain_rcgen
second_app = record { identity = identity_of (1 ∷ []); core = new desk_peer true }

opens_empty : (open_app plain_rcgen plain_json (ok (1 ∷ [])) none (ok tt) true []).1 ≡ ok first_app
unfolding open_app load_or_generate exists lookup generate of_key penguinsync.Net.Identity.save
    attempt load fetch read_to_string perform written insert bytes_discrete ℕ_discrete
opens_empty = refl

opens_again :
    (open_app plain_rcgen plain_json (ok (2 ∷ [])) (some (0, none)) (ok tt) true paired_disk).1
    ≡ ok second_app
unfolding open_app load_or_generate exists lookup generate of_key penguinsync.Net.Identity.load
    penguinsync.Net.Identity.save attempt load save store to_text of_text unpack fetch
    read_to_string perform written insert bytes_discrete ℕ_discrete
    penguinsync.Base.Disk.with_extension penguinsync.Base.Disk.file_stem penguinsync.Base.Disk.dots
    penguinsync.Base.Map.remove to_hex
opens_again = refl

loads_paired : load plain_json peers_file paired_disk ≡ desk_peer
unfolding open_app load_or_generate exists lookup generate of_key penguinsync.Net.Identity.load
    penguinsync.Net.Identity.save attempt load save store to_text of_text unpack fetch
    read_to_string perform written insert bytes_discrete ℕ_discrete
    penguinsync.Base.Disk.with_extension penguinsync.Base.Disk.file_stem penguinsync.Base.Disk.dots
    penguinsync.Base.Map.remove to_hex
loads_paired = refl

open_app-forward_events_example : is_paired second_app.core.trust phone_id ≡ (
    if any_handshake some_events
    then ite (desk_id =? phone_id) true (is_paired first_app.core.trust phone_id)
    else is_paired first_app.core.trust phone_id)
unfolding forward_events forward_event set_active save_peer upsert upsert_peer new
open_app-forward_events_example =
    open_app-forward_events plain_rcgen plain_json (ok (1 ∷ [])) (ok (2 ∷ [])) none (some (0, none))
      (ok tt) (ok tt) true [] paired_disk first_app second_app desk_id phone_id (str "desk")
      some_events opens_empty loads_paired opens_again desk_id-IsArray
