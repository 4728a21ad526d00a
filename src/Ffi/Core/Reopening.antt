-- ===== src/Ffi/Core/Reopening.antt =====
-- Whom the app trusts when it is opened again.
use penguinsync.Base.{
  ◌≡◌, refl, ap, sym, ◌∙◌, Bytes, Str, Bool, true, false, List, [], ◌∷◌, arith, bytes_key, ite,
  ◌=?◌, IsArray, if◌then◌else◌, inl, inr,
}
use penguinsync.Base.Map.{elem}
use penguinsync.Base.Result.{Result, ok, Result-cases}
use penguinsync.Base.Disk.{Disk, Cut, read_to_string}
use penguinsync.Base.Disk.Replacing.{Json, fetch}
use penguinsync.Protocol.Hex.{device_id_len, to_hex}
use penguinsync.Protocol.Hex.RoundTrip.{from_hex-to_hex}
use penguinsync.Net.Tls.{Crypto, is_paired, pin}
use penguinsync.Net.Tls.Trust.{is_paired-new}
use penguinsync.Net.Identity.{Rcgen, load_or_generate}
use penguinsync.Net.Identity.Untouched.{load_or_generate-other}
use penguinsync.Net.Dialer.{DialerEvent}
use penguinsync.Ffi.State.{PersistedPeer, PersistedPeers, upsert_peer, upsert, peer_ids, device_ids}
use penguinsync.Ffi.State.Saving.{load}
use penguinsync.Ffi.Core.{Forward, forward_events, new}
use penguinsync.Ffi.Core.Forwarding.{any_handshake, forward_events-peers}
use penguinsync.Ffi.Core.Opening.{App, open_app, peers_file}

elem-peer_ids :
    (id other : Bytes) (name : Str) (ps : List PersistedPeer)
    → IsArray device_id_len id
    → elem other (peer_ids (upsert_peer (to_hex id) name ps))
      ≡ ite (id =? other) true (elem other (peer_ids ps))
unfolding elem peer_ids upsert_peer
elem-peer_ids id other name [] h = ground (arith, from_hex-to_hex id h)
elem-peer_ids id other name (p ∷ rest) h =
    ground (arith, from_hex-to_hex id h, elem-peer_ids id other name rest h)

-- A list of peers into which the device was put, if it was.
device_ids-upsert :
    (now : Bool) (id other : Bytes) (name : Str) (s : PersistedPeers)
    → IsArray device_id_len id
    → elem other (device_ids (if now then upsert s id name else s)) ≡ (
        if now
        then ite (id =? other) true (elem other (device_ids s))
        else elem other (device_ids s))
unfolding device_ids upsert
device_ids-upsert true id other name s h = elem-peer_ids id other name s.peers h
device_ids-upsert false id other name s h = refl

module _ {crypto : Crypto} (rcgen : Rcgen crypto) (json : Json PersistedPeers) where
  open rcgen use {KeyPair}

  opened :
      (fresh : Result Str KeyPair) (cut : Cut) (runtime : Result Str (Unit {0})) (writable : Bool)
      (d : Disk) (app : App rcgen)
      → (open_app rcgen json fresh cut runtime writable d).1 ≡ ok app
      → app.core ≡ new (load json peers_file d) writable
  unfolding open_app load fetch read_to_string
  opened fresh cut runtime writable d app h =
      let untouched =
        load_or_generate-other rcgen fresh cut d peers_file (λ e. ground arith)
          (λ e. ground arith) in
      elim (Result-cases (load_or_generate rcgen fresh cut d).1) [
        | inl (e, failed) ↦ ground arith
        | inr (identity, made) ↦ elim (Result-cases runtime) [
          | inl (e, failed) ↦ ground arith
          | inr (u, runs) ↦ ground (arith, untouched)
        ]
      ]

  opened-trusts :
      (peers : PersistedPeers) (writable : Bool) (app : App rcgen) (other : Bytes)
      → app.core ≡ new peers writable
      → is_paired app.core.trust other ≡ elem other (device_ids app.core.peers)
  unfolding new
  opened-trusts peers writable app other up =
      ap (λ c. is_paired c.trust other) up
      ∙ is_paired-new (device_ids peers) other
      ∙ ap (λ c. elem other (device_ids c.peers)) (sym up)

  -- The app is opened, the task that a pairing starts handles any events, and the app is opened
  -- again, on a disk whose list of peers loads as that task left it. If the list could be written,
  -- it then trusts whom it trusted when it was first opened, and the device of the QR code exactly if
  -- a handshake was among the events or it was trusted already: a scanned code alone does not last.
  pub open_app-forward_events :
      (fresh fresh' : Result Str KeyPair) (cut cut' : Cut)
      (runtime runtime' : Result Str (Unit {0})) (writable' : Bool) (d d' : Disk)
      (app app' : App rcgen) (id other : Bytes) (name : Str) (events : List DialerEvent)
      → (open_app rcgen json fresh cut runtime true d).1 ≡ ok app
      → let paired = record app.core { trust = pin app.core.trust id } in
        let task : Forward = record { core = paired; persisted = false; heard = [] } in
        load json peers_file d' ≡ (forward_events id name task events).core.peers
        → (open_app rcgen json fresh' cut' runtime' writable' d').1 ≡ ok app'
        → IsArray device_id_len id
        → is_paired app'.core.trust other ≡ (
            if any_handshake events
            then ite (id =? other) true (is_paired app.core.trust other)
            else is_paired app.core.trust other)
  unfolding new
  open_app-forward_events fresh fresh' cut cut' runtime runtime' writable' d d' app app' id other
        name events first kept second hid =
      let up = opened fresh cut runtime true d app first in
      let up' = opened fresh' cut' runtime' writable' d' app' second in
      let trusts = opened-trusts (load json peers_file d) true app other up in
      let paired = record app.core { trust = pin app.core.trust id } in
      let task : Forward = record { core = paired; persisted = false; heard = [] } in
      let listed = forward_events-peers id name task events (ap (λ c. c.peers_writable) up) in
      opened-trusts (load json peers_file d') writable' app' other up'
      ∙ ap (λ c. elem other (device_ids c.peers)) up'
      ∙ ap (λ p. elem other (device_ids p)) (kept ∙ listed)
      ∙ device_ids-upsert (any_handshake events) id other name app.core.peers hid
      ∙ ap (λ was. if any_handshake events then ite (id =? other) true was else was) (sym trusts)
