-- ===== src/Daemon/Tasks/Races.antt =====
-- Two races of the daemon: a device that is unpaired while its confirmation is carried out, and an
-- answer that comes before it is waited for (crates/daemon/src/orchestrator.rs against dbus.rs).
use penguinsync.Base.{
  ◌≡◌, refl, Bytes, Str, true, false, List, [], ◌∷◌, Option, none, some, arith, bytes_key, IsArray,
  ap, ◌∙◌, sym, subst, ◌++◌, ◌+◌,
}
use penguinsync.Base.Map.{elem, lookup, insert, lookup-remove}
use penguinsync.Base.Time.{Instant}
use penguinsync.Protocol.Hex.{device_id_len, to_hex, from_hex, short_fingerprint}
use penguinsync.Protocol.Hex.RoundTrip.{from_hex-to_hex}
use penguinsync.Net.Tls.{is_paired, new, pin, close_pairing_window, unpair as revoke}
use penguinsync.Net.Tls.Trust.{is_paired-new, is_paired-unpair}
use penguinsync.Daemon.State.{PersistedDevice, upsert_in, upsert, remove, ids_of, device_ids}
use penguinsync.Daemon.Shared.{Shared, persist_state}
use penguinsync.Base.Map
use penguinsync.Base.Result.{ok}
use penguinsync.Daemon.Dbus
use penguinsync.Daemon.Dbus.{device_path, resolve, begin_waiting}
use penguinsync.Daemon.Tasks.{
  Peer, Place, receiving, asking, pinning, upserting, Call, revoking, removing, Watch, advance,
  expire, proceed,
}
use penguinsync.Daemon.Tasks.Ticks.{
  System, Tick, confirm_pairing, orchestrates, expires, calls, proceeds, kept, proceed_nth, step,
  run,
}

elem-upsert_in :
    (id : Bytes) (name : Str) (ds : List PersistedDevice)
    → IsArray device_id_len id
    → elem id (ids_of (upsert_in (to_hex id) name ds)) ≡ true
unfolding elem ids_of upsert_in
elem-upsert_in id name [] h = ground (arith, from_hex-to_hex id h)
elem-upsert_in id name (d ∷ rest) h =
    ground (arith, from_hex-to_hex id h, elem-upsert_in id name rest h)

-- The orchestrator pins the device and closes the window, `unpair` runs as a whole, and the
-- orchestrator writes the device down.
abbrev pub unpaired_meanwhile : Instant → List Tick
unpaired_meanwhile now =
    orchestrates now
    ∷ orchestrates now
    ∷ proceeds 0
    ∷ proceeds 0
    ∷ proceeds 0
    ∷ proceeds 0
    ∷ orchestrates now
    ∷ orchestrates now
    ∷ []

-- `unpair` drops the pin of the device that its text names.
revoked :
    (blake3 : Bytes → Bytes) (s : Shared) (q : Place) (w : Watch) (hex : Str) (id : Bytes)
    → from_hex hex ≡ some id
    → step blake3
        (record { shared = s; place = q; calls = revoking hex ∷ []; watch = w })
        (proceeds 0)
      ≡ record {
        shared = record s { trust = revoke s.trust id };
        place = q;
        calls = removing id ∷ [];
        watch = w;
      }
unfolding step proceed_nth proceed
revoked blake3 s q w hex id read =
    ap
      (λ o.
        let r : Shared × Option Call = elim o [
          | none ↦ (s, none)
          | some id ↦ (record s { trust = revoke s.trust id }, some (removing id))
        ] in
        record { shared = r.0; place = q; calls = kept r.1 []; watch = w })
      read

-- What follows it.
abbrev unpaired_then : Instant → List Tick
unpaired_then now = proceeds 0 ∷ proceeds 0 ∷ proceeds 0 ∷ orchestrates now ∷ orchestrates now ∷ []

abbrev IsUndone : Bytes → System → Type 0
IsUndone id t =
    (t.calls ≡ [])
    × (is_paired t.shared.trust id ≡ false)
    × (is_paired (new (device_ids t.shared.disk)) id ≡ true)

persisted : (s : Shared) → s.disk_writable ≡ true → persist_state s ≡ record s { disk = s.state }
unfolding persist_state
persisted s h = rw h refl

undone :
    (blake3 : Bytes → Bytes) (s : Shared) (w : Watch) (p : Peer) (now : Instant)
    → IsArray device_id_len p.device_id
    → s.disk_writable ≡ true
    → IsUndone p.device_id (
        run blake3
          (record {
            shared = record s { trust = revoke s.trust p.device_id };
            place = upserting p;
            calls = removing p.device_id ∷ [];
            watch = w;
          })
          (unpaired_then now))
unfolding run step advance proceed_nth proceed device_ids upsert
undone blake3 s w p now typed writable =
    let id = p.device_id in
    let s1 = record s { trust = revoke s.trust id; state = remove s.state id } in
    let left : Shared → Shared = λ x. record x {
      objects = Map.remove (device_path id) x.objects;
      state = upsert x.state id p.name;
    } in
    let last = ap (λ x. persist_state (left x)) (persisted s1 writable) ∙ persisted _ writable in
    (
      refl,
      ap (λ x. is_paired x.trust id) last ∙ ground (arith, is_paired-unpair s.trust id id),
      ap (λ x. is_paired (new (device_ids x.disk)) id) last
          ∙ is_paired-new (device_ids (upsert (remove s.state id) id p.name)) id
          ∙ elem-upsert_in id p.name (remove s.state id).devices typed,
    )

-- A human unpairs a device with 32 bytes of id while its confirmation is carried out, between the
-- pinning and the entry in the state. If the file can be written, `unpair` has returned and the
-- running daemon does not trust the device, but its file has it: the trust store that the next start
-- builds from the file trusts it.
pub unpair_undone :
    (blake3 : Bytes → Bytes) (s : Shared) (w : Watch) (p : Peer) (hex : Str) (now : Instant)
    → from_hex hex ≡ some p.device_id
    → IsArray device_id_len p.device_id
    → s.disk_writable ≡ true
    → let t =
        run blake3
          (record { shared = s; place = pinning p; calls = revoking hex ∷ []; watch = w })
          (unpaired_meanwhile now) in
      (t.calls ≡ [])
      × (is_paired t.shared.trust p.device_id ≡ false)
      × (is_paired (new (device_ids t.shared.disk)) p.device_id ≡ true)
unfolding run step advance proceed_nth proceed persist_state
unpair_undone blake3 s w p hex now read typed writable =
    let s' = record s { trust = close_pairing_window (pin s.trust p.device_id) } in
    subst (λ u. IsUndone p.device_id (run blake3 u (unpaired_then now)))
      (sym (revoked blake3 s' (upserting p) w hex p.device_id read))
      (undone blake3 s' w p now typed writable)

-- The signal is sent, the human's answer is handled, and only then does the orchestrator wait for it,
-- until the time is up.
abbrev pub answered_at_once : Str → Instant → List Tick
answered_at_once hex now =
    orchestrates now
    ∷ calls (confirm_pairing hex true)
    ∷ proceeds 0
    ∷ orchestrates now
    ∷ expires
    ∷ []

-- The daemon with the signal sent.
abbrev pub signalled : Shared → Peer → Shared
signalled s p = record s {
  requests =
      s.requests
      ++ record {
        device_id = to_hex p.device_id;
        fingerprint = short_fingerprint p.device_id;
        name = p.name;
      }
        ∷ [];
}

-- A human accepts a device as soon as the signal is sent, before the orchestrator has registered
-- that it waits, and no earlier wait for this device is left over. `confirm_pairing` then returns
-- without an error and changes nothing. Once the time is up the request is over: the signal is all
-- that is new, but for the entry of the wait, which stays, and its channel's number.
pub answer_lost :
    (blake3 : Bytes → Bytes) (s : Shared) (w : Watch) (p : Peer) (hex : Str) (now : Instant)
    → from_hex hex ≡ some p.device_id
    → lookup p.device_id s.pending_confirmations ≡ none
    → (Dbus.confirm_pairing (signalled s p) hex true ≡ (signalled s p, ok tt))
      × (run blake3
            (record { shared = s; place = asking p; calls = []; watch = w })
            (answered_at_once hex now)
          ≡ record {
            shared = record (signalled s p) {
              pending_confirmations = insert p.device_id s.next_channel s.pending_confirmations;
              next_channel = s.next_channel + 1;
              waiting = none;
            };
            place = receiving;
            calls = [];
            watch = w;
          })
unfolding run step advance proceed_nth proceed expire resolve begin_waiting Dbus.confirm_pairing
answer_lost blake3 s w p hex now read idle = (ground arith, ground arith)
