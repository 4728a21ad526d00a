-- ===== src/Tests/Tasks.antt =====
-- Runs of the daemon's tasks.
use penguinsync.Base.{
  ◌≡◌, refl, Str, str, true, false, List, [], ◌∷◌, none, some, arith, bytes_discrete, ℕ_discrete,
  bytes_key,
}
use penguinsync.Base.Map.{lookup, insert, remove}
use penguinsync.Protocol.Hex.{to_hex, from_hex}
use penguinsync.Protocol.Hex.RoundTrip.{from_hex-to_hex}
use penguinsync.Protocol.Pairing.{issue, redeem, is_expired}
use penguinsync.Net.Session.{peer_handshake_event}
use penguinsync.Net.Tls.{is_paired, new, pin, close_pairing_window, open_pairing_window}
use penguinsync.Daemon.State.{device_ids}
use penguinsync.Daemon.Shared.{session, persist_state}
use penguinsync.Daemon.Dbus
use penguinsync.Base.Result.{ok}
use penguinsync.Daemon.Dbus.{resolve, answer, begin_waiting}
use penguinsync.Daemon.Orchestrator.{redeem_current}
use penguinsync.Daemon.Tasks.{
  Peer, receiving, asking, pinning, watching, revoking, begin, receive, resume, advance, proceed,
}
use penguinsync.Daemon.Tasks.Ticks.{
  System, Tick, start_pairing, confirm_pairing, arrives, orchestrates, calls, proceeds, proceed_nth,
  step, run,
}
use penguinsync.Daemon.Tasks.Saved.{is_unsaved, run-saves}
use penguinsync.Daemon.Tasks.Approval.{IsAccepted, run-confirmed}
use penguinsync.Daemon.Tasks.Races.{
  unpaired_meanwhile, unpair_undone, answered_at_once, signalled, answer_lost,
}
use penguinsync.Tests.Protocol.{phone_id, phone_id-IsArray, a_token}
use penguinsync.Tests.Daemon.{fresh_daemon, home, a_peer}

abbrev the_phone : Peer
the_phone = record { remote = home; device_id = phone_id; name = str "phone" }

abbrev idle_daemon : System
idle_daemon = record { shared = fresh_daemon; place = receiving; calls = []; watch = watching }

-- A pairing up to the save, where a second call moves between the accesses of the orchestrator.
abbrev pairing_ticks : Str → List Tick
pairing_ticks hex =
    calls (start_pairing a_token 0)
    ∷ proceeds 0
    ∷ proceeds 0
    ∷ arrives (session home (peer_handshake_event a_peer))
    ∷ orchestrates 1
    ∷ orchestrates 1
    ∷ orchestrates 1
    ∷ orchestrates 1
    ∷ orchestrates 1
    ∷ orchestrates 1
    ∷ calls (confirm_pairing hex true)
    ∷ proceeds 0
    ∷ orchestrates 2
    ∷ orchestrates 2
    ∷ calls (start_pairing a_token 3)
    ∷ orchestrates 3
    ∷ orchestrates 3
    ∷ proceeds 0
    ∷ orchestrates 4
    ∷ []

pairs :
    (hex : Str)
    → from_hex hex ≡ some phone_id
    → let t = run (λ bs. bs) idle_daemon (pairing_ticks hex) in
      (is_paired t.shared.trust phone_id ≡ true) × (is_unsaved t ≡ false)
unfolding is_paired lookup run step advance receive begin resume proceed_nth proceed resolve answer
    begin_waiting redeem_current redeem issue is_expired pin close_pairing_window
    open_pairing_window insert remove persist_state bytes_discrete ℕ_discrete
pairs hex e = ground arith

run-confirmed_example : IsAccepted phone_id (pairing_ticks (to_hex phone_id))
unfolding is_paired lookup
run-confirmed_example =
    run-confirmed (λ bs. bs) phone_id idle_daemon (pairing_ticks (to_hex phone_id)) refl refl refl
      refl refl (pairs (to_hex phone_id) (from_hex-to_hex phone_id phone_id-IsArray)).0

run-saves_example :
    (run (λ bs. bs) idle_daemon (pairing_ticks (to_hex phone_id))).shared.disk
    ≡ (run (λ bs. bs) idle_daemon (pairing_ticks (to_hex phone_id))).shared.state
run-saves_example =
    run-saves (λ bs. bs) idle_daemon (pairing_ticks (to_hex phone_id)) refl refl
      (pairs (to_hex phone_id) (from_hex-to_hex phone_id phone_id-IsArray)).1

unpair_undone_example :
    let t =
      run
        (λ bs. bs)
        (record {
          shared = fresh_daemon;
          place = pinning the_phone;
          calls = revoking (to_hex phone_id) ∷ [];
          watch = watching;
        })
        (unpaired_meanwhile 2) in
    (t.calls ≡ [])
    × (is_paired t.shared.trust phone_id ≡ false)
    × (is_paired (new (device_ids t.shared.disk)) phone_id ≡ true)
unpair_undone_example =
    unpair_undone (λ bs. bs) fresh_daemon watching the_phone (to_hex phone_id) 2
      (from_hex-to_hex phone_id phone_id-IsArray) phone_id-IsArray refl

answer_lost_example :
    let asked = signalled fresh_daemon the_phone in
    (Dbus.confirm_pairing asked (to_hex phone_id) true ≡ (asked, ok tt))
    × (run
          (λ bs. bs)
          (record { shared = fresh_daemon; place = asking the_phone; calls = []; watch = watching })
          (answered_at_once (to_hex phone_id) 2)
        ≡ record {
          shared = record asked {
            pending_confirmations = (phone_id, 0) ∷ [];
            next_channel = 1;
            waiting = none;
          };
          place = receiving;
          calls = [];
          watch = watching;
        })
unfolding lookup insert
answer_lost_example =
    answer_lost (λ bs. bs) fresh_daemon watching the_phone (to_hex phone_id) 2
      (from_hex-to_hex phone_id phone_id-IsArray) refl
