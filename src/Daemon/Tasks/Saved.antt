-- ===== src/Daemon/Tasks/Saved.antt =====
-- The file of devices against the state in memory, while several tasks change the state and save it
-- (crates/daemon/src/orchestrator.rs, dbus.rs and `persist_state` of shared.rs).
use penguinsync.Base.{
  ℕ, zero, suc, ◌≡◌, ◌⊎◌, inl, refl, Bytes, Bool, true, false, ◌||◌, List, [], ◌∷◌, ◌++◌, Option,
  none, some, arith, ap, ◌∙◌,
}
use penguinsync.Base.Time.{Instant}
use penguinsync.Daemon.Shared.{Shared, ListenerEvent, Waiting, persist_state}
use penguinsync.Daemon.Clipboard.{apply_locally, send_all}
use penguinsync.Daemon.Dbus.{begin_waiting, resolve}
use penguinsync.Daemon.Tasks.{
  Place, receiving, announcing, recording, checking, redeeming, asking, registering, awaiting,
  pinning, closing_window, upserting, saving, finding_object, adding_object, showing,
  fetching_handle, promoting, dropping_handle, dropping_remote, disconnecting, hiding,
  finding_sender, screening, comparing, applying, relaying, dispatching, Call, opening_window,
  storing_token, answering, revoking, removing, rewriting, unregistering, Watch, watching, noticed,
  collecting, sending, receive, resume, expire, advance, proceed, watch_on,
}
use penguinsync.Daemon.Tasks.Ticks.{
  System, Method, entry, start_pairing, confirm_pairing, unpair, Tick, arrives, orchestrates,
  expires, calls, proceeds, changes, watches, proceed_nth, step, run,
}

-- The task has changed the state, and not saved it yet.
abbrev is_saving : Place → Bool
is_saving (saving p) = true
is_saving _ = false

abbrev is_rewriting : Call → Bool
is_rewriting (rewriting id) = true
is_rewriting _ = false

abbrev any_rewriting : List Call → Bool
any_rewriting [] = false
any_rewriting (c ∷ rest) = is_rewriting c || any_rewriting rest

-- What one access does to the state and the file, for a task that owes a save before and after it.
abbrev Effect : Shared → Shared → (before after : Bool) → Type 0
Effect s s' before after =
    (s'.disk_writable ≡ s.disk_writable)
    × (s.disk_writable ≡ true
        → (s'.disk ≡ s'.state)
          ⊎ ((after ≡ true) ⊎ ((before ≡ false) × (s'.disk ≡ s.disk) × (s'.state ≡ s.state))))

receive-Effect :
    (s : Shared) (events : List ListenerEvent)
    → let (s', p') = receive s events in Effect s s' false (is_saving p')
unfolding receive
receive-Effect s [] = ground arith
receive-Effect s (e ∷ rest) = ground arith

resume-Effect :
    (s : Shared) (o : Option Waiting)
    → let (s', p') = resume s o in Effect s s' false (is_saving p')
unfolding resume
resume-Effect s none = ground arith
resume-Effect s (some w) = ground arith

expire-Effect :
    (s : Shared) (p : Place) (o : Option Waiting)
    → let (s', p') = expire s p o in Effect s s' (is_saving p) (is_saving p')
unfolding expire
expire-Effect s awaiting (some w) = ground arith
expire-Effect s p o = ground arith

advance-Effect :
    (s : Shared) (p : Place) (now : Instant)
    → let (s', p') = advance s p now in Effect s s' (is_saving p) (is_saving p')
unfolding advance begin_waiting persist_state apply_locally send_all
advance-Effect s receiving now = receive-Effect s s.inbox
advance-Effect s (announcing remote handle) now = ground arith
advance-Effect s (recording p token) now = ground arith
advance-Effect s (checking p token) now = ground arith
advance-Effect s (redeeming p none) now = ground arith
advance-Effect s (redeeming p (some presented)) now = ground arith
advance-Effect s (asking p) now = ground arith
advance-Effect s (registering p) now = ground arith
advance-Effect s awaiting now = resume-Effect s s.waiting
advance-Effect s (pinning p) now = ground arith
advance-Effect s (closing_window p) now = ground arith
advance-Effect s (upserting p) now = ground arith
advance-Effect s (saving p) now = ground arith
advance-Effect s (finding_object p) now = ground arith
advance-Effect s (adding_object p) now = ground arith
advance-Effect s (showing p) now = ground arith
advance-Effect s (fetching_handle p) now = ground arith
advance-Effect s (promoting id handle) now = ground arith
advance-Effect s (dropping_handle remote) now = ground arith
advance-Effect s (dropping_remote remote) now = ground arith
advance-Effect s (disconnecting id) now = ground arith
advance-Effect s (hiding id) now = ground arith
advance-Effect s (finding_sender remote clip) now = ground arith
advance-Effect s (screening sender clip) now = ground arith
advance-Effect s (comparing sender clip) now = ground arith
advance-Effect s (applying sender clip) now = ground arith
advance-Effect s (relaying sender clip) now = ground arith
advance-Effect s (dispatching handles clip) now = ground arith

-- Whether a save is owed where a call has got to.
abbrev is_left_rewriting : Option Call → Bool
is_left_rewriting none = false
is_left_rewriting (some c) = is_rewriting c

proceed-Effect :
    (s : Shared) (c : Call)
    → let (s', c') = proceed s c in Effect s s' (is_rewriting c) (is_left_rewriting c')
unfolding proceed resolve persist_state
proceed-Effect s (opening_window random now) = ground arith
proceed-Effect s (storing_token random now) = ground arith
proceed-Effect s (answering device_id accept) = ground arith
proceed-Effect s (revoking device_id) = ground arith
proceed-Effect s (removing id) = ground arith
proceed-Effect s (rewriting id) = ground arith
proceed-Effect s (unregistering id) = ground arith

proceed_nth-Effect :
    (n : ℕ) (s : Shared) (cs : List Call)
    → let (s', cs') = proceed_nth n s cs in Effect s s' (any_rewriting cs) (any_rewriting cs')
unfolding proceed_nth
proceed_nth-Effect n s [] = ground arith
proceed_nth-Effect zero s (c ∷ rest) = ground (arith, proceed-Effect s c)
proceed_nth-Effect (suc n) s (c ∷ rest) = ground (arith, proceed_nth-Effect n s rest)

watch_on-Effect : (s : Shared) (w : Watch) → let (s', w') = watch_on s w in Effect s s' false false
unfolding watch_on send_all
watch_on-Effect s watching = ground arith
watch_on-Effect s (noticed clip) = ground arith
watch_on-Effect s (collecting clip) = ground arith
watch_on-Effect s (sending handles clip) = ground arith

-- Some task has changed the state, and not saved it yet.
abbrev pub is_unsaved : System → Bool
is_unsaved t = is_saving t.place || any_rewriting t.calls

record IsSaved (t : System) : Type 0 where
  pub writable : t.shared.disk_writable ≡ true
  pub saved : (t.shared.disk ≡ t.shared.state) ⊎ (is_unsaved t ≡ true)

any_rewriting-append :
    (cs : List Call) (m : Method) → any_rewriting (cs ++ entry m ∷ []) ≡ any_rewriting cs
any_rewriting-append [] (start_pairing random now) = refl
any_rewriting-append [] (confirm_pairing device_id accept) = refl
any_rewriting-append [] (unpair device_id) = refl
any_rewriting-append (c ∷ rest) m = ap (λ b. is_rewriting c || b) (any_rewriting-append rest m)

step-IsSaved :
    (blake3 : Bytes → Bytes) (t : System) (x : Tick) → IsSaved t → IsSaved (step blake3 t x)
unfolding step
step-IsSaved blake3 t (arrives e) h = record { writable = h.writable; saved = h.saved }
step-IsSaved blake3 t (orchestrates now) h =
    let effect = advance-Effect t.shared t.place now in
    record { writable = effect.0 ∙ h.writable; saved = ground (arith, effect, h.writable, h.saved) }
step-IsSaved blake3 t expires h =
    let effect = expire-Effect t.shared t.place t.shared.waiting in
    record { writable = effect.0 ∙ h.writable; saved = ground (arith, effect, h.writable, h.saved) }
step-IsSaved blake3 t (calls m) h = record {
  writable = h.writable;
  saved = ground (arith, any_rewriting-append t.calls m, h.saved);
}
step-IsSaved blake3 t (proceeds n) h =
    let effect = proceed_nth-Effect n t.shared t.calls in
    record { writable = effect.0 ∙ h.writable; saved = ground (arith, effect, h.writable, h.saved) }
step-IsSaved blake3 t (changes mime read) h = record { writable = h.writable; saved = h.saved }
step-IsSaved blake3 t watches h =
    let effect = watch_on-Effect t.shared t.watch in
    record { writable = effect.0 ∙ h.writable; saved = ground (arith, effect, h.writable, h.saved) }

run-IsSaved :
    (blake3 : Bytes → Bytes) (t : System) (xs : List Tick) → IsSaved t → IsSaved (run blake3 t xs)
unfolding run
run-IsSaved blake3 t [] h = h
run-IsSaved blake3 t (x ∷ rest) h =
    run-IsSaved blake3 (step blake3 t x) rest (step-IsSaved blake3 t x h)

-- However the accesses of the orchestrator, of any number of calls and of the clipboard's loop
-- interleave: from a state whose file is the state in memory and can be written, whenever no task
-- stands between its change of the state and its save, the file is the state in memory again. No
-- save brings back an older state.
pub run-saves :
    (blake3 : Bytes → Bytes) (t : System) (xs : List Tick)
    → t.shared.disk_writable ≡ true
    → t.shared.disk ≡ t.shared.state
    → is_unsaved (run blake3 t xs) ≡ false
    → (run blake3 t xs).shared.disk ≡ (run blake3 t xs).shared.state
run-saves blake3 t xs writable same quiet =
    let start : IsSaved t = record { writable = writable; saved = inl same } in
    let last = run-IsSaved blake3 t xs start in ground (arith, last.saved, quiet)
