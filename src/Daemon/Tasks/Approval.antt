-- ===== src/Daemon/Tasks/Approval.antt =====
-- A device is paired only by a human's word, also where the accesses of the daemon's tasks interleave.
mod Moves
use penguinsync.Base.{
  ℕ, zero, suc, ◌<◌, ◌≡◌, ◌⊎◌, inl, inr, refl, Bytes, Str, Bool, true, false, List, [], ◌∷◌, ◌++◌,
  Option, none, some, arith, subst, sym, ap, ◌∙◌, bytes_key, ◌==◌, if◌then◌else◌, Option-cases,
  if-either,
}
use penguinsync.Base.Map.{Map, lookup, insert, remove, lookup-insert, lookup-remove}
use penguinsync.Base.Time.{Instant}
use penguinsync.Protocol.Hex.{from_hex}
use penguinsync.Net.Tls.{
  is_paired, pin, close_pairing_window, open_pairing_window, unpair as revoke,
}
use penguinsync.Net.Tls.Trust.{is_paired-lookup}
use penguinsync.Daemon.Shared.{Shared, ListenerEvent, connected, session, Waiting, persist_state}
use penguinsync.Net.Session.{peer_handshake_event, ponged_event, clipboard_received, closed}
use penguinsync.Daemon.Clipboard.{apply_locally, send_all}
use penguinsync.Daemon.Dbus.{begin_waiting, resolve, answer}
use penguinsync.Daemon.World.Core.{core, core-resolve}
use penguinsync.Daemon.World.Approval.{
  IsLinked, IsLinkedTo, IsAnswered, IsGranted, resolved-IsLinked, answered-IsGranted,
  empty-IsLinked,
}
use penguinsync.Daemon.Tasks.{
  Peer, Place, receiving, announcing, recording, checking, redeeming, asking, registering, awaiting,
  pinning, closing_window, upserting, saving, finding_object, adding_object, showing,
  fetching_handle, promoting, dropping_handle, dropping_remote, disconnecting, hiding,
  finding_sender, screening, comparing, applying, relaying, dispatching, Call, opening_window,
  storing_token, answering, revoking, removing, rewriting, unregistering, Watch, watching, noticed,
  collecting, sending, begin, receive, resumed, resume, expire, advance, proceed, watch_on,
}
use penguinsync.Daemon.Tasks.Ticks.{
  System, Method, entry, start_pairing, confirm_pairing, unpair, Tick, kept, arrives, orchestrates,
  expires, calls, proceeds, changes, watches, proceed_nth, step, run,
}
use penguinsync.Daemon.Tasks.Approval.Moves.{Linked, Held, IsPinning, expire-Keeps, advance-Keeps}

-- The call will accept this device when it moves.
abbrev IsAccepting : Bytes → Call → Type 0
IsAccepting id (answering device_id true) = from_hex device_id ≡ some id
IsAccepting id _ = ⊥

abbrev AnyAccepting : Bytes → List Call → Type 0
AnyAccepting id [] = ⊥
AnyAccepting id (c ∷ rest) = IsAccepting id c ⊎ AnyAccepting id rest

accepted-IsAccepting :
    (id a : Bytes) (hex : Str) (accept : Bool)
    → from_hex hex ≡ some a
    → (accept ≡ true) × (a ≡ id)
    → IsAccepting id (answering hex accept)
accepted-IsAccepting id a hex true e h = e ∙ ap some h.1
accepted-IsAccepting id a hex false e h = absurd (cc h.0)

-- An access of a call keeps the channels apart, accepts only what it was called for, and leaves no
-- acceptance to do.
abbrev CallKeeps : Bytes → Shared → Call → Shared × Option Call → Type 0
CallKeeps id s c (s', c') =
    Linked s' × (Held id s' → Held id s ⊎ IsAccepting id c) × (AnyAccepting id (kept c' []) → ⊥)

answering-Keeps :
    (id : Bytes) (s : Shared) (hex : Str) (accept : Bool)
    → Linked s
    → CallKeeps id s (answering hex accept) (proceed s (answering hex accept))
unfolding proceed
answering-Keeps id s hex accept l = elim (Option-cases (from_hex hex)) [
  | inl malformed ↦ rw (malformed, proceed) (l, inl, λ g. g)
  | inr (a, e) ↦
      rw (e, proceed)
        (
          subst IsLinked (sym (core-resolve s a accept)) (resolved-IsLinked (core s) a accept l),
          λ g.
              elim (answered-IsGranted id a (core s) accept l
                (subst (IsGranted id) (core-resolve s a accept) g)) [
                  | inl before ↦ inl before
                  | inr now ↦ inr (accepted-IsAccepting id a hex accept e now)
                ],
          λ g. g,
        )
]

revoking-Keeps :
    (id : Bytes) (s : Shared) (hex : Str)
    → Linked s
    → CallKeeps id s (revoking hex) (proceed s (revoking hex))
unfolding proceed revoke
revoking-Keeps id s hex l = elim (Option-cases (from_hex hex)) [
  | inl malformed ↦ rw (malformed, proceed) (l, inl, λ g. g)
  | inr (a, e) ↦
      rw (e, proceed)
        (
          record { fresh = l.fresh; linked = l.linked },
          ground (arith, lookup-remove a id s.trust.paired),
          λ g. ground arith,
        )
]

proceed-Keeps : (id : Bytes) (s : Shared) (c : Call) → Linked s → CallKeeps id s c (proceed s c)
unfolding proceed persist_state open_pairing_window
proceed-Keeps id s (opening_window random now) l = (l, inl, λ g. ground arith)
proceed-Keeps id s (storing_token random now) l = (l, inl, λ g. g)
proceed-Keeps id s (answering hex accept) l = answering-Keeps id s hex accept l
proceed-Keeps id s (revoking hex) l = revoking-Keeps id s hex l
proceed-Keeps id s (removing a) l =
    (record { fresh = l.fresh; linked = l.linked }, inl, λ g. ground arith)
proceed-Keeps id s (rewriting a) l =
    if-either (λ s'. CallKeeps id s (rewriting a) (s', some (unregistering a))) s.disk_writable
      (record s { disk = s.state }) s
      (record { fresh = l.fresh; linked = l.linked }, inl, λ g. ground arith)
      (l, inl, λ g. ground arith)
proceed-Keeps id s (unregistering a) l = (l, inl, λ g. g)

kept-Accepting :
    (id : Bytes) (c : Option Call) (rest : List Call)
    → (AnyAccepting id (kept c []) → ⊥)
    → AnyAccepting id (kept c rest)
    → AnyAccepting id rest
kept-Accepting id none rest h g = g
kept-Accepting id (some c) rest h g = ground (arith, h)

proceed_nth-Keeps :
    (id : Bytes) (n : ℕ) (s : Shared) (cs : List Call)
    → Linked s
    → let (s', cs') = proceed_nth n s cs in
      Linked s' × (Held id s' ⊎ AnyAccepting id cs' → Held id s ⊎ AnyAccepting id cs)
unfolding proceed_nth
proceed_nth-Keeps id n s [] l = (l, λ g. g)
proceed_nth-Keeps id zero s (c ∷ rest) l =
    let (linked, held, calm) = proceed-Keeps id s c l in
    (linked, ground (arith, held, kept-Accepting id (proceed s c).1 rest calm))
proceed_nth-Keeps id (suc n) s (c ∷ rest) l =
    let (linked, held) = proceed_nth-Keeps id n s rest l in (linked, ground (arith, held))

watch_on-Keeps :
    (id : Bytes) (s : Shared) (w : Watch)
    → Linked s
    → let (s', w') = watch_on s w in Linked s' × (Held id s' → Held id s)
unfolding watch_on send_all
watch_on-Keeps id s watching l = (l, λ g. g)
watch_on-Keeps id s (noticed clip) l = (l, λ g. g)
watch_on-Keeps id s (collecting clip) l = (l, λ g. g)
watch_on-Keeps id s (sending handles clip) l = (l, λ g. g)

-- The device is paired or about to be, or a call is there that accepts it.
abbrev IsGrantedIn : Bytes → System → Type 0
IsGrantedIn id t = (Held id t.shared ⊎ IsPinning id t.place) ⊎ AnyAccepting id t.calls

-- The tick calls `confirm_pairing` to accept this device.
abbrev pub IsAcceptance : Bytes → Tick → Type 0
IsAcceptance id (calls (confirm_pairing device_id true)) = from_hex device_id ≡ some id
IsAcceptance id _ = ⊥

entry-Accepting :
    (id : Bytes) (cs : List Call) (m : Method)
    → AnyAccepting id (cs ++ entry m ∷ [])
    → AnyAccepting id cs ⊎ IsAcceptance id (calls m)
entry-Accepting id [] (start_pairing random now) g = ground arith
entry-Accepting id [] (confirm_pairing device_id true) g = ground arith
entry-Accepting id [] (confirm_pairing device_id false) g = ground arith
entry-Accepting id [] (unpair device_id) g = ground arith
entry-Accepting id (c ∷ rest) m g = ground (arith, entry-Accepting id rest m)

step-Granted :
    (blake3 : Bytes → Bytes) (id : Bytes) (t : System) (x : Tick)
    → Linked t.shared
    → let t' = step blake3 t x in
      Linked t'.shared × (IsGrantedIn id t' → IsGrantedIn id t ⊎ IsAcceptance id x)
unfolding step
step-Granted blake3 id t (arrives e) l = (record { fresh = l.fresh; linked = l.linked }, inl)
step-Granted blake3 id t (orchestrates now) l =
    let (linked, held) = advance-Keeps id t.shared t.place now l in (linked, ground (arith, held))
step-Granted blake3 id t expires l =
    let (linked, held) = expire-Keeps id t.shared t.place t.shared.waiting refl l in
    (linked, ground (arith, held))
step-Granted blake3 id t (calls m) l = (l, ground (arith, entry-Accepting id t.calls m))
step-Granted blake3 id t (proceeds n) l =
    let (linked, held) = proceed_nth-Keeps id n t.shared t.calls l in (linked, ground (arith, held))
step-Granted blake3 id t (changes mime read) l = (l, inl)
step-Granted blake3 id t watches l =
    let (linked, held) = watch_on-Keeps id t.shared t.watch l in (linked, ground (arith, held))

-- Some tick accepts this device.
abbrev pub IsAccepted : Bytes → List Tick → Type 0
IsAccepted id [] = ⊥
IsAccepted id (x ∷ rest) = IsAcceptance id x ⊎ IsAccepted id rest

run-Granted :
    (blake3 : Bytes → Bytes) (id : Bytes) (t : System) (xs : List Tick)
    → Linked t.shared
    → IsGrantedIn id (run blake3 t xs)
    → IsGrantedIn id t ⊎ IsAccepted id xs
unfolding run
run-Granted blake3 id t [] l g = inl g
run-Granted blake3 id t (x ∷ rest) l g =
    let (linked, held) = step-Granted blake3 id t x l in
    ground (arith, run-Granted blake3 id (step blake3 t x) rest linked g, held)

-- However the accesses of the orchestrator, of any number of calls and of the clipboard's loop
-- interleave: a device that is paired at the end, and was not at a start at which no task was busy
-- and no confirmation pending, has been accepted by a human. One of the calls made is
-- `confirm_pairing` with its id in hexadecimal and `true`.
pub run-confirmed :
    (blake3 : Bytes → Bytes) (id : Bytes) (t : System) (xs : List Tick)
    → t.place ≡ receiving
    → t.calls ≡ []
    → t.shared.waiting ≡ none
    → t.shared.pending_confirmations ≡ []
    → is_paired t.shared.trust id ≡ false
    → is_paired (run blake3 t xs).shared.trust id ≡ true
    → IsAccepted id xs
unfolding is_paired
run-confirmed blake3 id t xs hp hc hw hn h0 h1 =
    elim (run-Granted blake3 id t xs (empty-IsLinked (core t.shared) hw hn)
      (inl (inl (inl (is_paired-lookup (run blake3 t xs).shared.trust id h1))))) [
        | inl before ↦ ground (arith, hp, hc, hw)
        | inr accepted ↦ accepted
      ]
