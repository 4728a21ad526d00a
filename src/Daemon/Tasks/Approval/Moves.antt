-- ===== src/Daemon/Tasks/Approval/Moves.antt =====
-- What the orchestrator's accesses do to the pairings and to the confirmation that is waited for.
use penguinsync.Base.{
  ◌≡◌, ◌⊎◌, inl, inr, refl, Bytes, Bool, true, false, List, [], ◌∷◌, ◌++◌, Option, none, some,
  arith, ap, ◌∙◌, bytes_key, Option-cases, if-either,
}
use penguinsync.Base.Map.{lookup, lookup-insert}
use penguinsync.Base.Time.{Instant}
use penguinsync.Net.Tls.{pin, close_pairing_window}
use penguinsync.Daemon.Shared.{Shared, ListenerEvent, connected, session, Waiting, persist_state}
use penguinsync.Net.Session.{peer_handshake_event, ponged_event, clipboard_received, closed}
use penguinsync.Daemon.Clipboard.{apply_locally, send_all}
use penguinsync.Daemon.Dbus.{begin_waiting}
use penguinsync.Daemon.World.Core.{core}
use penguinsync.Daemon.World.Approval.{IsLinked, IsAnswered}
use penguinsync.Daemon.Tasks.{
  Peer, Place, receiving, announcing, recording, checking, redeeming, asking, registering, awaiting,
  pinning, closing_window, upserting, saving, finding_object, adding_object, showing,
  fetching_handle, promoting, dropping_handle, dropping_remote, disconnecting, hiding,
  finding_sender, screening, comparing, applying, relaying, dispatching, begin, receive, resumed,
  resume, expire, advance,
}

abbrev pub Linked : Shared → Type 0
Linked s = IsLinked (core s)

-- The device is paired, or a human has accepted it and it is about to be.
abbrev pub Held : Bytes → Shared → Type 0
Held id s = (lookup id s.trust.paired ≡ some tt) ⊎ IsAnswered id s.waiting

abbrev pub IsPinning : Bytes → Place → Type 0
IsPinning id (pinning p) = p.device_id ≡ id
IsPinning id _ = ⊥

-- A move of a task keeps the channels apart, and pairs or accepts only who was paired or accepted.
abbrev Keeps : Bytes → Shared → Place → Shared × Place → Type 0
Keeps id s p (s', p') = Linked s' × (Held id s' ⊎ IsPinning id p' → Held id s ⊎ IsPinning id p)

begin-calm : (id : Bytes) (e : ListenerEvent) → ¬ IsPinning id (begin e)
unfolding begin
begin-calm id (connected remote handle) h = h
begin-calm id (session remote (peer_handshake_event p)) h = h
begin-calm id (session remote (ponged_event rtt)) h = h
begin-calm id (session remote (clipboard_received clip)) h = h
begin-calm id (session remote (closed reason)) h = h

receive-Keeps :
    (id : Bytes) (s : Shared) (events : List ListenerEvent)
    → Linked s
    → Keeps id s receiving (receive s events)
unfolding receive
receive-Keeps id s [] l = (l, λ g. g)
receive-Keeps id s (e ∷ rest) l =
    (record { fresh = l.fresh; linked = l.linked }, ground (arith, begin-calm id e))

resumed-Keeps :
    (id : Bytes) (s : Shared) (w : Waiting) (accept : Bool)
    → s.waiting ≡ some w
    → (accept ≡ true → w.answer ≡ some true)
    → Linked s
    → Keeps id s awaiting (resumed s w accept)
resumed-Keeps id s w true h ha l = (record { fresh = l.fresh; linked = tt }, ground arith)
resumed-Keeps id s w false h ha l = (record { fresh = l.fresh; linked = tt }, ground arith)

resume-Keeps :
    (id : Bytes) (s : Shared) (o : Option Waiting)
    → s.waiting ≡ o
    → Linked s
    → Keeps id s awaiting (resume s o)
unfolding resume
resume-Keeps id s none h l = (l, λ g. g)
resume-Keeps id s (some w) h l = elim (Option-cases w.answer) [
  | inl silent ↦ rw silent (l, λ g. g)
  | inr (accept, said) ↦ rw said (resumed-Keeps id s w accept h (λ e. said ∙ ap some e) l)
]

pub expire-Keeps :
    (id : Bytes) (s : Shared) (p : Place) (o : Option Waiting)
    → s.waiting ≡ o
    → Linked s
    → Keeps id s p (expire s p o)
unfolding expire
expire-Keeps id s awaiting (some w) h l = elim (Option-cases w.answer) [
  | inl silent ↦ rw silent (resumed-Keeps id s w false h (λ e. absurd (cc)) l)
  | inr (accept, said) ↦ rw said (resumed-Keeps id s w accept h (λ e. said ∙ ap some e) l)
]
expire-Keeps id s p o h l = (l, λ g. g)

begun-Linked :
    (s : Shared) (p : Peer) → Linked s → Linked (begin_waiting s p.remote p.device_id p.name)
unfolding begin_waiting
begun-Linked s p l = record {
  fresh = λ a n e.
      ground
        (arith, lookup-insert p.device_id a s.next_channel s.pending_confirmations, l.fresh a n);
  linked = λ a e. ground (
    arith,
    lookup-insert p.device_id a s.next_channel s.pending_confirmations,
    l.fresh a s.next_channel,
  );
}

pub advance-Keeps :
    (id : Bytes) (s : Shared) (p : Place) (now : Instant)
    → Linked s
    → Keeps id s p (advance s p now)
unfolding advance begin_waiting persist_state apply_locally send_all pin close_pairing_window
advance-Keeps id s receiving now l = receive-Keeps id s s.inbox l
advance-Keeps id s awaiting now l = resume-Keeps id s s.waiting refl l
advance-Keeps id s (registering p) now l = (begun-Linked s p l, ground arith)
advance-Keeps id s (pinning p) now l = (
  record { fresh = l.fresh; linked = l.linked },
  ground (arith, lookup-insert p.device_id id tt s.trust.paired),
)
advance-Keeps id s (saving p) now l =
    if-either (λ s'. Keeps id s (saving p) (s', finding_object p)) s.disk_writable
      (record s { disk = s.state }) s (record { fresh = l.fresh; linked = l.linked }, λ g. g)
      (l, λ g. g)
advance-Keeps id s (applying sender clip) now l =
    if-either (λ s'. Keeps id s (applying sender clip) (s', relaying sender clip)) s.has_backend
      (record s { applied = s.applied ++ (clip.mime, clip.content) ∷ [] }) s (l, λ g. g) (l, λ g. g)
advance-Keeps id s (upserting p) now l =
    (record { fresh = l.fresh; linked = l.linked }, ground arith)
advance-Keeps id s (redeeming p none) now l = (l, ground arith)
advance-Keeps id s (announcing remote handle) now l = (l, ground arith)
advance-Keeps id s (recording p token) now l = (l, ground arith)
advance-Keeps id s (checking p token) now l = (l, ground arith)
advance-Keeps id s (redeeming p (some presented)) now l = (l, ground arith)
advance-Keeps id s (asking p) now l = (l, ground arith)
advance-Keeps id s (closing_window p) now l = (l, ground arith)
advance-Keeps id s (finding_object p) now l = (l, ground arith)
advance-Keeps id s (adding_object p) now l = (l, ground arith)
advance-Keeps id s (showing p) now l = (l, ground arith)
advance-Keeps id s (fetching_handle p) now l = (l, ground arith)
advance-Keeps id s (promoting other handle) now l = (l, ground arith)
advance-Keeps id s (dropping_handle remote) now l = (l, ground arith)
advance-Keeps id s (dropping_remote remote) now l = (l, ground arith)
advance-Keeps id s (disconnecting other) now l = (l, ground arith)
advance-Keeps id s (hiding other) now l = (l, ground arith)
advance-Keeps id s (finding_sender remote clip) now l = (l, ground arith)
advance-Keeps id s (screening sender clip) now l = (l, ground arith)
advance-Keeps id s (comparing sender clip) now l = (l, ground arith)
advance-Keeps id s (relaying sender clip) now l = (l, ground arith)
advance-Keeps id s (dispatching handles clip) now l = (l, ground arith)
