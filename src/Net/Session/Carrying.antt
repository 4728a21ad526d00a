-- ===== src/Net/Session/Carrying.antt =====
-- Clips over one connection: what one session sends for its commands, and what the other's reads make of
-- it.
use penguinsync.Base.{
  ℕ, ◌≡◌, ◌≤◌, refl, Bytes, true, List, [], ◌∷◌, ◌++◌, some, arith, length, Option-cases, inl, inr,
  subst, ap, sym, ◌∙◌, All, map, append-left-cancel,
}
use mathlib.Core.List.{append_assoc, append-nil}
use penguinsync.Base.Result.{ok, Result-cases}
use penguinsync.Base.Time.{Instant}
use penguinsync.Protocol.Clip.{Clip}
use penguinsync.Protocol.Message.{encode, clipboard}
use penguinsync.Protocol.Connection.{handle, on_received, on_send_clipboard, ready}
use penguinsync.Net.Framing.{write_message, read_message, max_frame_len}
use penguinsync.Net.Framing.RoundTrip.{read-write_message, sent-write_message, frame}
use penguinsync.Net.Session.{
  Link, Drive, Branch, Status, drive, running, ended, panicked, feed, round, on_read, on_command,
  run_actions, after_write, read_ready, commanded, clipboard_received, SessionEvent,
}

module _ (link : Link) where
  open link use {postcard, quic}
  open quic use {SendStream, RecvStream, sent, incoming}

  -- A session behind the handshakes that goes on.
  abbrev pub IsUp : Drive link → Type 0
  IsUp d = (d.machine.phase ≡ ready) × (d.status ≡ running)

  -- The commands for these clips complete one after the other, and as many reads.
  abbrev pub sends : List Clip → ℕ → Instant → List (Branch link)
  sends clips n c = map (λ clip. commanded (some clip) n c 0) clips

  abbrev pub reads : List Clip → ℕ → Instant → List (Branch link)
  reads clips n c = map (λ _. read_ready n c) clips

  -- Each clip has an encoding within the frame limit.
  abbrev pub IsSendable : Clip → Type 0
  IsSendable clip =
      (bytes : Bytes) × (encode postcard (clipboard clip) ≡ ok bytes)
      × (length bytes ≤ max_frame_len)

  drive-running :
      (d : Drive link) (bs : List (Branch link))
      → (drive link d bs).status ≡ running
      → d.status ≡ running
  unfolding drive
  drive-running d [] h = h
  drive-running d (b ∷ rest) h = by_status d.status refl h
    where
      by_status :
          (s : Status)
          → d.status ≡ s
          → (elim s as (λ _. Drive link) [
            | running ↦ drive link (round link d b) rest
            | _ ↦ d
          ]).status
            ≡ running
          → d.status ≡ running
      by_status running e h = e
      by_status ended e h = h
      by_status panicked e h = h

  pub drive_on :
      (d : Drive link) (b : Branch link) (rest : List (Branch link))
      → d.status ≡ running
      → drive link d (b ∷ rest) ≡ drive link (round link d b) rest
  unfolding drive
  drive_on d b rest h = rw (h) refl

  command-writes :
      (d : Drive link) (clip : Clip) (n : ℕ) (c : Instant)
      → d.machine.phase ≡ ready
      → d.commands_open ≡ true
      → let after = round link d (commanded (some clip) n c 0) in
        after.status ≡ running
        → (write_message postcard quic d.send (clipboard clip) ≡ some (ok after.send))
          × (after.machine.phase ≡ ready)
          × (after.commands_open ≡ true)
  unfolding round on_command feed handle on_send_clipboard run_actions after_write
  command-writes d clip n c is_ready is_open runs =
      elim (Option-cases (write_message postcard quic d.send (clipboard clip))) [
        | inl panics ↦ ground arith
        | inr (result, wrote) ↦ elim (Result-cases result) [
          | inl (e, failed) ↦ ground arith
          | inr (s', fine) ↦ ground arith
        ]
      ]

  read-hears :
      (d : Drive link) (clip : Clip) (r : RecvStream) (n : ℕ) (c : Instant)
      → d.machine.phase ≡ ready
      → read_message postcard quic d.recv ≡ ok (clipboard clip, r)
      → let after = round link d (read_ready n c) in
        (after.events ≡ d.events ++ clipboard_received clip ∷ [])
        × (after.machine.phase ≡ ready)
        × (after.status ≡ running)
        × (after.recv ≡ r)
  unfolding round on_read feed handle on_received run_actions
  read-hears d clip r n c is_ready got = rw (got) (ground arith)

  -- What the commands wrote is the frames of the clips.
  sends-sent :
      (d : Drive link) (clips : List Clip) (n : ℕ) (c : Instant)
      → d.machine.phase ≡ ready
      → d.commands_open ≡ true
      → All IsSendable clips
      → (drive link d (sends clips n c)).status ≡ running
      → (tail : Bytes) × (sent (drive link d (sends clips n c)).send ≡ sent d.send ++ tail)
  unfolding drive
  sends-sent d [] n c is_ready is_open fits runs = ([], sym (append-nil (sent d.send)))
  sends-sent d (clip ∷ rest) n c is_ready is_open ((bytes, enc, small), fits) runs =
      let b = commanded (some clip) n c 0 in
      let on = drive_on d b (sends rest n c) (drive-running d (sends (clip ∷ rest) n c) runs) in
      let runs' : (drive link (round link d b) (sends rest n c)).status ≡ running =
        ap (λ x. x.status) (sym on) ∙ runs in
      let (wrote, phase, open_still) =
        command-writes d clip n c is_ready is_open
          (drive-running (round link d b) (sends rest n c) runs') in
      let (tail, grown) = sends-sent (round link d b) rest n c phase open_still fits runs' in
      let first =
        (sent-write_message postcard quic d.send (round link d b).send (clipboard clip) bytes enc
          wrote).1 in
      (
        frame bytes ++ tail,
        ap (λ x. sent x.send) on
            ∙ grown
            ∙ ap (λ (x : Bytes). x ++ tail) first
            ∙ append_assoc (sent d.send) (frame bytes) tail,
      )

  -- Two sessions are behind their handshakes, on streams that are joined. One sends clips, each within
  -- the frame limit, and goes on. Once their bytes have reached the other, as many reads of it report
  -- exactly these clips in their order and leave what follows on the stream, and it goes on too.
  pub drive-carries :
      (d d' : Drive link) (clips : List Clip) (n n' : ℕ) (c c' : Instant) (rest : Bytes)
      → d.machine.phase ≡ ready
      → d.commands_open ≡ true
      → IsUp d'
      → All IsSendable clips
      → (drive link d (sends clips n c)).status ≡ running
      → sent d.send ++ incoming d'.recv ≡ sent (drive link d (sends clips n c)).send ++ rest
      → let after = drive link d' (reads clips n' c') in
        (after.events ≡ d'.events ++ map clipboard_received clips)
        × IsUp after
        × (incoming after.recv ≡ rest)
  unfolding drive
  drive-carries d d' [] n n' c c' rest is_ready is_open up fits runs arrives =
      (sym (append-nil d'.events), up, append-left-cancel (sent d.send) arrives)
  drive-carries d d' (clip ∷ clips) n n' c c' rest is_ready is_open up ((bytes, enc, small), fits)
        runs arrives =
      let b = commanded (some clip) n c 0 in
      let d1 = round link d b in
      let d2 = drive link d1 (sends clips n c) in
      let e1 = round link d' (read_ready n' c') in
      let on = drive_on d b (sends clips n c) (drive-running d (sends (clip ∷ clips) n c) runs) in
      let runs' : d2.status ≡ running = ap (λ x. x.status) (sym on) ∙ runs in
      let (wrote, phase, open_still) =
        command-writes d clip n c is_ready is_open (drive-running d1 (sends clips n c) runs') in
      let (tail, grown) = sends-sent d1 clips n c phase open_still fits runs' in
      let whole : sent d2.send ++ rest ≡ sent d1.send ++ (tail ++ rest) =
        ap (λ (x : Bytes). x ++ rest) grown ∙ append_assoc (sent d1.send) tail rest in
      let (r, got, left) =
        read-write_message postcard quic d.send d1.send d'.recv (clipboard clip) bytes
          (tail ++ rest) enc small wrote (arrives ∙ ap (λ x. sent x.send ++ rest) on ∙ whole) in
      let heard = read-hears d' clip r n' c' up.0 got in
      let later =
        drive-carries d1 e1 clips n n' c c' rest phase open_still (heard.1, heard.2) fits runs'
          (ap (λ x. sent d1.send ++ x) (ap incoming heard.3 ∙ left) ∙ sym whole) in
      subst
        (λ after.
          (after.events ≡ d'.events ++ map clipboard_received (clip ∷ clips))
          × IsUp after
          × (incoming after.recv ≡ rest))
        (sym (drive_on d' (read_ready n' c') (reads clips n' c') up.1))
        (
          later.0
              ∙ ap (λ (x : List SessionEvent). x ++ map clipboard_received clips) heard.0
              ∙ append_assoc d'.events (clipboard_received clip ∷ [])
                  (map clipboard_received clips),
          later.1,
          later.2,
        )
