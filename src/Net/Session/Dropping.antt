-- ===== src/Net/Session/Dropping.antt =====
-- A read that another branch of the session's `select!` drops.
use penguinsync.Base.{ℕ, ◌<◌, ◌≤◌, ◌≡◌, refl, Bytes, [], ◌∷◌, ◌++◌, some, arith, length, ap, ◌∙◌}
use mathlib.Core.List.{append_assoc}
use penguinsync.Base.Result.{ok, err}
use penguinsync.Base.Time.{Instant}
use penguinsync.Protocol.Message.{Message, encode}
use penguinsync.Protocol.Connection.{handle, tick}
use penguinsync.Net.Framing.{read_message, max_frame_len, u32_max, to_le_bytes, frame_too_large}
use penguinsync.Net.Framing.RoundTrip.{read_frame_message, read-abandon, frame}
use penguinsync.Net.Session.Carrying.{drive_on}
use penguinsync.Net.Session.{
  Link, Drive, drive, running, ended, feed, round, on_read, run_actions, ticked, read_ready, closed,
  framing_error,
}

module _ (link : Link) where
  open link use {postcard, quic, framing_text}
  open quic use {RecvStream, incoming}

  tick_drops :
      (d : Drive link) (now : Instant) (nonce : ℕ)
      → (handle d.machine (tick now) nonce now).1 ≡ []
      → let after = round link d (ticked now nonce 4) in
        (after.recv ≡ quic.abandon d.recv 4) × (after.events ≡ d.events) × (after.status ≡ running)
  unfolding round feed run_actions
  tick_drops d now nonce idle = ground arith

  refused :
      (d : Drive link) (n nonce : ℕ) (clock : Instant)
      → read_message postcard quic d.recv ≡ err (frame_too_large n)
      → let after = round link d (read_ready nonce clock) in
        (after.events ≡ d.events ++ closed (framing_error (framing_text (frame_too_large n))) ∷ [])
        × (after.close_code ≡ some 1)
        × (after.status ≡ ended)
  unfolding round on_read
  refused d n nonce clock h = rw h (refl, refl, refl)

  -- A frame within the limit has arrived, whose message begins with four bytes that name a length
  -- above it. A read that is not dropped gets the message. But a tick at which nothing is due drops the
  -- read that has taken the frame's header; the next read takes those four bytes for a header, and the
  -- session ends with a framing error and closes the connection with code 1.
  pub read-dropped :
      (d : Drive link) (m : Message) (bytes tail rest : Bytes) (n nonce nonce' : ℕ)
      (now clock : Instant)
      → d.status ≡ running
      → encode postcard m ≡ ok bytes
      → length bytes ≤ max_frame_len
      → bytes ≡ to_le_bytes n ++ tail
      → max_frame_len < n
      → n ≤ u32_max
      → incoming d.recv ≡ frame bytes ++ rest
      → (handle d.machine (tick now) nonce now).1 ≡ []
      → let after = drive link d (ticked now nonce 4 ∷ read_ready nonce' clock ∷ []) in
        ((r : RecvStream) × (read_message postcard quic d.recv ≡ ok (m, r)) × (incoming r ≡ rest))
        × (after.events
            ≡ d.events ++ closed (framing_error (framing_text (frame_too_large n))) ∷ [])
        × (after.close_code ≡ some 1)
        × (after.status ≡ ended)
  unfolding drive
  read-dropped d m bytes tail rest n nonce nonce' now clock up enc fits begins large small arrived
        idle =
      let d1 = round link d (ticked now nonce 4) in
      let (recv, events, on) = tick_drops d now nonce idle in
      let pending : incoming d.recv
          ≡ to_le_bytes (length bytes) ++ (to_le_bytes n ++ (tail ++ rest)) =
        arrived
        ∙ append_assoc (to_le_bytes (length bytes)) bytes rest
        ∙ ap (λ (b : Bytes). to_le_bytes (length bytes) ++ (b ++ rest)) begins
        ∙ ap (λ (b : Bytes). to_le_bytes (length bytes) ++ b)
            (append_assoc (to_le_bytes n) tail rest) in
      let got =
        read-abandon postcard quic d.recv n (length bytes) (tail ++ rest) large small pending in
      let (said, code, over) =
        refused d1 n nonce' clock (ap (read_message postcard quic) recv ∙ got) in
      let next = round link d1 (read_ready nonce' clock) in
      let same : drive link d (ticked now nonce 4 ∷ read_ready nonce' clock ∷ []) ≡ next =
        drive_on link d (ticked now nonce 4) (read_ready nonce' clock ∷ []) up
        ∙ drive_on link d1 (read_ready nonce' clock) [] on in
      (
        read_frame_message postcard quic d.recv m bytes rest enc fits arrived,
        ap (λ x. x.events) same
            ∙ said
            ∙ ap (λ x. x ++ closed (framing_error (framing_text (frame_too_large n))) ∷ []) events,
        ap (λ x. x.close_code) same ∙ code,
        ap (λ x. x.status) same ∙ over,
      )
