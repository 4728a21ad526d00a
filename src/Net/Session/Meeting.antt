-- ===== src/Net/Session/Meeting.antt =====
-- Two sessions over one connection: what the dialer's first frame makes of the listener's session.
use penguinsync.Base.{
  ℕ, ◌≡◌, ◌≤◌, refl, Bytes, [], ◌∷◌, ◌++◌, Option, none, some, arith, length, Option-cases, inl,
  inr, subst, ap, sym, ◌∙◌,
}
use penguinsync.Base.Result.{ok, Result-cases}
use penguinsync.Base.Time.{Instant, Duration}
use penguinsync.Protocol.Message.{encode}
use penguinsync.Protocol.Connection.{
  LocalIdentity, PeerHandshake, own_handshake, handle, on_received, on_handshake, ready, new,
}
use penguinsync.Net.Framing.{write_message, read_message, max_frame_len}
use penguinsync.Net.Framing.RoundTrip.{read-write_message}
use penguinsync.Net.Session.{
  Link, Drive, Branch, drive, running, start, feed, spawned, round, on_read, run_actions,
  after_write, read_ready, peer_handshake_event,
}
use penguinsync.Net.Session.Opening.{open_session, accept}

-- What the dialer's handshake tells the listener.
abbrev pub introduced : LocalIdentity → Option Bytes → PeerHandshake
introduced local token = record {
  device_id = local.device_id;
  name = local.name;
  capabilities = local.capabilities;
  pairing_token = token;
}

module _ (link : Link) where
  open link use {postcard, quic}
  open quic use {SendStream, RecvStream, sent, incoming}

  start-written :
      (local : LocalIdentity) (interval : Duration) (token : Option Bytes) (s : SendStream)
      (r : RecvStream) (nonce : ℕ) (clock : Instant)
      → (start link local interval token s r nonce clock).status ≡ running
      → write_message postcard quic s (own_handshake (new local interval token))
        ≡ some (ok (start link local interval token s r nonce clock).send)
  unfolding start feed spawned run_actions after_write handle
  start-written local interval token s r nonce clock h =
      elim (Option-cases
        (write_message postcard quic s (own_handshake (new local interval token)))) [
          | inl panics ↦ ground arith
          | inr (result, wrote) ↦ elim (Result-cases result) [
            | inl (e, failed) ↦ ground arith
            | inr (s', fine) ↦ ground arith
          ]
        ]

  listener-hears :
      (desk phone : LocalIdentity) (interval interval' : Duration) (token : Option Bytes)
      (s' : SendStream) (r' r2 : RecvStream) (n' n : ℕ) (c' c : Instant)
      → let listener = start link desk interval' none s' r' n' c' in
        read_message postcard quic r' ≡ ok (own_handshake (new phone interval token), r2)
        → let after = round link listener (read_ready n c) in
          (after.events ≡ listener.events ++ peer_handshake_event (introduced phone token) ∷ [])
          × (after.machine.phase ≡ ready)
          × (after.status ≡ running)
          × (after.recv ≡ r2)
  unfolding start feed spawned run_actions after_write handle round on_read on_received on_handshake
      own_handshake new
  listener-hears desk phone interval interval' token s' r' r2 n' n c' c got =
      rw (got) (refl, refl, refl, refl)

  drive_once :
      (d : Drive link) (b : Branch link)
      → d.status ≡ running
      → drive link d (b ∷ []) ≡ round link d b
  unfolding drive
  drive_once d b h = rw (h) refl

  -- The dialer's session and the listener's come up on streams that are joined, both start, and the
  -- dialer's handshake is within the frame limit. Once its bytes have reached the listener, one read
  -- makes the listener ready and reports the dialer's id, name and capabilities with the pairing token
  -- that it was given, and what follows on the stream is left for the next read.
  pub open-accept :
      (phone desk : LocalIdentity) (interval interval' : Duration) (token : Option Bytes)
      (s s' : SendStream) (r r' : RecvStream) (n n' n'' : ℕ) (c c' c'' : Instant)
      (dialer listener : Drive link) (bytes rest : Bytes)
      → open_session link (ok (s, r)) phone interval token n c ≡ ok dialer
      → accept link (ok (s', r')) desk interval' n' c' ≡ ok listener
      → dialer.status ≡ running
      → listener.status ≡ running
      → encode postcard (own_handshake (new phone interval token)) ≡ ok bytes
      → length bytes ≤ max_frame_len
      → sent s ++ incoming r' ≡ sent dialer.send ++ rest
      → let after = drive link listener (read_ready n'' c'' ∷ []) in
        (after.events ≡ listener.events ++ peer_handshake_event (introduced phone token) ∷ [])
        × (after.machine.phase ≡ ready)
        × (after.status ≡ running)
        × (incoming after.recv ≡ rest)
  unfolding open_session accept
  open-accept phone desk interval interval' token s s' r r' n n' n'' c c' c'' dialer listener bytes
        rest opened accepted runs runs' enc fits arrives =
      let started : start link phone interval token s r n c ≡ dialer = ground arith in
      let waits : start link desk interval' none s' r' n' c' ≡ listener = ground arith in
      let wrote = start-written phone interval token s r n c (ap (λ d. d.status) started ∙ runs) in
      let (r2, got, left) =
        read-write_message postcard quic s (start link phone interval token s r n c).send r'
          (own_handshake (new phone interval token)) bytes rest enc fits wrote
          (arrives ∙ ap (λ d. sent d.send ++ rest) (sym started)) in
      let heard = listener-hears desk phone interval interval' token s' r' r2 n' n'' c' c'' got in
      let after_round =
        subst
          (λ d.
            let after = round link d (read_ready n'' c'') in
            (after.events ≡ d.events ++ peer_handshake_event (introduced phone token) ∷ [])
            × (after.machine.phase ≡ ready)
            × (after.status ≡ running)
            × (incoming after.recv ≡ rest))
          waits (heard.0, heard.1, heard.2, ap incoming heard.3 ∙ left) in
      subst
        (λ after.
          (after.events ≡ listener.events ++ peer_handshake_event (introduced phone token) ∷ [])
          × (after.machine.phase ≡ ready)
          × (after.status ≡ running)
          × (incoming after.recv ≡ rest))
        (sym (drive_once listener (read_ready n'' c'') runs')) after_round
