-- ===== src/Ffi/Core/Whole.antt =====
-- A whole pairing: the daemon shows a code, the app scans it and dials with its token, the two sessions
-- meet, and the daemon asks the human. crates/daemon, crates/net and crates/ffi.
use penguinsync.Base.{
  ℕ, ◌<◌, ◌≤◌, ◌≡◌, refl, Bytes, Str, Bool, true, false, List, [], ◌∷◌, ◌++◌, Option, some, arith,
  length, drop, map, subst, ap, sym, ◌∙◌, IsArray, bytes_key, drop-append_length,
}
use penguinsync.Base.Map.{lookup-insert}
use penguinsync.Base.Result.{ok}
use penguinsync.Base.Time.{Instant, Duration, duration_since}
use penguinsync.Base.Addr.{IpAddr, SocketAddr, AddrText}
use penguinsync.Protocol.Hex.{to_hex, device_id_len, token_len}
use penguinsync.Protocol.Message.{encode}
use penguinsync.Protocol.Pairing.{token_ttl}
use penguinsync.Protocol.Qr.{UrlCrate}
use penguinsync.Protocol.Connection.{LocalIdentity, own_handshake, new}
use penguinsync.Net.Tls.{is_paired, pin, open_pairing_window, pairing_open}
use penguinsync.Net.Framing.{max_frame_len}
use penguinsync.Net.Session.{
  Link, Drive, SessionEvent, drive, running, read_ready, peer_handshake_event,
}
use penguinsync.Net.Session.Opening.{open_session, accept}
use penguinsync.Net.Session.Meeting.{introduced, open-accept}
use penguinsync.Daemon.Shared.{Shared, session}
use penguinsync.Daemon.NetAddrs.{candidate_addrs}
use penguinsync.Daemon.Dbus.{start_pairing, open_pairing}
use penguinsync.Daemon.World.{Input, arrives, turn, confirm, run}
use penguinsync.Daemon.World
use penguinsync.Daemon.World.Pairing.{IsIdle, IsSettled, run-pairing}
use penguinsync.Ffi.Core.{PenguinSyncCore, Pairing, pair}
use penguinsync.Ffi.Core.Scan.{pair-start_pairing}

-- What happens at the daemon: the code is shown, the session's events arrive, the orchestrator takes
-- the first, the human answers, and the orchestrator goes on.
abbrev pub pairing_with :
    SocketAddr → List SessionEvent → Bytes → Bytes → Instant → Instant → Instant → Bool → List Input
pairing_with remote heard id random t t' t'' accepted =
    World.start_pairing random t
    ∷ (map (λ e. arrives (session remote e)) heard
        ++ turn t' ∷ confirm (to_hex id) accepted ∷ turn t'' ∷ [])

pin-is_paired : (core : PenguinSyncCore) (id : Bytes) → is_paired (pin core.trust id) id ≡ true
unfolding is_paired pin
pin-is_paired core id = ground (arith, lookup-insert id id tt core.trust.paired)

module _ (url : UrlCrate) (text : AddrText) (link : Link) where
  open link use {postcard, quic}
  open quic use {SendStream, RecvStream, sent, incoming}

  -- What the app reads off the daemon's code.
  scanned :
      (s : Shared) (core core' : PenguinSyncCore) (random : Bytes) (t t' : Instant)
      (guess : Option IpAddr) (uri : Str) (p : Pairing)
      → IsArray device_id_len s.identity
      → IsArray token_len random
      → duration_since t' t < token_ttl
      → (start_pairing url text s random t (candidate_addrs s.listen_addr guess)).1 ≡ some uri
      → pair url text core uri (ok tt) ≡ (core', ok p)
      → let opened = (start_pairing url text s random t (candidate_addrs s.listen_addr guess)).0 in
        (p.token ≡ random)
        × (is_paired core'.trust s.identity ≡ true)
        × (pairing_open opened.trust t' ≡ true)
  unfolding start_pairing open_pairing open_pairing_window pairing_open
  scanned s core core' random t t' guess uri p hid htoken early shows pairs =
      let (uri', addr, rest, shows', first, pairs', redeems) =
        pair-start_pairing url text s core random t t' guess hid htoken early in
      let same : pair url text core uri (ok tt) ≡ pair url text core uri' (ok tt) = ground arith in
      let known = sym pairs ∙ same ∙ pairs' in
      (
        ground arith,
        subst (λ c. is_paired c.trust s.identity ≡ true) (sym (ap (λ r. r.0) known))
            (pin-is_paired core s.identity),
        ground arith,
      )

  -- The daemon is idle, its disk takes writes, and the phone is not paired with it. It shows the code
  -- of a fresh token; the app scans it and opens a session with the token it read; the daemon's
  -- listener accepts, both sessions start, and the bytes of the phone's handshake, which is within the
  -- frame limit, arrive. What the daemon's session reports after one read goes to the orchestrator
  -- before the token is a minute old, and the human answers for the phone's id. Then the app trusts
  -- the daemon; the window that opened with the code is open when the orchestrator gets the handshake;
  -- the human was asked once, about the phone; the daemon trusts the phone exactly if the answer was
  -- yes, and it is idle again. After a yes the phone is entered in its state, and the disk has this
  -- state; after a no both are as before.
  pub run-pair :
      (blake3 : Bytes → Bytes) (s : Shared) (core core' : PenguinSyncCore)
      (phone desk : LocalIdentity) (random : Bytes) (t t' t'' : Instant) (guess : Option IpAddr)
      (accepted : Bool) (uri : Str) (p : Pairing) (interval interval' : Duration)
      (out out' : SendStream) (in_ in' : RecvStream) (n n' n'' : ℕ) (c c' c'' : Instant)
      (dialer listener : Drive link) (bytes rest : Bytes) (remote : SocketAddr)
      → IsIdle s
      → s.disk_writable ≡ true
      → is_paired s.trust phone.device_id ≡ false
      → IsArray device_id_len s.identity
      → IsArray device_id_len phone.device_id
      → IsArray token_len random
      → duration_since t' t < token_ttl
      → (start_pairing url text s random t (candidate_addrs s.listen_addr guess)).1 ≡ some uri
      → pair url text core uri (ok tt) ≡ (core', ok p)
      → open_session link (ok (out, in_)) phone interval (some p.token) n c ≡ ok dialer
      → accept link (ok (out', in')) desk interval' n' c' ≡ ok listener
      → dialer.status ≡ running
      → listener.status ≡ running
      → encode postcard (own_handshake (new phone interval (some p.token))) ≡ ok bytes
      → length bytes ≤ max_frame_len
      → sent out ++ incoming in' ≡ sent dialer.send ++ rest
      → let heard =
          drop (length listener.events) (drive link listener (read_ready n'' c'' ∷ [])).events in
        let shown = (start_pairing url text s random t (candidate_addrs s.listen_addr guess)).0 in
        (is_paired core'.trust s.identity ≡ true)
        × (pairing_open shown.trust t' ≡ true)
        × IsSettled s
            (run blake3 s (pairing_with remote heard phone.device_id random t t' t'' accepted))
            (introduced phone (some random))
            accepted
  run-pair blake3 s core core' phone desk random t t' t'' guess accepted uri p interval interval'
        out out' in_ in' n n' n'' c c' c'' dialer listener bytes rest remote idle writable strange
        hid hphone htoken early shows pairs opened accepts runs runs' enc fits arrived =
      let (token, trusts, admits) =
        scanned s core core' random t t' guess uri p hid htoken early shows pairs in
      let met =
        open-accept link phone desk interval interval' (some p.token) out out' in_ in' n n' n'' c c'
          c'' dialer listener bytes rest opened accepts runs runs' enc fits arrived in
      let event : Bytes → SessionEvent = λ b. peer_handshake_event (introduced phone (some b)) in
      let heard =
        ap (drop (length listener.events)) met.0
        ∙ drop-append_length (length listener.events) listener.events (event p.token ∷ []) refl
        ∙ ap (λ b. event b ∷ []) token in
      (
        trusts,
        admits,
        subst
            (λ events.
              IsSettled s
                (run blake3 s (pairing_with remote events phone.device_id random t t' t'' accepted))
                (introduced phone (some random)) accepted)
            (sym heard)
            (run-pairing blake3 s remote (introduced phone (some random)) random t t' t'' accepted
              idle strange writable hphone refl early),
      )
