-- ===== src/Net/Transport.antt =====
-- The streams of the `quinn` crate: reliable and ordered. `sent` is what has been handed to a send
-- stream so far, `incoming` what a receive stream will still deliver before it ends.
use penguinsync.Base.{ℕ, ◌≤◌, ◌<◌, ◌≡◌, ◌++◌, Bytes, length, take, drop}
use penguinsync.Base.Result.{Result, ok, err}

pub record Quic : Type 1 where
  pub SendStream : Type 0
  pub RecvStream : Type 0
  pub WriteError : Type 0
  pub ReadError : Type 0
  pub write_all : SendStream → Bytes → Result WriteError SendStream
  pub read_exact : RecvStream → ℕ → Result ReadError (Bytes × RecvStream)
  -- The stream behind a read that was dropped after it had taken some bytes: they are lost.
  pub abandon : RecvStream → ℕ → RecvStream
  pub sent : SendStream → Bytes
  pub incoming : RecvStream → Bytes
  pub sent-write_all :
      (s s' : SendStream) (bs : Bytes) → write_all s bs ≡ ok s' → sent s' ≡ sent s ++ bs
  pub read_exact-incoming :
      (r : RecvStream) (n : ℕ)
      → n ≤ length (incoming r)
      → (r' : RecvStream) × (read_exact r n ≡ ok (take n (incoming r), r'))
        × (incoming r' ≡ drop n (incoming r))
  pub read_exact-short :
      (r : RecvStream) (n : ℕ)
      → length (incoming r) < n
      → (e : ReadError) × (read_exact r n ≡ err e)
  pub incoming-abandon : (r : RecvStream) (n : ℕ) → incoming (abandon r n) ≡ drop n (incoming r)
