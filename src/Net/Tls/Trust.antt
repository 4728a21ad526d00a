-- ===== src/Net/Tls/Trust.antt =====
-- Whom the certificate check lets through.
use penguinsync.Base.{
  ℕ, ◌≡◌, ◌<◌, ◌↔◌, ◌⊎◌, refl, Bytes, true, false, ◌||◌, List, [], ◌∷◌, Option, none, some, arith,
  ite, ◌=?◌, bytes_key,
}
use penguinsync.Base.Map.{elem, lookup, lookup-insert, lookup-remove}
use penguinsync.Base.Result.{ok, err}
use penguinsync.Net.Tls.{
  TrustStore, new, insert_all, is_some, is_paired, pin, unpair, pairing_open, Crypto, check,
  device_id_of, verify_server_cert, verify_client_cert, unpinned_peer,
}
use penguinsync.Protocol.Hex.{short_fingerprint}

pub is_paired-pin :
    (t : TrustStore) (a b : Bytes) → is_paired (pin t a) b ≡ ite (a =? b) true (is_paired t b)
unfolding is_paired pin
is_paired-pin t a b = ground (arith, lookup-insert a b tt t.paired)

pub is_paired-unpair :
    (t : TrustStore) (a b : Bytes) → is_paired (unpair t a) b ≡ ite (a =? b) false (is_paired t b)
unfolding is_paired unpair
is_paired-unpair t a b = ground (arith, lookup-remove a b t.paired)

pub is_paired-lookup :
    (t : TrustStore) (id : Bytes) → is_paired t id ≡ true → lookup id t.paired ≡ some tt
unfolding is_paired
is_paired-lookup t id h = found (lookup id t.paired) h
  where
    found : (o : Option (Unit {0})) → is_some o ≡ true → o ≡ some tt
    found none e = absurd (cc)
    found (some u) e = refl

is_paired-insert_all :
    (ids : List Bytes) (t : TrustStore) (id : Bytes)
    → is_paired (record t { paired = insert_all ids t.paired }) id ≡ elem id ids || is_paired t id
unfolding insert_all elem pin
is_paired-insert_all [] t id = refl
is_paired-insert_all (x ∷ xs) t id =
    ground (arith, is_paired-insert_all xs (pin t x) id, is_paired-pin t x id)

pub is_paired-new : (ids : List Bytes) (id : Bytes) → is_paired (new ids) id ≡ elem id ids
unfolding new is_paired lookup
is_paired-new ids id =
    ground (arith, is_paired-insert_all ids (record { paired = []; pairing_deadline = none }) id)

-- The window is open: it has a deadline, and that has not come.
abbrev pub IsOpen : Option ℕ → ℕ → Type 0
IsOpen none now = ⊥
IsOpen (some deadline) now = now < deadline

module _ (crypto : Crypto) where
  open crypto use {Certificate}

  -- A certificate passes, as a server's or as a client's, exactly when its key can be read and is
  -- pinned or the pairing window is open.
  pub verify_iff :
      (t : TrustStore) (cert : Certificate) (now : ℕ)
      → ((verify_server_cert crypto t cert now ≡ ok tt) ↔ (
          (id : Bytes) × (device_id_of crypto cert ≡ ok id)
          × ((is_paired t id ≡ true) ⊎ IsOpen t.pairing_deadline now)))
        × (verify_client_cert crypto t cert now ≡ verify_server_cert crypto t cert now)
  unfolding verify_server_cert verify_client_cert check pairing_open
  verify_iff t cert now = ((λ h. ground arith, λ h. ground arith), refl)

  -- Unpairing takes effect at once: unless the pairing window is open, the next connection of that
  -- device is refused with its fingerprint; any other is let through or refused as before.
  check-unpair :
      (t : TrustStore) (a : Bytes) (cert : Certificate) (id : Bytes) (now : ℕ)
      → device_id_of crypto cert ≡ ok id
      → ¬ IsOpen t.pairing_deadline now
      → check crypto (unpair t a) cert now
        ≡ ite (a =? id) (err (unpinned_peer (short_fingerprint id))) (check crypto t cert now)
  unfolding check pairing_open unpair
  check-unpair t a cert id now e closed = ground (arith, is_paired-unpair t a id)
