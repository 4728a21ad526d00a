-- ===== src/Net/Identity/Starts.antt =====
-- An identity over any number of starts of the program.
use penguinsync.Base.{
  ℕ, ◌≡◌, inl, inr, Str, true, false, List, [], ◌∷◌, none, arith, Bool-cases, ap, sym, ◌∙◌, refl,
  subst,
}
use penguinsync.Base.Map.{lookup}
use penguinsync.Base.Result.{Result, ok, err, Result-cases}
use penguinsync.Base.Disk.{Disk, Cut, attempt, exists}
use penguinsync.Net.Tls.{Crypto, TrustStore, device_id_of, check, pin}
use penguinsync.Net.Tls.Trust.{is_paired-pin}
use penguinsync.Net.Identity.{
  Rcgen, Identity, IdentityError, of_key, generate, load, save, load_or_generate,
}
use penguinsync.Net.Identity.Keeping.{
  HasKey, IsSealed, present, start-present, start-failed, start-made, load_or_generate-IsSealed,
  of_key_lem, generate_lem, save_done, HasKey-load,
}

module _ {crypto : Crypto} (rcgen : Rcgen crypto) where
  open rcgen use {KeyPair}

  made-again :
      (fresh fresh' : Result Str KeyPair) (cut cut' : Cut) (d : Disk) (identity : Identity rcgen)
      → generate rcgen fresh ≡ ok identity
      → (save rcgen identity cut d).1 ≡ true
      → load_or_generate rcgen fresh' cut' (save rcgen identity cut d).0
        ≡ ((save rcgen identity cut d).0, ok identity)
  made-again fresh fresh' cut cut' d identity made done =
      let d' = (save rcgen identity cut d).0 in
      let (key, cert) = save_done rcgen identity cut d done in
      let (loads, there) = HasKey-load rcgen d' identity.key_pair key in
      start-present rcgen fresh' cut' d' (rw (cert, there))
      ∙ ap (λ r. (d', r)) (loads ∙ generate_lem rcgen fresh identity made)

  -- Once a start has given an identity, every later start gives the same one and leaves the disk as
  -- it is, whatever key pair would be generated for it and wherever it would be cut off.
  pub load_or_generate-again :
      (fresh fresh' : Result Str KeyPair) (cut cut' : Cut) (d : Disk) (identity : Identity rcgen)
      → (load_or_generate rcgen fresh cut d).1 ≡ ok identity
      → let d' = (load_or_generate rcgen fresh cut d).0 in
        load_or_generate rcgen fresh' cut' d' ≡ (d', ok identity)
  load_or_generate-again fresh fresh' cut cut' d identity h =
      elim (Bool-cases (present rcgen fresh cut d)) [
        | inl both ↦
            let same = start-present rcgen fresh cut d both in
            subst Again (sym same) (
              start-present rcgen fresh' cut' d both
              ∙ ap (λ r. (d, r)) (sym (ap (λ r. r.1) same) ∙ h))
        | inr missing ↦ elim (Result-cases (generate rcgen fresh)) [
          | inl (e, failed) ↦
              absurd (cc (h, ap (λ r. r.1) (start-failed rcgen fresh cut d e missing failed)))
          | inr (made, is_made) ↦
              let same = start-made rcgen fresh cut d made missing is_made in
              let answer = sym (ap (λ r. r.1) same) ∙ h in
              elim (Bool-cases (save rcgen made cut d).1) [
                | inl done ↦ subst Again (sym same) (
                    made-again fresh fresh' cut cut' d made is_made done
                    ∙ ap (λ r. ((save rcgen made cut d).0, r)) (ground arith))
                | inr broken ↦ absurd (ground arith)
              ]
        ]
      ]
    where
      Again : Disk × Result IdentityError (Identity rcgen) → Type 0
      Again r = load_or_generate rcgen fresh' cut' r.0 ≡ (r.0, ok identity)

  -- Starts one after the other, each with the key pair that would be generated and its cut.
  unfoldable pub starts : List (Result Str KeyPair × Cut) → Disk → Disk
  starts [] d = d
  starts ((fresh, cut) ∷ rest) d = starts rest (load_or_generate rcgen fresh cut d).0

  starts-IsSealed :
      (before : List (Result Str KeyPair × Cut)) (d : Disk)
      → IsSealed rcgen d
      → IsSealed rcgen (starts before d)
  unfolding starts
  starts-IsSealed [] d h = h
  starts-IsSealed ((fresh, cut) ∷ rest) d h =
      starts-IsSealed rest (load_or_generate rcgen fresh cut d).0
        (load_or_generate-IsSealed rcgen fresh cut d h)

  -- What a start gives at last: an identity that is kept.
  abbrev Recovered : Disk × Result IdentityError (Identity rcgen) → Type 0
  Recovered r =
      (identity : Identity rcgen) × (r.1 ≡ ok identity)
      × (device_id_of crypto identity.cert ≡ ok identity.device_id)
      × HasKey rcgen r.0 identity.key_pair

  abbrev IsCertified : KeyPair → Type 0
  IsCertified k = (identity : Identity rcgen) × (of_key rcgen k ≡ ok identity)

  present-Recovered :
      (d : Disk)
      → present rcgen (err []) none d ≡ true
      → IsSealed rcgen d
      → ((k : KeyPair) → IsCertified k)
      → Recovered (d, load rcgen d)
  unfolding exists
  present-Recovered d both (inl absent) certified = absurd (ground arith)
  present-Recovered d both (inr (k, h)) certified =
      let (identity, made) = certified k in
      let (same, shown) = of_key_lem rcgen k identity made in
      (identity, (HasKey-load rcgen d k h).0 ∙ made, shown, subst (HasKey rcgen d) (sym same) h)

  made-Recovered :
      (key : KeyPair) (d : Disk)
      → present rcgen (ok key) none d ≡ false
      → IsCertified key
      → Recovered (load_or_generate rcgen (ok key) none d)
  unfolding generate save attempt
  made-Recovered key d missing (identity, made) =
      subst Recovered (sym (start-made rcgen (ok key) none d identity missing made)) (
        identity,
        refl,
        (of_key_lem rcgen key identity made).1,
        (save_done rcgen identity none d refl).0,
      )

  -- From an empty directory, whatever starts were cut off before and wherever, the next start that
  -- is not cut off gives an identity, if key pairs have certificates and one can be generated. Its
  -- certificate shows its device id, its key's file is whole and closed to others, and a peer that
  -- pinned the device id lets it in at any time.
  pub starts_recover :
      (before : List (Result Str KeyPair × Cut)) (key : KeyPair) (t : TrustStore) (now : ℕ)
      → ((k : KeyPair) → (identity : Identity rcgen) × (of_key rcgen k ≡ ok identity))
      → (identity : Identity rcgen) × ((load_or_generate rcgen (ok key) none (starts before [])).1
          ≡ ok identity)
        × (check crypto (pin t identity.device_id) identity.cert now ≡ ok tt)
        × HasKey rcgen (load_or_generate rcgen (ok key) none (starts before [])).0 identity.key_pair
  unfolding check pin lookup
  starts_recover before key t now certified =
      let d = starts before [] in
      let sealed = starts-IsSealed before [] (inl refl) in
      let recovered : Recovered (load_or_generate rcgen (ok key) none d) =
        elim (Bool-cases (present rcgen (ok key) none d)) [
          | inl both ↦
              subst Recovered (sym (start-present rcgen (ok key) none d both))
                (present-Recovered d both sealed certified)
          | inr missing ↦ made-Recovered key d missing (certified key)
        ] in
      let (identity, given, shown, kept) = recovered in
      (identity, given, ground (arith, is_paired-pin t identity.device_id identity.device_id), kept)
