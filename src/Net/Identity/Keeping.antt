-- ===== src/Net/Identity/Keeping.antt =====
-- What is kept of an identity over starts of the program that may stop anywhere.
use penguinsync.Base.{
  ◌≡◌, ◌⊎◌, inl, inr, zero, suc, Bytes, Str, str, Bool, true, false, ◌&&◌, [], ◌∷◌, none, some,
  if◌then◌else◌, sym, subst, arith, ◌∙◌, take, Bool-cases, bytes_key,
}
use penguinsync.Base.Map.{lookup}
use penguinsync.Base.Result.{Result, ok, err, Result-cases}
use penguinsync.Base.Disk.Files.{read-written, lookup-written, lookup-set_owner_only, lookup-sealed}
use penguinsync.Base.Disk.{
  Disk, Cut, set_owner_only, attempt, read_to_string, exists, perform, tear, written,
}
use penguinsync.Net.Tls.{Crypto, device_id_of}
use penguinsync.Net.Identity.{
  cert_file, key_file, Rcgen, Identity, IdentityError, io, of_key, load, generate, save,
  load_or_generate,
}

files_differ : ¬ (key_file ≡ cert_file)
files_differ e = ground arith

module _ {crypto : Crypto} (rcgen : Rcgen crypto) where
  open rcgen use {KeyPair, serialize_pem}

  -- The key's file as a complete save leaves it.
  abbrev pub HasKey : Disk → KeyPair → Type 0
  HasKey d key =
      lookup key_file d ≡ some (record { content = serialize_pem key; owner_only = true })

  -- A certificate's file is there only beside a key's file that is whole and closed to others.
  abbrev pub IsSealed : Disk → Type 0
  IsSealed d = (lookup cert_file d ≡ none) ⊎ ((key : KeyPair) × HasKey d key)

  module _ (key : KeyPair) (pem : Bytes) (d : Disk) where
    abbrev sealed_disk : Disk
    sealed_disk = perform (set_owner_only key_file) (written key_file (serialize_pem key) d)

    HasKey-sealed : HasKey sealed_disk key
    HasKey-sealed = lookup-sealed key_file (serialize_pem key) d

    HasKey-saved : HasKey (written cert_file pem sealed_disk) key
    HasKey-saved =
        ground
          (arith, HasKey-sealed, lookup-written cert_file key_file pem sealed_disk, files_differ)

  key_write-cert :
      (part : Bytes) (d : Disk) → lookup cert_file (written key_file part d) ≡ lookup cert_file d
  key_write-cert part d = lookup-written key_file cert_file part d files_differ

  sealed-cert :
      (part : Bytes) (d : Disk)
      → lookup cert_file (perform (set_owner_only key_file) (written key_file part d))
        ≡ lookup cert_file d
  sealed-cert part d =
      lookup-set_owner_only key_file cert_file (written key_file part d) files_differ
      ∙ key_write-cert part d

  -- A save that finds no certificate leaves none, or one beside a key that is complete.
  save-IsSealed :
      (identity : Identity rcgen) (cut : Cut) (d : Disk)
      → lookup cert_file d ≡ none
      → IsSealed (save rcgen identity cut d).0
  unfolding save attempt perform tear
  save-IsSealed identity none d h =
      inr (identity.key_pair, HasKey-saved identity.key_pair (rcgen.cert_pem identity.cert) d)
  save-IsSealed identity (some (zero, none)) d h = inl h
  save-IsSealed identity (some (zero, some n)) d h = inl h
  save-IsSealed identity (some (suc zero, none)) d h = inl h
  save-IsSealed identity (some (suc zero, some n)) d h =
      inl (key_write-cert (take n (serialize_pem identity.key_pair)) d ∙ h)
  save-IsSealed identity (some (suc (suc zero), none)) d h =
      inl (key_write-cert (serialize_pem identity.key_pair) d ∙ h)
  save-IsSealed identity (some (suc (suc zero), some n)) d h =
      inl (key_write-cert (serialize_pem identity.key_pair) d ∙ h)
  save-IsSealed identity (some (suc (suc (suc zero)), none)) d h =
      inl (sealed-cert (serialize_pem identity.key_pair) d ∙ h)
  save-IsSealed identity (some (suc (suc (suc zero)), some n)) d h =
      inr (
        identity.key_pair,
        HasKey-saved identity.key_pair (take n (rcgen.cert_pem identity.cert)) d,
      )
  save-IsSealed identity (some (suc (suc (suc (suc n))), torn)) d h =
      inr (identity.key_pair, HasKey-saved identity.key_pair (rcgen.cert_pem identity.cert) d)

  module _ (fresh : Result Str KeyPair) (cut : Cut) (d : Disk) where
    -- The three ways of a start.
    abbrev pub present : Bool
    present = exists cert_file d && exists key_file d

    pub start-present : present ≡ true → load_or_generate rcgen fresh cut d ≡ (d, load rcgen d)
    unfolding load_or_generate
    start-present both = rw (both)

    pub start-failed :
        (e : IdentityError)
        → present ≡ false
        → generate rcgen fresh ≡ err e
        → load_or_generate rcgen fresh cut d ≡ (d, err e)
    unfolding load_or_generate
    start-failed e missing failed = rw (missing, failed)

    pub start-made :
        (identity : Identity rcgen)
        → present ≡ false
        → generate rcgen fresh ≡ ok identity
        → load_or_generate rcgen fresh cut d ≡ (
          (save rcgen identity cut d).0,
          if (save rcgen identity cut d).1 then ok identity else err io,
        )
    unfolding load_or_generate
    start-made identity missing made = rw (missing, made)

  missing-absent :
      (d : Disk)
      → IsSealed d
      → exists cert_file d && exists key_file d ≡ false
      → lookup cert_file d ≡ none
  unfolding exists
  missing-absent d (inl absent) missing = absent
  missing-absent d (inr (key, h)) missing = ground arith

  -- Every start keeps the two files in order, wherever it is cut off.
  pub load_or_generate-IsSealed :
      (fresh : Result Str KeyPair) (cut : Cut) (d : Disk)
      → IsSealed d
      → IsSealed (load_or_generate rcgen fresh cut d).0
  load_or_generate-IsSealed fresh cut d sealed = elim (Bool-cases (present fresh cut d)) [
    | inl both ↦ subst (λ r. IsSealed r.0) (sym (start-present fresh cut d both)) sealed
    | inr missing ↦ elim (Result-cases (generate rcgen fresh)) [
      | inl (e, failed) ↦
          subst (λ r. IsSealed r.0) (sym (start-failed fresh cut d e missing failed)) sealed
      | inr (identity, made) ↦
          subst (λ r. IsSealed r.0) (sym (start-made fresh cut d identity missing made))
            (save-IsSealed identity cut d (missing-absent d sealed missing))
    ]
  ]

  -- The identity of a key pair has that pair, and a certificate that shows its device id.
  pub of_key_lem :
      (key : KeyPair) (identity : Identity rcgen)
      → of_key rcgen key ≡ ok identity
      → (identity.key_pair ≡ key) × (device_id_of crypto identity.cert ≡ ok identity.device_id)
  unfolding of_key device_id_of
  of_key_lem key identity h = elim (Result-cases (rcgen.params_new (str "penguinsync" ∷ []))) [
    | inl (e, failed) ↦ ground arith
    | inr (params, made) ↦ elim (Result-cases (rcgen.self_signed params key)) [
      | inl (e, failed) ↦ ground arith
      | inr (cert, signed) ↦ ground (arith, rcgen.spki-self_signed params key cert signed)
    ]
  ]

  pub generate_lem :
      (fresh : Result Str KeyPair) (identity : Identity rcgen)
      → generate rcgen fresh ≡ ok identity
      → of_key rcgen identity.key_pair ≡ ok identity
  unfolding generate
  generate_lem (err e) identity h = ground arith
  generate_lem (ok key) identity h = ground (arith, of_key_lem key identity h)

  cert_written : (pem : Bytes) (d : Disk) → exists cert_file (written cert_file pem d) ≡ true
  unfolding exists read_to_string
  cert_written pem d = ground (arith, read-written cert_file cert_file pem d)

  pub save_done :
      (identity : Identity rcgen) (cut : Cut) (d : Disk)
      → (save rcgen identity cut d).1 ≡ true
      → HasKey (save rcgen identity cut d).0 identity.key_pair
        × (exists cert_file (save rcgen identity cut d).0 ≡ true)
  unfolding save attempt perform
  save_done identity none d h =
      let pem = rcgen.cert_pem identity.cert in
      (HasKey-saved identity.key_pair pem d, cert_written pem (sealed_disk identity.key_pair pem d))
  save_done identity (some (zero, torn)) d h = ground arith
  save_done identity (some (suc zero, torn)) d h = ground arith
  save_done identity (some (suc (suc zero), torn)) d h = ground arith
  save_done identity (some (suc (suc (suc zero)), torn)) d h = ground arith
  save_done identity (some (suc (suc (suc (suc n))), torn)) d h =
      let pem = rcgen.cert_pem identity.cert in
      (HasKey-saved identity.key_pair pem d, cert_written pem (sealed_disk identity.key_pair pem d))

  pub HasKey-load :
      (d : Disk) (key : KeyPair)
      → HasKey d key
      → (load rcgen d ≡ of_key rcgen key) × (exists key_file d ≡ true)
  unfolding load exists read_to_string
  HasKey-load d key h = (ground (arith, rcgen.from_pem-serialize_pem key), ground arith)
