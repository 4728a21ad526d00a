-- ===== src/Net/Identity/Untouched.antt =====
-- The files beside the identity's: no start touches them.
use penguinsync.Base.{◌≡◌, ap, ◌∙◌, inl, inr, Str, Bool-cases, bytes_key}
use penguinsync.Base.Map.{lookup}
use penguinsync.Base.Result.{Result, Result-cases}
use penguinsync.Base.Disk.{Disk, Cut}
use penguinsync.Base.Disk.Files.{attempt-other}
use penguinsync.Net.Tls.{Crypto}
use penguinsync.Net.Identity.{
  cert_file, key_file, Rcgen, Identity, saving, generate, save, load_or_generate,
}
use penguinsync.Net.Identity.Keeping.{present, start-present, start-failed, start-made}

module _ {crypto : Crypto} (rcgen : Rcgen crypto) where
  open rcgen use {KeyPair}

  save-other :
      (identity : Identity rcgen) (cut : Cut) (d : Disk) (path : Str)
      → ¬ (key_file ≡ path)
      → ¬ (cert_file ≡ path)
      → lookup path (save rcgen identity cut d).0 ≡ lookup path d
  unfolding save
  save-other identity cut d path no_key no_cert =
      attempt-other cut (saving rcgen identity) d path (tt, (no_key, (no_key, (no_cert, tt))))

  -- A start leaves every other file as it is.
  pub load_or_generate-other :
      (fresh : Result Str KeyPair) (cut : Cut) (d : Disk) (path : Str)
      → ¬ (key_file ≡ path)
      → ¬ (cert_file ≡ path)
      → lookup path (load_or_generate rcgen fresh cut d).0 ≡ lookup path d
  load_or_generate-other fresh cut d path no_key no_cert =
      elim (Bool-cases (present rcgen fresh cut d)) [
        | inl both ↦ ap (λ r. lookup path r.0) (start-present rcgen fresh cut d both)
        | inr missing ↦ elim (Result-cases (generate rcgen fresh)) [
          | inl (e, failed) ↦
              ap (λ r. lookup path r.0) (start-failed rcgen fresh cut d e missing failed)
          | inr (identity, made) ↦
              ap (λ r. lookup path r.0) (start-made rcgen fresh cut d identity missing made)
              ∙ save-other identity cut d path no_key no_cert
        ]
      ]
