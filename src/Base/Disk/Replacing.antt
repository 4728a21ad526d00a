-- ===== src/Base/Disk/Replacing.antt =====
-- A file replaced through a temporary one, as both owners of persistent state do it, with the JSON
-- coder of `serde_json`.
use penguinsync.Base.{
  zero, suc, take, Bool, ◌≡◌, refl, Bytes, Str, str, List, [], ◌∷◌, Option, none, some, arith,
  bytes_key, if◌then◌else◌, Bool-cases, inl, inr, false,
}
use penguinsync.Base.Disk.Names.{with_extension-differs}
use penguinsync.Base.Disk.Files.{read-written, read-rename}
use penguinsync.Base.Disk.{
  Disk, Cut, Action, create_dir_all, write, rename, attempt, tear, perform, written, dots,
  with_extension, read_to_string,
}

-- A value is written as text or refused, and what was written is read back; a text that is not one
-- is malformed.
pub record Json (Value : Type 0) : Type 0 where
  pub to_vec_pretty : Value → Option Bytes
  pub from_str : Bytes → Option Value
  pub from_str-to_vec :
      (v : Value) (text : Bytes) → to_vec_pretty v ≡ some text → from_str text ≡ some v

abbrev tmp_of : Str → Str
tmp_of path = with_extension path (str "json.tmp")

-- The temporary file's name is never the file's own.
tmp_of-differs : (path : Str) → ¬ (tmp_of path ≡ path)
unfolding dots
tmp_of-differs path = with_extension-differs path (str "json.tmp") (omega arith)

abbrev replace : Str → Bytes → List Action
replace path text = create_dir_all ∷ write (tmp_of path) text ∷ rename (tmp_of path) path ∷ []

module _ (path : Str) (text : Bytes) (d : Disk) where
  read-torn :
      (part : Bytes) → read_to_string path (written (tmp_of path) part d) ≡ read_to_string path d
  read-torn part = ground (arith, read-written (tmp_of path) path part d, tmp_of-differs path)

  read-replaced :
      read_to_string path (perform (rename (tmp_of path) path) (written (tmp_of path) text d))
      ≡ some text
  read-replaced = ground (
    arith,
    read-written (tmp_of path) (tmp_of path) text d,
    read-rename (tmp_of path) path path (written (tmp_of path) text d) text,
    tmp_of-differs path,
  )

  -- Wherever it is cut off, the file holds the old text, and the new one once all is done.
  read-replace :
      (cut : Cut)
      → let after = attempt cut (replace path text) d in
        read_to_string path after.0 ≡ (if after.1 then some text else read_to_string path d)
  unfolding attempt perform tear
  read-replace none = read-replaced
  read-replace (some (zero, none)) = refl
  read-replace (some (zero, some n)) = refl
  read-replace (some (suc zero, none)) = refl
  read-replace (some (suc zero, some n)) = read-torn (take n text)
  read-replace (some (suc (suc zero), none)) = read-torn text
  read-replace (some (suc (suc zero), some n)) = read-torn text
  read-replace (some (suc (suc (suc n)), torn)) = read-replaced

-- The directory is created before the text is made, so a value that has no text leaves that much.
unfoldable pub store : Str → Option Bytes → Cut → Disk → Disk × Bool
store path none cut d = ((attempt cut (create_dir_all ∷ []) d).0, false)
store path (some text) cut d = attempt cut (replace path text) d

unfoldable pub fetch : {Value : Type 0} → Json Value → Value → Str → Disk → Value
fetch json default path d = elim (read_to_string path d) [
  | none ↦ default
  | some text ↦ elim (json.from_str text) [ none ↦ default | some value ↦ value ]
]

module _ {Value : Type 0} (json : Json Value) (default : Value) (path : Str) (v : Value) where
  stored :
      (text : Option Bytes) (cut : Cut) (d : Disk)
      → json.to_vec_pretty v ≡ text
      → let after = store path text cut d in
        fetch json default path after.0 ≡ (if after.1 then v else fetch json default path d)
  unfolding store fetch attempt perform tear
  stored none none d h = refl
  stored none (some (zero, none)) d h = refl
  stored none (some (zero, some n)) d h = refl
  stored none (some (suc n, torn)) d h = refl
  stored (some text) cut d h =
      let after = attempt cut (replace path text) d in
      let seen = read-replace path text d cut in
      elim (Bool-cases after.1) [
        | inl done ↦ ground (arith, json.from_str-to_vec v text h)
        | inr failed ↦ ground arith
      ]

  -- What is fetched after a store that was cut off, or was not.
  pub fetch-store :
      (cut : Cut) (d : Disk)
      → let after = store path (json.to_vec_pretty v) cut d in
        fetch json default path after.0 ≡ (if after.1 then v else fetch json default path d)
  fetch-store cut d = stored (json.to_vec_pretty v) cut d refl
