-- ===== src/Protocol/Clip.antt =====
-- crates/protocol/src/clipboard.rs: clipboard content, its size cap and its type.
use penguinsync.Base.{
  ℕ, ◌≤◌, ◌*◌, ◌≡◌, ◌↔◌, Bytes, Str, str, length, arith, ltb, if◌then◌else◌, ite, ◌=?◌, bytes_key,
}
use penguinsync.Base.Result.{Result, ok, err}

abbrev pub max_content_len : ℕ
max_content_len = 100 * 1024

abbrev pub mime_text_plain : Str
mime_text_plain = str "text/plain"

pub record Clip : Type 0 where
  pub mime : Str
  pub content : Bytes
  pub hash : Bytes

pub data ClipError : Type 0 where
  too_large : ℕ → ClipError
  unsupported_mime : Str → ClipError

-- `blake3::hash` is a parameter.
unfoldable pub new : (Bytes → Bytes) → Str → Bytes → Result ClipError Clip
new blake3 mime content =
    ite (mime =? mime_text_plain)
      (if ltb max_content_len (length content)
        then err (too_large (length content))
        else ok (record { mime = mime; content = content; hash = blake3 content }))
      (err (unsupported_mime mime))

-- What a clip that went through the constructor looks like.
pub record IsValid (blake3 : Bytes → Bytes) (c : Clip) : Type 0 where
  pub plain : c.mime ≡ mime_text_plain
  pub small : length c.content ≤ max_content_len
  pub hashed : c.hash ≡ blake3 c.content

-- The constructor succeeds exactly on plain text within the cap, with the hash of the content.
pub new_iff :
    (blake3 : Bytes → Bytes) (mime content : Bytes) (c : Clip)
    → (new blake3 mime content ≡ ok c)
      ↔ (IsValid blake3 c × (c.mime ≡ mime) × (c.content ≡ content))
unfolding new
new_iff blake3 mime content c = (λ e. ground arith, λ v. ground arith)
