-- ===== src/Tests/Clipboards.antt =====
-- Runs of the desktop's clipboard.
use penguinsync.Base.{
  ℕ, ◌≡◌, ap, refl, Bytes, Str, str, true, false, [], ◌∷◌, none, some, arith, bytes_key,
  bytes_discrete, ℕ_discrete,
}
use penguinsync.Base.Map.{lookup}
use penguinsync.Base.Utf8.{is_utf8, utf8_from}
use penguinsync.Base.Result.{Result, ok, err}
use penguinsync.Net.Tls.{is_paired}
use penguinsync.Net.Clipboard.{not_available, other}
use penguinsync.Daemon.Clipboard.{handle_received}
use penguinsync.Daemon.Clipboard.Extension.{Shell, HasMark, set_text, write_selection}
use penguinsync.Daemon.Clipboard.Gnome.{probe, read, write, backend, watch_and_broadcast}
use penguinsync.Daemon.Clipboard.Written.{written-no_echo}
use penguinsync.Tests.Protocol.{phone_id, a_clip}
use penguinsync.Tests.Daemon.{paired_daemon}

given_back :
    (bytes x : Bytes)
    → Path (Result Str Bytes) (ok bytes) (ok x)
    → Path (Result Str Bytes) (ok x) (ok bytes)
given_back bytes x e = cc

-- A desktop whose clipboard has one text, and a decoder that leaves texts as they are.
abbrev plain_shell : Shell
plain_shell = record {
  State = Bytes;
  transfer = λ mime x. ok x;
  set_owner = λ mime bytes x. ok bytes;
  decode = λ bytes. bytes;
  transfer-set_owner = λ mime bytes x x' e. given_back bytes x' e;
  decode-is_utf8 = λ bytes valid plain. refl;
}

abbrev first_byte : Bytes → ℕ
first_byte [] = 0
first_byte (b ∷ rest) = b

hello_unmarked : ¬ HasMark (str "hello")
hello_unmarked (rest, e) = let h : Path ℕ 104 239 = ap first_byte e in absurd (omega arith)

written-no_echo_example :
    watch_and_broadcast
      (λ bs. bs)
      (backend plain_shell
        (str "invalid")
        (some ((true, str "hello") ∷ (true, str "hello") ∷ (false, str "hello") ∷ [])))
      (handle_received paired_daemon phone_id a_clip)
    ≡ handle_received paired_daemon phone_id a_clip
unfolding is_paired lookup bytes_discrete ℕ_discrete backend write set_text write_selection is_utf8
    utf8_from
written-no_echo_example =
    written-no_echo plain_shell (λ bs. bs) paired_daemon phone_id a_clip (str "invalid") []
      (str "hello") ((true, str "hello") ∷ (true, str "hello") ∷ (false, str "hello") ∷ []) refl
      (record { plain = refl; small = omega arith; hashed = refl }) hello_unmarked refl
      (refl, (refl, (refl, tt)))

write_refuses :
    write plain_shell (str "invalid") (str "text/plain") (255 ∷ []) [] ≡ err (other (str "invalid"))
unfolding write set_text write_selection is_utf8 utf8_from bytes_discrete ℕ_discrete
write_refuses = refl

read_refuses : read plain_shell (str "image/png") [] ≡ err not_available
unfolding read bytes_discrete ℕ_discrete
read_refuses = refl

probe_unowned : probe (some tt) (some false) (some tt) ≡ none
unfolding probe
probe_unowned = refl
