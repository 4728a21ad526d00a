-- ===== src/Cli/Commands/Pairing.antt =====
-- What `pair` does in the human's name, and when it shows the code.
use penguinsync.Base.{
  ℕ, ◌≡◌, ◌≤◌, ◌<◌, ◌⊎◌, ◌↔◌, refl, Str, str, true, List, [], ◌∷◌, some, All, arith, bytes_key,
  Bool-cases, inl, inr, ltb, take, ◌++◌,
}
use penguinsync.Base.Result.{Result, ok, err, Result-cases}
use penguinsync.Base.Trim.{trim}
use penguinsync.Cli.Qr.{Rendered, render, widest, char_count, u16_max, to_u16}
use penguinsync.Cli.Tui.{
  PendingConfirmation, DaemonCall, start_pairing_call, confirm_pairing_call, unpair_call,
}
use penguinsync.Cli.Client.{ClientError, connect}
use penguinsync.Cli.Commands.{
  PairWorld, Heard, Outcome, timed_out, stream_ended, unreadable, request, lower, said_yes,
  answered, after_wait, run_pair, too_narrow, tries, code_lines, narrow_lines,
}

-- The human typed `y` or `yes`, in any case and with space around it.
abbrev IsYes : Str → Type 0
IsYes typed = (lower (trim typed) ≡ str "y") ⊎ (lower (trim typed) ≡ str "yes")

-- A call that `pair` may make: it answers for the device that asked, and accepts it exactly if the
-- human said so.
abbrev pub IsCareful : PairWorld → DaemonCall → Type 0
IsCareful p start_pairing_call = Unit
IsCareful p (confirm_pairing_call id accept) =
    (c : PendingConfirmation) × (p.heard ≡ request c)
    × (id ≡ c.device_id)
    × ((accept ≡ true) ↔ IsYes p.typed)
IsCareful p (unpair_call id) = ⊥

said_yes_iff : (typed : Str) → (said_yes typed ≡ true) ↔ IsYes typed
unfolding said_yes
said_yes_iff typed = (λ h. ground arith, λ h. ground arith)

-- What holds of the calls of both ends of a `?` holds of the whole.
tries-calls :
    {A : Type 0} (P : DaemonCall → Type 0) (r : Result ClientError A) (continue : A → Outcome)
    → ((a : A) → All P (continue a).calls)
    → All P (tries r continue).calls
tries-calls P (err e) continue h = tt
tries-calls P (ok a) continue h = h a

wait-IsCareful :
    (p : PairWorld) (heard : Heard) → p.heard ≡ heard → All (IsCareful p) (after_wait p heard).calls
unfolding after_wait answered
wait-IsCareful p timed_out e = tt
wait-IsCareful p stream_ended e = tt
wait-IsCareful p unreadable e = tt
wait-IsCareful p (request c) e =
    ((c, e, refl, said_yes_iff p.typed), tries-calls (IsCareful p) p.confirmed _ (λ _. tt))

-- The command asks for a code and at most answers for the device that then asked to pair; it accepts
-- that device exactly if the human typed `y` or `yes`, and unpairs nothing. So an empty line, the
-- end of the input, or a wait that ended accept nobody.
pub run_pair-IsCareful : (p : PairWorld) → All (IsCareful p) (run_pair p).calls
unfolding run_pair
run_pair-IsCareful p = tries-calls (IsCareful p) (connect p.bus) _ (λ _.
    tries-calls (IsCareful p) p.proxy _ (λ _. (
      tt,
      tries-calls (IsCareful p) p.started _
          (λ s. tries-calls (IsCareful p) p.subscribed _ (λ _. wait-IsCareful p p.heard refl)),
    )))

widest-bound :
    (lines : List Str) (cols : ℕ) → widest lines ≤ cols → All (λ l. char_count l ≤ cols) lines
unfolding widest
widest-bound [] cols h = tt
widest-bound (l ∷ rest) cols h = (omega arith, widest-bound rest cols (omega arith))

render-text :
    (qrcode : Str → Result Str (List Str)) (uri : Str) (qr : Rendered)
    → render qrcode uri ≡ ok qr
    → qr.width ≡ to_u16 (widest qr.text)
unfolding render
render-text qrcode uri qr h = elim (Result-cases (qrcode uri)) [
  | inl (e, failed) ↦ ground arith
  | inr (text, made) ↦ ground arith
]

-- On a terminal of fewer than 65535 columns, either the code is printed, and none of its lines is
-- wider than the terminal, or one is, and what is printed in its place ends with the URI.
code_lines-fit :
    (p : PairWorld) (uri : Str) (qr : Rendered) (cols : ℕ)
    → render p.qrcode uri ≡ ok qr
    → p.width ≡ some cols
    → cols < u16_max
    → ((code_lines p uri ≡ qr.text) × All (λ l. char_count l ≤ cols) qr.text)
      ⊎ ((cols < widest qr.text) × (front : List Str) × (code_lines p uri ≡ front ++ uri ∷ []))
unfolding code_lines too_narrow narrow_lines
code_lines-fit p uri qr cols rendered known small =
    let wide = render-text p.qrcode uri qr rendered in
    elim (Bool-cases (ltb cols qr.width)) [
      | inl narrow ↦ inr (ground arith, take 2 (code_lines p uri), ground arith)
      | inr fits ↦ inl (ground arith, widest-bound qr.text cols (ground arith))
    ]
