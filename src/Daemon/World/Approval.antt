-- ===== src/Daemon/World/Approval.antt =====
-- A device is paired only by a human's word.
use penguinsync.Base.{
  ℕ, ◌<◌, ◌≡◌, ◌⊎◌, inl, inr, refl, Bytes, Bool, true, false, List, [], ◌∷◌, Option, none, some,
  arith, subst, sym, ap, ◌∙◌, bytes_key, ◌==◌, if◌then◌else◌,
}
use penguinsync.Base.Map.{Map, lookup, remove, lookup-insert, lookup-remove}
use penguinsync.Protocol.Hex.{from_hex}
use penguinsync.Net.Tls.{is_paired}
use penguinsync.Net.Tls.Trust.{is_paired-lookup}
use penguinsync.Daemon.Shared.{Shared, ListenerEvent, Waiting}
use penguinsync.Daemon.Dbus.{answer}
use penguinsync.Daemon.World.{Input, confirm, step, run}
use penguinsync.Daemon.World.Core.{
  Core, core, IsAsked, settled, resolved, forgotten, saved, pinned, unpinned,
}
use penguinsync.Daemon.World.Moves.{
  Move, stays, hears, takes, asks, settles, answers, forgets, step-Move,
}

-- The channel waited on is known under no other device id.
abbrev pub IsLinkedTo : Option Waiting → Map Bytes ℕ → Type 0
IsLinkedTo none pending = Unit
IsLinkedTo (some w) pending = (id : Bytes) → lookup id pending ≡ some w.channel → id ≡ w.device_id

pub record IsLinked (c : Core) : Type 0 where
  pub fresh : (id : Bytes) (ch : ℕ) → lookup id c.pending ≡ some ch → ch < c.next_channel
  pub linked : IsLinkedTo c.waiting c.pending

remove-less :
    (a id : Bytes) (ch : ℕ) (m : Map Bytes ℕ)
    → lookup id (remove a m) ≡ some ch
    → lookup id m ≡ some ch
remove-less a id ch m h = ground (arith, lookup-remove a id m)

answer-IsLinkedTo :
    (o : Option Waiting) (a : Bytes) (ch : ℕ) (accept : Bool) (m : Map Bytes ℕ)
    → IsLinkedTo o m
    → IsLinkedTo (answer o ch accept) (remove a m)
unfolding answer
answer-IsLinkedTo none a ch accept m h = tt
answer-IsLinkedTo (some w) a ch accept m h = by_channel (w.channel == ch)
  where
    by_channel :
        (b : Bool)
        → IsLinkedTo (if b then some (record w { answer = some accept }) else some w) (remove a m)
    by_channel true = λ id e. h id (remove-less a id w.channel m e)
    by_channel false = λ id e. h id (remove-less a id w.channel m e)

pub resolved-IsLinked :
    (c : Core) (id : Bytes) (accept : Bool) → IsLinked c → IsLinked (resolved c id accept)
resolved-IsLinked c id accept h = by_channel (lookup id c.pending)
  where
    by_channel :
        (o : Option ℕ)
        → IsLinked (elim o [
          | none ↦ c
          | some channel ↦ record c {
            pending = remove id c.pending;
            waiting = answer c.waiting channel accept;
          }
        ])
    by_channel none = h
    by_channel (some ch) = record {
      fresh = λ a n e. h.fresh a n (remove-less id a n c.pending e);
      linked = answer-IsLinkedTo c.waiting id ch accept c.pending h.linked;
    }

saved-IsLinked : (c : Core) → IsLinked c → IsLinked (saved c)
saved-IsLinked c h = by_disk c.disk_writable
  where
    by_disk : (b : Bool) → IsLinked (if b then record c { disk = c.state } else c)
    by_disk true = record { fresh = h.fresh; linked = h.linked }
    by_disk false = h

settled-IsLinked :
    (c : Core) (w : Waiting) (accept : Bool) → IsLinked c → IsLinked (settled c w accept)
settled-IsLinked c w false h = record { fresh = h.fresh; linked = tt }
settled-IsLinked c w true h = saved-IsLinked (pinned c w) (record { fresh = h.fresh; linked = tt })

asked-IsLinked : (c c' : Core) (e : ListenerEvent) → IsLinked c → IsAsked c e c' → IsLinked c'
asked-IsLinked c c' e h (w, ch, _, _, eq) = rw eq (record {
  fresh =
      λ a n l. ground (arith, lookup-insert w.device_id a c.next_channel c.pending, h.fresh a n);
  linked = λ a l.
      ground
        (arith, lookup-insert w.device_id a c.next_channel c.pending, h.fresh a c.next_channel);
})

Move-IsLinked : (c c' : Core) (i : Input) → Move c i c' → IsLinked c → IsLinked c'
Move-IsLinked c c' i (stays e) h = rw e h
Move-IsLinked c c' i (hears ev hi e) h = rw e (record { fresh = h.fresh; linked = h.linked })
Move-IsLinked c c' i (takes ev rest hq e) h = rw e (record { fresh = h.fresh; linked = h.linked })
Move-IsLinked c c' i (asks e rest hq asked) h =
    asked-IsLinked (record c { inbox = rest }) c' e (record { fresh = h.fresh; linked = h.linked })
      asked
Move-IsLinked c c' i (settles w accept hw ha e) h = rw e (settled-IsLinked c w accept h)
Move-IsLinked c c' i (answers hex accept id hi hid e) h = rw e (resolved-IsLinked c id accept h)
Move-IsLinked c c' i (forgets hex id hi hid e) h =
    rw e (saved-IsLinked (unpinned c id) (record { fresh = h.fresh; linked = h.linked }))

-- The device is paired, or its confirmation has come.
abbrev pub IsAnswered : Bytes → Option Waiting → Type 0
IsAnswered id none = ⊥
IsAnswered id (some w) = (w.answer ≡ some true) × (w.device_id ≡ id)

abbrev pub IsGranted : Bytes → Core → Type 0
IsGranted id c = (lookup id c.paired ≡ some tt) ⊎ IsAnswered id c.waiting

-- The input accepts this device.
abbrev pub IsAcceptance : Bytes → Input → Type 0
IsAcceptance id (confirm device_id true) = from_hex device_id ≡ some id
IsAcceptance id _ = ⊥

settled-IsGranted :
    (id : Bytes) (c : Core) (w : Waiting) (accept : Bool)
    → c.waiting ≡ some w
    → (accept ≡ true → w.answer ≡ some true)
    → IsGranted id (settled c w accept)
    → IsGranted id c
settled-IsGranted id c w false hw ha (inl g) = inl g
settled-IsGranted id c w false hw ha (inr none_left) = elim none_left [ ]
settled-IsGranted id c w true hw ha g =
    ground (arith, lookup-insert w.device_id id tt c.paired, ha refl)

answer-IsAnswered :
    (id a : Bytes) (ch : ℕ) (accept : Bool) (o : Option Waiting) (m : Map Bytes ℕ)
    → IsLinkedTo o m
    → lookup a m ≡ some ch
    → IsAnswered id (answer o ch accept)
    → IsAnswered id o ⊎ ((accept ≡ true) × (a ≡ id))
unfolding answer
answer-IsAnswered id a ch accept none m h e g = inl g
answer-IsAnswered id a ch accept (some w) m h e g = ground (arith, h a)

pub answered-IsGranted :
    (id a : Bytes) (c : Core) (accept : Bool)
    → IsLinked c
    → IsGranted id (resolved c a accept)
    → IsGranted id c ⊎ ((accept ≡ true) × (a ≡ id))
answered-IsGranted id a c accept h g = by_channel (lookup a c.pending) refl g
  where
    by_channel :
        (o : Option ℕ)
        → lookup a c.pending ≡ o
        → IsGranted id (elim o [
          | none ↦ c
          | some channel ↦ record c {
            pending = remove a c.pending;
            waiting = answer c.waiting channel accept;
          }
        ])
        → IsGranted id c ⊎ ((accept ≡ true) × (a ≡ id))
    by_channel none e g = inl g
    by_channel (some ch) e (inl p) = inl (inl p)
    by_channel (some ch) e (inr p) =
        elim (answer-IsAnswered id a ch accept c.waiting c.pending h.linked e p) [
          | inl before ↦ inl (inr before)
          | inr now ↦ inr now
        ]

forgotten-IsGranted : (id a : Bytes) (c : Core) → IsGranted id (forgotten c a) → IsGranted id c
forgotten-IsGranted id a c g = ground (arith, lookup-remove a id c.paired)

Move-IsGranted :
    (id : Bytes) (c c' : Core) (i : Input)
    → IsLinked c
    → Move c i c'
    → IsGranted id c'
    → IsGranted id c ⊎ IsAcceptance id i
Move-IsGranted id c c' i h (stays e) g = inl (rw (← e) g)
Move-IsGranted id c c' i h (hears ev hi e) g = inl (subst (IsGranted id) e g)
Move-IsGranted id c c' i h (takes ev rest hq e) g = inl (subst (IsGranted id) e g)
Move-IsGranted id c c' i h (asks e rest hq (w, ch, na, cl, eq)) g =
    ground (arith, subst (IsGranted id) eq g)
Move-IsGranted id c c' i h (settles w accept hw ha e) g =
    inl (settled-IsGranted id c w accept hw ha (subst (IsGranted id) e g))
Move-IsGranted id c c' i h (answers hex accept a hi hid e) g =
    elim (answered-IsGranted id a c accept h (subst (IsGranted id) e g)) [
      | inl before ↦ inl before
      | inr (yes_said, same) ↦ inr (
          subst (IsAcceptance id) (sym hi)
            (subst (λ b. IsAcceptance id (confirm hex b)) (sym yes_said) (hid ∙ ap some same)))
    ]
Move-IsGranted id c c' i h (forgets hex a hi hid e) g =
    inl (forgotten-IsGranted id a c (subst (IsGranted id) e g))

-- Some input accepts this device.
abbrev pub IsAccepted : Bytes → List Input → Type 0
IsAccepted id [] = ⊥
IsAccepted id (i ∷ rest) = IsAcceptance id i ⊎ IsAccepted id rest

run-IsGranted :
    (blake3 : Bytes → Bytes) (id : Bytes) (s : Shared) (inputs : List Input)
    → IsLinked (core s)
    → IsGranted id (core (run blake3 s inputs))
    → IsGranted id (core s) ⊎ IsAccepted id inputs
unfolding run
run-IsGranted blake3 id s [] h g = inl g
run-IsGranted blake3 id s (i ∷ rest) h g =
    let s' = step blake3 s i in
    let move = step-Move blake3 s i in
    elim (run-IsGranted blake3 id s' rest (Move-IsLinked (core s) (core s') i move h) g) [
      | inr later ↦ inr (inr later)
      | inl now ↦ elim (Move-IsGranted id (core s) (core s') i h move now) [
        | inl before ↦ inl before
        | inr accepted ↦ inr (inl accepted)
      ]
    ]

lookup-empty : (a : Bytes) (ch : ℕ) → ¬ (lookup {V = ℕ} a [] ≡ some ch)
unfolding lookup
lookup-empty a ch e = cc

pub empty-IsLinked : (c : Core) → c.waiting ≡ none → c.pending ≡ [] → IsLinked c
empty-IsLinked c hw hp = record {
  fresh = λ a ch e. absurd (lookup-empty a ch (subst (λ m. lookup a m ≡ some ch) hp e));
  linked = subst (λ o. IsLinkedTo o c.pending) (sym hw) tt;
}

-- However the daemon's inputs follow each other, a device that is paired at the end and was not at a
-- start at which no confirmation was pending has been accepted by a human: one of the inputs is
-- `confirm_pairing` with its id in hexadecimal and `true`.
run-approved :
    (blake3 : Bytes → Bytes) (id : Bytes) (s : Shared) (inputs : List Input)
    → s.waiting ≡ none
    → s.pending_confirmations ≡ []
    → is_paired s.trust id ≡ false
    → is_paired (run blake3 s inputs).trust id ≡ true
    → IsAccepted id inputs
unfolding is_paired
run-approved blake3 id s inputs hw hp h0 h1 =
    elim (run-IsGranted blake3 id s inputs (empty-IsLinked (core s) hw hp)
      (inl (is_paired-lookup (run blake3 s inputs).trust id h1))) [
        | inl before ↦ ground (arith, hw)
        | inr accepted ↦ accepted
      ]
