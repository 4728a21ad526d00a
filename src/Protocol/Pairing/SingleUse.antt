-- ===== src/Protocol/Pairing/SingleUse.antt =====
-- Who can redeem a pairing token, and how often.
use penguinsync.Base.{◌<◌, ◌≡◌, refl, ◌↔◌, ◌⊎◌, inl, Bytes, true, false, List, [], ◌∷◌, arith}
use penguinsync.Base.Result.{ok, err}
use penguinsync.Base.Time.{Instant, duration_since}
use penguinsync.Protocol.Pairing.{PairingToken, RedeemError, issue, redeem, token_ttl}

-- An attempt succeeds exactly when the token is unused, less than its lifetime old, and presented
-- byte for byte; a failed attempt leaves it as it was.
redeem_iff :
    (t : PairingToken) (presented : Bytes) (now : Instant)
    → ((redeem t presented now).1 ≡ ok tt ↔ (
        (t.redeemed ≡ false)
        × (duration_since now t.issued_at < token_ttl)
        × (presented ≡ t.bytes)))
      × ((e : RedeemError) → (redeem t presented now).1 ≡ err e → (redeem t presented now).0 ≡ t)
unfolding redeem
redeem_iff t presented now = ((λ h. ground arith, λ h. ground arith), λ e h. ground arith)

pub record Attempt : Type 0 where
  pub presented : Bytes
  pub at : Instant

-- The successful attempts of a sequence, each made on the token that the one before left.
unfoldable pub successes : PairingToken → List Attempt → List Attempt
successes t [] = []
successes t (a ∷ rest) =
    let (t', r) = redeem t a.presented a.at in
    let later = successes t' rest in elim r [ ok _ ↦ a ∷ later | err _ ↦ later ]

successes-redeemed :
    (t : PairingToken) (tries : List Attempt) → t.redeemed ≡ true → successes t tries ≡ []
unfolding successes redeem
successes-redeemed t [] h = refl
successes-redeemed t (a ∷ rest) h = ground (arith, successes-redeemed t rest h)

-- Whatever is presented and when, at most one attempt on an issued token succeeds, and that one
-- presents its bytes before its lifetime is over.
pub issue_single_use :
    (random : Bytes) (issued : Instant) (tries : List Attempt)
    → (successes (issue random issued) tries ≡ [])
      ⊎ ((a : Attempt) × (successes (issue random issued) tries ≡ a ∷ [])
          × (a.presented ≡ random)
          × (duration_since a.at issued < token_ttl))
unfolding successes redeem issue
issue_single_use random issued [] = inl refl
issue_single_use random issued (a ∷ rest) = ground (
  arith,
  issue_single_use random issued rest,
  successes-redeemed (record { bytes = random; issued_at = issued; redeemed = true }) rest,
)
