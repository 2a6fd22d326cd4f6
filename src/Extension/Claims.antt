-- ===== src/Extension/Claims.antt =====
-- The loop that waits for an approval on the Mac.
use unuvault.Prelude.{
  inl, inr, Bool-cases, true, err, text_eq, Result, ◌↔◌, ℕ, zero, suc, ◌≡◌, ◌<◌, refl, Text, ok,
  arith,
}
use unuvault.Extension.{
  FillData, ℕ, Text, Rejection, AutofillFillData, CompanionRelease, CompanionPage, refused, granted,
}
use unuvault.Extension.Runtime.{
  credential_not_found, MacCompanionClient, claim_approved_mac_companion_release,
}

module _ {S : Type 0} (client : MacCompanionClient S) (page : CompanionPage) (id : Text) where
  -- From `s`, `k` claims in a row find no approved credential, each followed by a pause; then the
  -- state is `t`.
  abbrev pub Pending : ℕ → S → S → Type 0
  Pending zero s t = s ≡ t
  Pending (suc k) s t =
      (error : Text) × (u : S) × (client.claim_credential_release page id s
        ≡ (ok (refused error), u))
      × (text_eq error credential_not_found ≡ true)
      × Pending k (client.waits u) t

  -- One of the first `n` claims hands the credential out, and those before it find none.
  abbrev pub ClaimGrants : ℕ → FillData → S → S → Type 0
  ClaimGrants n data' s t =
      (k : ℕ) × (u : S) × (k < n)
      × Pending k s u
      × (client.claim_credential_release page id u ≡ (ok (granted data'), t))

  claim_later :
      (n : ℕ) (data' : FillData) (s t u : S) (error : Text)
      → client.claim_credential_release page id s ≡ (ok (refused error), u)
      → text_eq error credential_not_found ≡ true
      → ClaimGrants n data' (client.waits u) t
      → ClaimGrants (suc n) data' s t
  claim_later n data' s t u error e missing (k, v, lt, pending, grants) =
      (suc k, v, omega arith, (error, u, e, missing, pending), grants)

  pub claim_sound :
      (n : ℕ) (data' : FillData) (s t : S)
      → claim_approved_mac_companion_release client page n id s
        ≡ (ok (AutofillFillData.ready data'), t)
      → ClaimGrants n data' s t
  unfolding claim_approved_mac_companion_release
  claim_sound zero data' s t h = absurd (ground arith)
  claim_sound (suc n) data' s t h =
      go (claim_sound n data') (client.claim_credential_release page id s) refl
    where
      go :
          ((v w : S)
            → claim_approved_mac_companion_release client page n id v
              ≡ (ok (AutofillFillData.ready data'), w)
            → ClaimGrants n data' v w)
          → (r : Result Rejection CompanionRelease × S)
          → client.claim_credential_release page id s ≡ r
          → ClaimGrants (suc n) data' s t
      go later (err e, u) p = absurd (ground arith)
      go later (ok (granted found), u) p = (0, s, omega arith, refl, ground arith)
      go later (ok (refused error), u) p = elim (Bool-cases (text_eq error credential_not_found)) [
        | inr n' ↦ absurd (ground arith)
        | inl y ↦ claim_later n data' s t u error p y (later (client.waits u) t (ground arith))
      ]

  pub claim_complete :
      (n k : ℕ) (data' : FillData) (s t u : S)
      → k < n
      → Pending k s u
      → client.claim_credential_release page id u ≡ (ok (granted data'), t)
      → claim_approved_mac_companion_release client page n id s
        ≡ (ok (AutofillFillData.ready data'), t)
  unfolding claim_approved_mac_companion_release
  claim_complete zero k data' s t u lt pending grants = absurd (omega arith)
  claim_complete (suc n) zero data' s t u lt pending grants = ground arith
  claim_complete (suc n) (suc k) data' s t u lt (error, v, p, y, pending) grants =
      ground (arith, claim_complete n k data' (client.waits v) t u (omega arith) pending grants)

  -- For every number of attempts, the loop answers with a credential exactly when one of that many
  -- claims hands it out while all claims before it find none; the state is then the one that the
  -- granted claim leaves.
  pub claim_iff :
      (n : ℕ) (data' : FillData) (s t : S)
      → (claim_approved_mac_companion_release client page n id s
          ≡ (ok (AutofillFillData.ready data'), t))
        ↔ ClaimGrants n data' s t
  claim_iff n data' s t = (
    claim_sound n data' s t,
    λ (k, u, lt, pending, grants). claim_complete n k data' s t u lt pending grants,
  )
