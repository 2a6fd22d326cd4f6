-- ===== src/Extension/Companion.antt =====
-- When the companion on this Mac answers with a password.
use unuvault.Prelude.{
  text_eq_iff, inr, text_eq, Bool-cases, inl, ◌⊎◌, some, [], codes, ◌∷◌, ◌≡◌, arith, ok,
}
use unuvault.Extension.Runtime.{
  MacCompanionClient, claim_approved_mac_companion_release, after_release, fill_from_metadata,
  mac_companion_approval_claim_attempts,
}
use unuvault.Extension.{
  refused, granted, CompanionRelease, Text, CompanionMetadata, CompanionPage, AutofillFillData,
  FillData, CompanionCredential,
}
use unuvault.Prelude.Actions.{◌>>=◌, bind_inv, pure}
use unuvault.Extension.Claims.{claim_sound, ClaimGrants}

module _ {S : Type 0} (client : MacCompanionClient S) (page : CompanionPage) where
  -- The companion itself hands the credential out: at once, or, once it asks for an approval, to
  -- one of the 80 claims that follow.
  abbrev pub ReleaseGrants : Text → FillData → S → S → Type 0
  ReleaseGrants id data' s t =
      (client.request_credential_release page id (codes "fill-active-page") s
        ≡ (ok (granted data'), t))
      ⊎ ((u : S) × (client.request_credential_release page id (codes "fill-active-page") s
            ≡ (ok (refused (codes "approval_required")), u))
          × ClaimGrants client page id mac_companion_approval_claim_attempts data' u t)

  -- The page has a single credential there.
  abbrev pub CompanionGrants : FillData → S → S → Type 0
  CompanionGrants data' s t =
      (c : CompanionCredential) × (u : S) × (client.read_credential_metadata page s
        ≡ (ok (CompanionMetadata.ready (c ∷ [])), u))
      × ReleaseGrants c.id data' u t

  waited :
      (id : Text) (data' : FillData) (s t : S)
      → (claim_approved_mac_companion_release client page mac_companion_approval_claim_attempts id
            >>= λ answer. pure (some answer))
          s
        ≡ (ok (some (AutofillFillData.ready data')), t)
      → ClaimGrants client page id mac_companion_approval_claim_attempts data' s t
  waited id data' s t h =
      let (answer, u, claimed, same) =
        bind_inv
          (claim_approved_mac_companion_release client page mac_companion_approval_claim_attempts
            id)
          (λ answer. pure (some answer)) s (some (AutofillFillData.ready data')) t h in
      let is_ready : answer ≡ AutofillFillData.ready data' = ground arith in
      let stays : u ≡ t = ground arith in
      claim_sound client page id mac_companion_approval_claim_attempts data' s t
        (rw (claimed, is_ready, stays))

  release_sound :
      (id : Text) (data' : FillData) (answer : CompanionRelease) (s u t : S)
      → client.request_credential_release page id (codes "fill-active-page") s ≡ (ok answer, u)
      → after_release client page id answer u ≡ (ok (some (AutofillFillData.ready data')), t)
      → ReleaseGrants id data' s t
  release_sound id data' (granted found) s u t asked rest = inl (ground arith)
  release_sound id data' (refused error) s u t asked rest =
      elim (Bool-cases (text_eq error (codes "approval_required"))) [
        | inr n ↦ absurd (ground arith)
        | inl y ↦
            let same = (text_eq_iff error (codes "approval_required")).0 y in
            inr (u, rw (asked, same), waited id data' u t (rw y at rest))
      ]

  -- A companion answers with a password only if it has granted the single credential of the page.
  pub fill_from_companion :
      (data' : FillData) (s t : S)
      → (client.read_credential_metadata page >>= fill_from_metadata client page) s
        ≡ (ok (some (AutofillFillData.ready data')), t)
      → CompanionGrants data' s t
  fill_from_companion data' s t h =
      let (metadata, u, read, rest) =
        bind_inv (client.read_credential_metadata page) (fill_from_metadata client page) s
          (some (AutofillFillData.ready data')) t h in
      by_metadata metadata u read rest
    where
      by_metadata :
          (metadata : CompanionMetadata) (u : S)
          → client.read_credential_metadata page s ≡ (ok metadata, u)
          → fill_from_metadata client page metadata u
            ≡ (ok (some (AutofillFillData.ready data')), t)
          → CompanionGrants data' s t
      by_metadata CompanionMetadata.unavailable u read rest = absurd (ground arith)
      by_metadata CompanionMetadata.locked u read rest = absurd (ground arith)
      by_metadata (CompanionMetadata.ready []) u read rest = absurd (ground arith)
      by_metadata (CompanionMetadata.ready (c ∷ d ∷ cs)) u read rest = absurd (ground arith)
      by_metadata (CompanionMetadata.ready (c ∷ [])) u read rest =
          let (answer, v, asked, after) =
            bind_inv (client.request_credential_release page c.id (codes "fill-active-page"))
              (after_release client page c.id) u (some (AutofillFillData.ready data')) t rest in
          (c, u, read, release_sound c.id data' answer u v t asked after)
