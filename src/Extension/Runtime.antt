-- ===== src/Extension/Runtime.antt =====
-- background/runtime.ts: how the background worker answers its messages.
use unuvault.Prelude.{
  ℕ, zero, suc, Bool, true, false, Option, none, some, List, [], ◌∷◌, map, select, length,
  if◌then◌else◌, ok, Text, codes, is_empty, text_eq,
}
use unuvault.Prelude.Actions.{Action, ◌>>=◌, ◌>>◌, pure}
use unuvault.Extension.{
  Rejection, OriginParser, ExtensionAuthState, ExtensionUnlockMode, AutofillCandidate,
  AutofillCandidates, AutofillFillData, BackgroundCallerContext, UnlockedVaultLoginItem,
  CompanionCredential, CompanionMetadata, CompanionRelease, CompanionPage, content, refused,
  granted,
}
use unuvault.Extension.Unlock.{UnlockResult}

-- The companion on this Mac; `waits` is the pause between two claims, in which others may act.
pub record MacCompanionClient (S : Type 0) : Type 0 where
  pub read_credential_metadata : CompanionPage → Action S Rejection CompanionMetadata
  pub request_credential_release :
      CompanionPage → (id reason : Text) → Action S Rejection CompanionRelease
  pub claim_credential_release : CompanionPage → (id : Text) → Action S Rejection CompanionRelease
  pub waits : S → S

pub record BackgroundRuntimeDeps (S : Type 0) : Type 0 where
  pub read_extension_auth_state : Action S Rejection ExtensionAuthState
  pub sign_in_with_password : (email password : Text) → Action S Rejection ExtensionAuthState
  pub sign_out : Action S Rejection (Unit {0})
  pub hydrate_popup_vault_cache : Action S Rejection Bool
  pub mac_companion_client : Option (MacCompanionClient S)
  pub read_unlock_state : Action S Rejection ExtensionUnlockMode
  pub unlock_with_passphrase : Text → Action S Rejection UnlockResult
  pub lock : Action S Rejection ExtensionUnlockMode
  pub read_unlocked_login_items : Action S Rejection (List UnlockedVaultLoginItem)

abbrev candidate_of : UnlockedVaultLoginItem → AutofillCandidate
candidate_of item = record {
  has_password = item.has_password;
  id = item.id;
  title = item.title;
  username = item.username;
  website_origin = item.website_origin;
  website_url = item.website_url;
}

abbrev pub at_origin : Text → UnlockedVaultLoginItem → Bool
at_origin origin item = text_eq item.website_origin origin

abbrev candidates_or_none : List AutofillCandidate → AutofillCandidates
candidates_or_none [] = AutofillCandidates.no_match
candidates_or_none (c ∷ cs) = AutofillCandidates.ready (c ∷ cs)

unfoldable pub build_autofill_candidates_response :
    Text → List UnlockedVaultLoginItem → AutofillCandidates
build_autofill_candidates_response origin items =
    candidates_or_none (map candidate_of (select (at_origin origin) items))

abbrev companion_candidate_of : Text → CompanionCredential → AutofillCandidate
companion_candidate_of origin c = record {
  has_password = true;
  id = c.id;
  title = c.label;
  username = c.username;
  website_origin = origin;
  website_url = origin;
}

-- `none` stands for `null`: the companion has no say.
abbrev companion_candidates : Text → CompanionMetadata → Option AutofillCandidates
companion_candidates origin CompanionMetadata.unavailable = none
companion_candidates origin CompanionMetadata.locked = some AutofillCandidates.locked
companion_candidates origin (CompanionMetadata.ready credentials) =
    some (candidates_or_none (map (companion_candidate_of origin) credentials))

-- `pageUrl ? readPageOrigin(pageUrl) : null` for a content script, else `null`; an empty origin
-- counts as none where it is read.
abbrev present : Option Text → Option Text
present none = none
present (some t) = if is_empty t then none else some t

abbrev parse_origin : OriginParser → Option Text → Option Text
parse_origin origin_of none = none
parse_origin origin_of (some url) = origin_of url

unfoldable pub read_trusted_content_page_origin :
    OriginParser → BackgroundCallerContext → Option Text
read_trusted_content_page_origin origin_of context = elim context.source [
  | content ↦ present (parse_origin origin_of (present context.trusted_page_url))
  | _ ↦ none
]

-- Exactly one item of the page, with a password, is filled in.
abbrev pub fill_one : List UnlockedVaultLoginItem → AutofillFillData
fill_one [] = AutofillFillData.no_match
fill_one (item ∷ []) =
    if is_empty item.password
    then AutofillFillData.no_password
    else AutofillFillData.ready (record { username = item.username; password = item.password })
fill_one (item ∷ other ∷ items) = AutofillFillData.multiple_matches (length (item ∷ other ∷ items))

abbrev fill_at : Option Text → List UnlockedVaultLoginItem → AutofillFillData
fill_at none items = AutofillFillData.no_page_url
fill_at (some origin) items = fill_one (select (at_origin origin) items)

unfoldable pub build_autofill_fill_data_response :
    OriginParser → BackgroundCallerContext → List UnlockedVaultLoginItem → AutofillFillData
build_autofill_fill_data_response origin_of context items =
    fill_at (read_trusted_content_page_origin origin_of context) items

abbrev pub mac_companion_approval_claim_attempts : ℕ
mac_companion_approval_claim_attempts = 80

abbrev pub credential_not_found : Text
credential_not_found = codes "credential_not_found"

module _ {S : Type 0} (client : MacCompanionClient S) (page : CompanionPage) where
  abbrev wait : Action S Rejection (Unit {0})
  wait s = (ok tt, client.waits s)

  -- The loop of `claimApprovedMacCompanionRelease`, by the attempts that are left.
  unfoldable pub claim_approved_mac_companion_release :
      ℕ → (id : Text) → Action S Rejection AutofillFillData
  claim_approved_mac_companion_release zero id = pure AutofillFillData.approval_required
  claim_approved_mac_companion_release (suc attempts) id =
      client.claim_credential_release page id >>= λ claim. elim claim [
        | granted data' ↦ pure (AutofillFillData.ready data')
        | refused error ↦ elim (text_eq error credential_not_found) [
          | true ↦ wait >> claim_approved_mac_companion_release attempts id
          | false ↦ pure AutofillFillData.approval_required
        ]
      ]

  abbrev pub after_release : Text → CompanionRelease → Action S Rejection (Option AutofillFillData)
  after_release id (granted data') = pure (some (AutofillFillData.ready data'))
  after_release id (refused error) =
      if text_eq error (codes "approval_required")
      then (claim_approved_mac_companion_release mac_companion_approval_claim_attempts id
          >>= λ answer. pure (some answer))
      else if text_eq error credential_not_found
      then pure (some AutofillFillData.no_match)
      else if text_eq error (codes "mac_companion_unavailable")
      then pure none
      else pure (some AutofillFillData.approval_required)

  abbrev pub release_only : List CompanionCredential → Action S Rejection (Option AutofillFillData)
  release_only [] = pure (some AutofillFillData.no_match)
  release_only (c ∷ []) =
      client.request_credential_release page c.id (codes "fill-active-page") >>= after_release c.id
  release_only (c ∷ d ∷ cs) = pure (some (AutofillFillData.multiple_matches (length (c ∷ d ∷ cs))))

  abbrev pub fill_from_metadata : CompanionMetadata → Action S Rejection (Option AutofillFillData)
  fill_from_metadata CompanionMetadata.unavailable = pure none
  fill_from_metadata CompanionMetadata.locked = pure (some AutofillFillData.locked)
  fill_from_metadata (CompanionMetadata.ready credentials) = release_only credentials

unfoldable pub build_mac_companion_candidates_response :
    {S : Type 0}
    → Option (MacCompanionClient S)
    → CompanionPage
    → Action S Rejection (Option AutofillCandidates)
build_mac_companion_candidates_response none page = pure none
build_mac_companion_candidates_response (some client) page = do
  metadata ← client.read_credential_metadata page
  pure (companion_candidates page.origin metadata)

unfoldable pub build_mac_companion_fill_data_response :
    {S : Type 0}
    → Option (MacCompanionClient S)
    → CompanionPage
    → Action S Rejection (Option AutofillFillData)
build_mac_companion_fill_data_response none page = pure none
build_mac_companion_fill_data_response (some client) page = do
  metadata ← client.read_credential_metadata page
  fill_from_metadata client page metadata
