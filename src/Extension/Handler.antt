-- ===== src/Extension/Handler.antt =====
-- `handleBackgroundRequest` of background/runtime.ts.
use unuvault.Prelude.{Option, none, some, List, [], ◌∷◌, Result, ok, err, Text, codes}
use unuvault.Prelude.Actions.{Action, ◌>>=◌, ◌>>◌, pure}
use unuvault.Extension.{
  Rejection, OriginParser, StoredAuthState, ExtensionAuthState, ExtensionUnlockMode, AutofillStatus,
  AutofillCandidates, AutofillFillData, BackgroundRequest, BackgroundResponse,
  BackgroundCallerContext, UnlockedVaultLoginItem, CompanionPage, auth_state, unlock_state,
  autofill_status, autofill_candidates, autofill_fill_data, hydration, done, failed,
  read_extension_auth_state, read_extension_unlock_state, sign_in_with_password,
  unlock_extension_vault, lock_extension_vault, read_autofill_status, read_autofill_candidates,
  read_autofill_fill_data, hydrate_popup_vault_cache, sign_out,
}
use unuvault.Extension.Unlock.{UnlockResult}
use unuvault.Extension.Runtime.{
  BackgroundRuntimeDeps, read_trusted_content_page_origin, build_autofill_candidates_response,
  build_autofill_fill_data_response, build_mac_companion_candidates_response,
  build_mac_companion_fill_data_response,
}

-- `try { return await action } catch { return { ok: false, error } }`.
abbrev settled :
    {S : Type 0}
    → Text
    → Result Rejection BackgroundResponse × S
    → Result Rejection BackgroundResponse × S
settled error (ok response, s) = (ok response, s)
settled error (err e, s) = (ok (failed error), s)

abbrev caught :
    {S : Type 0}
    → Text
    → Action S Rejection BackgroundResponse
    → Action S Rejection BackgroundResponse
caught error action s = settled error (action s)

abbrev unlock_reply : UnlockResult → BackgroundResponse
unlock_reply (UnlockResult.success mode) = unlock_state mode
unlock_reply (UnlockResult.failure error mode) = failed error

abbrev pub page_of : StoredAuthState → Text → CompanionPage
page_of auth origin = record {
  access_token = auth.access_token;
  origin = origin;
  profile_id = auth.profile_id;
}

abbrev items_status : List UnlockedVaultLoginItem → AutofillStatus
items_status [] = AutofillStatus.empty
items_status (i ∷ is) = AutofillStatus.ready

module _ {S : Type 0} (origin_of : OriginParser) (deps : BackgroundRuntimeDeps S) where
  -- A reply for each mode but the unlocked one; then the items are read.
  abbrev pub when_unlocked :
      BackgroundResponse
      → (List UnlockedVaultLoginItem → BackgroundResponse)
      → Action S Rejection BackgroundResponse
  when_unlocked refusal reply = deps.read_unlock_state >>= λ mode. elim mode [
    | ExtensionUnlockMode.unlocked ↦ deps.read_unlocked_login_items >>= λ items. pure (reply items)
    | _ ↦ pure refusal
  ]

  abbrev pub when_signed_in :
      BackgroundResponse
      → (StoredAuthState → Action S Rejection BackgroundResponse)
      → Action S Rejection BackgroundResponse
  when_signed_in refusal go = deps.read_extension_auth_state >>= λ auth. elim auth [
    | ExtensionAuthState.signed_in state ↦ go state
    | ExtensionAuthState.signed_out ↦ pure refusal
  ]

  unfoldable pub handle_autofill_candidates :
      Option Text → StoredAuthState → Action S Rejection BackgroundResponse
  handle_autofill_candidates none auth = pure (autofill_candidates AutofillCandidates.no_page_url)
  handle_autofill_candidates (some origin) auth =
      build_mac_companion_candidates_response deps.mac_companion_client (page_of auth origin)
      >>= λ answer. elim answer [
        | some candidates ↦ pure (autofill_candidates candidates)
        | none ↦
            when_unlocked (autofill_candidates AutofillCandidates.locked)
              (λ items. autofill_candidates (build_autofill_candidates_response origin items))
      ]

  abbrev pub from_vault : BackgroundCallerContext → Action S Rejection BackgroundResponse
  from_vault context =
      when_unlocked (autofill_fill_data AutofillFillData.locked)
        (λ items. autofill_fill_data (build_autofill_fill_data_response origin_of context items))

  abbrev pub unless_filled :
      BackgroundCallerContext → Option AutofillFillData → Action S Rejection BackgroundResponse
  unless_filled context (some fill) = pure (autofill_fill_data fill)
  unless_filled context none = from_vault context

  unfoldable pub handle_autofill_fill_data :
      BackgroundCallerContext
      → Option Text
      → StoredAuthState
      → Action S Rejection BackgroundResponse
  handle_autofill_fill_data context none auth = deps.read_unlock_state >>= λ mode. elim mode [
    | ExtensionUnlockMode.unlocked ↦ pure (autofill_fill_data AutofillFillData.no_page_url)
    | _ ↦ pure (autofill_fill_data AutofillFillData.locked)
  ]
  handle_autofill_fill_data context (some origin) auth =
      build_mac_companion_fill_data_response deps.mac_companion_client (page_of auth origin)
      >>= unless_filled context

  unfoldable pub handle_background_request :
      BackgroundRequest → BackgroundCallerContext → Action S Rejection BackgroundResponse
  unfolding handle_autofill_candidates handle_autofill_fill_data
  handle_background_request read_extension_auth_state context =
      deps.read_extension_auth_state >>= λ auth. pure (auth_state auth)
  handle_background_request read_extension_unlock_state context =
      deps.read_unlock_state >>= λ mode. pure (unlock_state mode)
  handle_background_request (sign_in_with_password email password) context =
      caught (codes "We couldn't sign you in. Please try again.")
        (deps.sign_in_with_password email password >>= λ auth. pure (auth_state auth))
  handle_background_request (unlock_extension_vault passphrase) context =
      deps.unlock_with_passphrase passphrase >>= λ result. pure (unlock_reply result)
  handle_background_request lock_extension_vault context =
      deps.lock >>= λ mode. pure (unlock_state mode)
  handle_background_request read_autofill_status context =
      when_signed_in (autofill_status AutofillStatus.signed_out) λ auth.
        when_unlocked (autofill_status AutofillStatus.locked)
          (λ items. autofill_status (items_status items))
  handle_background_request read_autofill_candidates context =
      when_signed_in (autofill_candidates AutofillCandidates.signed_out)
        (handle_autofill_candidates (read_trusted_content_page_origin origin_of context))
  handle_background_request read_autofill_fill_data context =
      when_signed_in (autofill_fill_data AutofillFillData.signed_out)
        (handle_autofill_fill_data context (read_trusted_content_page_origin origin_of context))
  handle_background_request hydrate_popup_vault_cache context =
      caught (codes "We couldn't refresh your vault.")
        (deps.hydrate_popup_vault_cache >>= λ result. pure (hydration result))
  handle_background_request sign_out context = deps.sign_out >> pure done
