-- ===== src/Extension/Filling.antt =====
-- Which passwords the background worker hands out.
use unuvault.Extension.Companion.{CompanionGrants, fill_from_companion}
use unuvault.Prelude.{
  ◌≢◌, Result-cases, Result, none, is_empty, inr, Bool-cases, select, inl, ◌⊎◌, some, [], ◌∷◌, ◌≡◌,
  refl, arith, false, ok, err,
}
use unuvault.Extension.Runtime.{
  build_mac_companion_fill_data_response, build_autofill_fill_data_response, fill_one,
  read_trusted_content_page_origin, at_origin, BackgroundRuntimeDeps, MacCompanionClient,
}
use unuvault.Extension.{
  BackgroundRequest, Option, autofill_fill_data, ExtensionAuthState, ExtensionUnlockMode, List,
  StoredAuthState, UnlockedVaultLoginItem, BackgroundCallerContext, Text, OriginParser,
  CompanionPage, Rejection, AutofillFillData, FillData,
}
use unuvault.Extension.Handler.{
  unless_filled, handle_autofill_candidates, handle_background_request, handle_autofill_fill_data,
  page_of, from_vault,
}
use unuvault.Prelude.Actions.{bind_inv}

module _ {S : Type 0} (origin_of : OriginParser) (deps : BackgroundRuntimeDeps S) where
  -- The vault of the extension is unlocked, and exactly one of its items is of that origin; it has
  -- a password.
  abbrev pub VaultGrants : Text → FillData → S → S → Type 0
  VaultGrants origin data' s t =
      (item : UnlockedVaultLoginItem) × (items : List UnlockedVaultLoginItem) × (u : S)
      × (deps.read_unlock_state s ≡ (ok ExtensionUnlockMode.unlocked, u))
      × (deps.read_unlocked_login_items u ≡ (ok items, t))
      × (select (at_origin origin) items ≡ item ∷ [])
      × (is_empty item.password ≡ false)
      × (data' ≡ record { username = item.username; password = item.password })

  abbrev pub CompanionHasGranted : CompanionPage → FillData → S → S → Type 0
  CompanionHasGranted page data' s t =
      (client : MacCompanionClient S) × (deps.mac_companion_client ≡ some client)
      × CompanionGrants client page data' s t

  -- The user is signed in, the asking script runs on a page whose origin the browser vouches for,
  -- and the companion, or where it declines the vault, has the password for that origin.
  abbrev pub FillIsGranted : BackgroundCallerContext → FillData → S → S → Type 0
  FillIsGranted context data' s t =
      (auth : StoredAuthState) × (origin : Text) × (u : S) × (deps.read_extension_auth_state s
        ≡ (ok (ExtensionAuthState.signed_in auth), u))
      × (read_trusted_content_page_origin origin_of context ≡ some origin)
      × (CompanionHasGranted (page_of auth origin) data' u t
          ⊎ ((v : S) × (build_mac_companion_fill_data_response deps.mac_companion_client
                  (page_of auth origin) u
                ≡ (ok none, v))
              × VaultGrants origin data' v t))

  fill_one_ready :
      (origin : Text) (items chosen : List UnlockedVaultLoginItem) (data' : FillData) (s u t : S)
      → deps.read_unlock_state s ≡ (ok ExtensionUnlockMode.unlocked, u)
      → deps.read_unlocked_login_items u ≡ (ok items, t)
      → select (at_origin origin) items ≡ chosen
      → fill_one chosen ≡ AutofillFillData.ready data'
      → VaultGrants origin data' s t
  fill_one_ready origin items [] data' s u t opened read found h = absurd (ground arith)
  fill_one_ready origin items (item ∷ other ∷ more) data' s u t opened read found h =
      absurd (ground arith)
  fill_one_ready origin items (item ∷ []) data' s u t opened read found h =
      elim (Bool-cases (is_empty item.password)) [
        | inl y ↦ absurd (ground arith)
        | inr n ↦ (item, items, u, opened, read, found, n, ground arith)
      ]

  fill_from_vault :
      (context : BackgroundCallerContext) (origin : Text) (data' : FillData) (s t : S)
      → read_trusted_content_page_origin origin_of context ≡ some origin
      → from_vault origin_of deps context s
        ≡ (ok (autofill_fill_data (AutofillFillData.ready data')), t)
      → VaultGrants origin data' s t
  unfolding build_autofill_fill_data_response
  fill_from_vault context origin data' s t trusted h = go (deps.read_unlock_state s) refl
    where
      go :
          (r : Result Rejection ExtensionUnlockMode × S)
          → deps.read_unlock_state s ≡ r
          → VaultGrants origin data' s t
      go (err e, u) p = absurd (ground arith)
      go (ok ExtensionUnlockMode.needs_setup, u) p = absurd (ground arith)
      go (ok ExtensionUnlockMode.locked, u) p = absurd (ground arith)
      go (ok ExtensionUnlockMode.unlocked, u) p =
          elim (Result-cases (deps.read_unlocked_login_items u).0) [
            | inr (e, q) ↦ absurd (ground arith)
            | inl (items, q) ↦
                fill_one_ready origin items (select (at_origin origin) items) data' s u t p
                  (ground arith) refl (ground arith)
          ]

  signed_in_fill :
      (context : BackgroundCallerContext) (origin : Text) (auth : StoredAuthState)
      (data' : FillData) (s t u : S)
      → deps.read_extension_auth_state s ≡ (ok (ExtensionAuthState.signed_in auth), u)
      → read_trusted_content_page_origin origin_of context ≡ some origin
      → handle_autofill_fill_data origin_of deps context (some origin) auth u
        ≡ (ok (autofill_fill_data (AutofillFillData.ready data')), t)
      → FillIsGranted context data' s t
  unfolding handle_autofill_fill_data build_mac_companion_fill_data_response
  signed_in_fill context origin auth data' s t u authenticated trusted h =
      let (answer, v, asked, rest) =
        bind_inv
          (build_mac_companion_fill_data_response deps.mac_companion_client (page_of auth origin))
          (unless_filled origin_of deps context) u
          (autofill_fill_data (AutofillFillData.ready data')) t h in
      by_answer answer v asked rest
    where
      by_client :
          (client : Option (MacCompanionClient S))
          → deps.mac_companion_client ≡ client
          → build_mac_companion_fill_data_response client (page_of auth origin) u
            ≡ (ok (some (AutofillFillData.ready data')), t)
          → CompanionHasGranted (page_of auth origin) data' u t
      by_client none p q = absurd (ground arith)
      by_client (some client) p q =
          (client, p, fill_from_companion client (page_of auth origin) data' u t q)

      by_answer :
          (answer : Option AutofillFillData) (v : S)
          → build_mac_companion_fill_data_response deps.mac_companion_client (page_of auth origin) u
            ≡ (ok answer, v)
          → unless_filled origin_of deps context answer v
            ≡ (ok (autofill_fill_data (AutofillFillData.ready data')), t)
          → FillIsGranted context data' s t
      by_answer none v asked rest = (
        auth,
        origin,
        u,
        authenticated,
        trusted,
        inr (v, asked, fill_from_vault context origin data' v t trusted rest),
      )
      by_answer (some fill) v asked rest =
          let is_ready : fill ≡ AutofillFillData.ready data' = ground arith in
          let stays : v ≡ t = ground arith in
          (
            auth,
            origin,
            u,
            authenticated,
            trusted,
            inl (by_client deps.mac_companion_client refl (rw (asked, is_ready, stays))),
          )

  untrusted_fills_nothing :
      (context : BackgroundCallerContext) (auth : StoredAuthState) (data' : FillData) (s t : S)
      → handle_autofill_fill_data origin_of deps context none auth s
        ≢ (ok (autofill_fill_data (AutofillFillData.ready data')), t)
  unfolding handle_autofill_fill_data
  untrusted_fills_nothing context auth data' s t h = go (deps.read_unlock_state s) refl
    where
      go : (r : Result Rejection ExtensionUnlockMode × S) → deps.read_unlock_state s ≡ r → ⊥
      go (err e, u) p = ground arith
      go (ok ExtensionUnlockMode.needs_setup, u) p = ground arith
      go (ok ExtensionUnlockMode.locked, u) p = ground arith
      go (ok ExtensionUnlockMode.unlocked, u) p = ground arith

  -- When the background worker answers a message, whichever it is, with a password, the message was
  -- the one that asks for fill data, the user is signed in, the asking script runs on a page whose
  -- origin the browser vouches for, and one of two holds: the companion had a single credential for
  -- that origin and granted it, at once or within 80 claims after an approval was required; or it
  -- declined to answer, the extension is unlocked, exactly one unlocked item is of that origin, and
  -- the answer is that item's user name and its password, which is not empty.
  pub password_is_granted :
      (request : BackgroundRequest) (context : BackgroundCallerContext) (data' : FillData) (s t : S)
      → handle_background_request origin_of deps request context s
        ≡ (ok (autofill_fill_data (AutofillFillData.ready data')), t)
      → (request ≡ BackgroundRequest.read_autofill_fill_data) × FillIsGranted context data' s t
  unfolding handle_background_request handle_autofill_candidates
  password_is_granted BackgroundRequest.read_extension_auth_state context data' s t h =
      absurd (ground arith)
  password_is_granted BackgroundRequest.read_extension_unlock_state context data' s t h =
      absurd (ground arith)
  password_is_granted (BackgroundRequest.sign_in_with_password email password) context data' s t h =
      absurd (ground arith)
  password_is_granted (BackgroundRequest.unlock_extension_vault passphrase) context data' s t h =
      absurd (ground arith)
  password_is_granted BackgroundRequest.lock_extension_vault context data' s t h =
      absurd (ground arith)
  password_is_granted BackgroundRequest.read_autofill_status context data' s t h =
      absurd (ground arith)
  password_is_granted BackgroundRequest.read_autofill_candidates context data' s t h =
      absurd (ground arith)
  password_is_granted BackgroundRequest.hydrate_popup_vault_cache context data' s t h =
      absurd (ground arith)
  password_is_granted BackgroundRequest.sign_out context data' s t h = absurd (ground arith)
  password_is_granted BackgroundRequest.read_autofill_fill_data context data' s t h = (
    refl,
    go (deps.read_extension_auth_state s) (read_trusted_content_page_origin origin_of context) refl
        refl,
  )
    where
      go :
          (r : Result Rejection ExtensionAuthState × S) (origin : Option Text)
          → deps.read_extension_auth_state s ≡ r
          → read_trusted_content_page_origin origin_of context ≡ origin
          → FillIsGranted context data' s t
      go (err e, u) origin p q = absurd (ground arith)
      go (ok ExtensionAuthState.signed_out, u) origin p q = absurd (ground arith)
      go (ok (ExtensionAuthState.signed_in auth), u) none p q =
          absurd (untrusted_fills_nothing context auth data' u t (ground arith))
      go (ok (ExtensionAuthState.signed_in auth), u) (some origin) p q =
          signed_in_fill context origin auth data' s t u p q (ground arith)
