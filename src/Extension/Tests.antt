-- ===== src/Extension/Tests.antt =====
-- The background worker on concrete inputs.
use unuvault.Extension.Runtime.{
  read_trusted_content_page_origin, build_mac_companion_fill_data_response,
  build_autofill_fill_data_response, BackgroundRuntimeDeps, credential_not_found,
  MacCompanionClient, claim_approved_mac_companion_release,
}
use unuvault.Extension.Handler.{handle_autofill_fill_data, handle_background_request}
use unuvault.Prelude.{
  zero, suc, text_eq, err, ◌↔◌, false, ◌⊎◌, is_empty, text_eq_self, none, true, ◌≡◌, refl, arith,
  some, [], ◌∷◌, ok, Text, codes,
}
use unuvault.Extension.Claims.{claim_iff, ClaimGrants}
use unuvault.Extension.Filling.{password_is_granted, FillIsGranted}
use unuvault.Extension.{
  rejected, ExtensionAuthState, granted, autofill_fill_data, CompanionMetadata, AutofillFillData,
  refused, CompanionRelease, content, locked, BackgroundCallerContext, StoredAuthState, ℕ,
  UnlockedVaultLoginItem, BackgroundRequest, Option, unlocked, OriginParser, FillData,
  CompanionPage,
}
use unuvault.Extension.Unlock.{
  lock, failure, read_unlock_state, success, can_unlock_protected_ciphertexts,
  unlock_with_passphrase, Session, Crypto,
}
use unuvault.Extension.Unlock.Safety.{
  unlock_refused, unlock-lock-unlock, run, IsChecked, IsSound, IsFaithful, unlock_succeeds,
  run-IsSound, unlocks, locks,
}

-- A verifier is the password itself; ciphertexts open to themselves.
abbrev plain : Crypto Text
plain = record {
  create_master_password_verifier = λ p. ok p;
  verify_master_password = λ v p. ok (record { success = text_eq v p; upgraded_verifier = none });
  is_passphrase_protected = λ c. true;
  open_stored_vault_password = λ c p. ok c;
}

plain-IsFaithful : IsFaithful plain
plain-IsFaithful = record {
  created = λ p v full e.
      let same : p ≡ v = ground arith in
      (record { success = true; upgraded_verifier = none }, rw (same, text_eq_self v), refl);
  upgraded = λ p v w r e y u. absurd (ground arith);
}

abbrev fresh : Session Text
fresh = record { unlock_passphrase = none; verifier = some (codes "pw"); ciphertexts = [] }

abbrev opened : Session Text
opened = record {
  unlock_passphrase = some (codes "pw");
  verifier = some (codes "pw");
  ciphertexts = [];
}

unlocks_fresh : unlock_with_passphrase plain (codes "pw") fresh ≡ (ok (success unlocked), opened)
unfolding unlock_with_passphrase can_unlock_protected_ciphertexts text_eq
unlocks_fresh = refl

fresh-IsSound : IsSound plain fresh
fresh-IsSound p e = absurd (ground arith)

unlock_succeeds_example :
    (unlocked ≡ unlocked)
    × (opened.unlock_passphrase ≡ some (codes "pw"))
    × IsChecked plain (codes "pw") opened
    × (can_unlock_protected_ciphertexts plain (codes "pw") fresh ≡ ok true)
unlock_succeeds_example =
    unlock_succeeds plain (codes "pw") fresh opened unlocked plain-IsFaithful unlocks_fresh

run-IsSound_example :
    IsSound plain (run plain (unlocks (codes "no") ∷ unlocks (codes "pw") ∷ locks ∷ []) fresh)
run-IsSound_example =
    run-IsSound plain (unlocks (codes "no") ∷ unlocks (codes "pw") ∷ locks ∷ []) fresh
      plain-IsFaithful fresh-IsSound

unlock-lock-unlock_example :
    ((unlock_with_passphrase plain (codes "pw") (lock plain opened).1).0 ≡ ok (success unlocked))
    × ((unlock_with_passphrase plain (codes "pw") (lock plain opened).1).1.unlock_passphrase
        ≡ some (codes "pw"))
    × (read_unlock_state plain (unlock_with_passphrase plain (codes "pw") (lock plain opened).1).1
        ≡ unlocked)
unlock-lock-unlock_example =
    unlock-lock-unlock plain (codes "pw") fresh opened unlocked plain-IsFaithful unlocks_fresh

wrong :
    unlock_with_passphrase plain (codes "no") opened
    ≡ (ok (failure (codes "Wrong master password") locked), fresh)
unfolding unlock_with_passphrase text_eq
wrong = refl

unlock_refused_example :
    ((is_empty (codes "no") ≡ true) × (fresh ≡ opened) × (locked ≡ read_unlock_state plain opened))
    ⊎ ((is_empty (codes "no") ≡ false)
        × (fresh ≡ record opened { unlock_passphrase = none })
        × (locked ≡ read_unlock_state plain fresh))
unlock_refused_example =
    unlock_refused plain (codes "no") (codes "Wrong master password") opened fresh locked wrong

-- The state counts the claims; the third one is granted.
abbrev fill : FillData
fill = record { username = codes "ada"; password = codes "s3" }

abbrev page : CompanionPage
page = record { access_token = codes "t"; origin = codes "https://a"; profile_id = codes "p" }

abbrev third : ℕ → CompanionRelease
third zero = refused credential_not_found
third (suc zero) = refused credential_not_found
third (suc (suc n)) = granted fill

abbrev client : MacCompanionClient ℕ
client = record {
  read_credential_metadata = λ page s. (
    ok (
        CompanionMetadata.ready
          (record { id = codes "c"; label = codes "A"; username = codes "ada" } ∷ [])),
    s,
  );
  request_credential_release = λ page id reason s. (ok (refused (codes "approval_required")), s);
  claim_credential_release = λ page id s. (ok (third s), s);
  waits = λ s. suc s;
}

claim_iff_example :
    (claim_approved_mac_companion_release client page 80 (codes "c") 0
      ≡ (ok (AutofillFillData.ready fill), 2))
    ↔ ClaimGrants client page (codes "c") 80 fill 0 2
claim_iff_example = claim_iff client page (codes "c") 80 fill 0 2

abbrev origin_of : OriginParser
origin_of url = some url

abbrev auth : StoredAuthState
auth = record {
  access_token = codes "t";
  email = codes "ada@a";
  profile_id = codes "p";
  signed_in_at = codes "now";
}

abbrev item : UnlockedVaultLoginItem
item = record {
  has_password = true;
  id = codes "i";
  password = codes "s3";
  title = codes "A";
  username = codes "ada";
  website_hostname = codes "a";
  website_origin = codes "https://a";
  website_url = codes "https://a";
}

abbrev deps_with : Option (MacCompanionClient ℕ) → BackgroundRuntimeDeps ℕ
deps_with companion = record {
  read_extension_auth_state = λ s. (ok (ExtensionAuthState.signed_in auth), s);
  sign_in_with_password = λ email password s. (ok (ExtensionAuthState.signed_in auth), s);
  sign_out = λ s. (ok tt, s);
  hydrate_popup_vault_cache = λ s. (err rejected, s);
  mac_companion_client = companion;
  read_unlock_state = λ s. (ok unlocked, s);
  unlock_with_passphrase = λ p s. (ok (success unlocked), s);
  lock = λ s. (ok locked, s);
  read_unlocked_login_items = λ s. (ok (item ∷ []), s);
}

abbrev script : BackgroundCallerContext
script = record { source = content; trusted_page_url = some (codes "https://a") }

fills :
    handle_background_request origin_of
      (deps_with (some client))
      BackgroundRequest.read_autofill_fill_data
      script
      0
    ≡ (ok (autofill_fill_data (AutofillFillData.ready fill)), 2)
unfolding handle_background_request handle_autofill_fill_data read_trusted_content_page_origin
    build_mac_companion_fill_data_response build_autofill_fill_data_response
    claim_approved_mac_companion_release text_eq
fills = refl

fills_from_vault :
    handle_background_request origin_of
      (deps_with none)
      BackgroundRequest.read_autofill_fill_data
      script
      0
    ≡ (ok (autofill_fill_data (AutofillFillData.ready fill)), 0)
unfolding handle_background_request handle_autofill_fill_data read_trusted_content_page_origin
    build_mac_companion_fill_data_response build_autofill_fill_data_response
    claim_approved_mac_companion_release text_eq
fills_from_vault = refl

password_is_granted_example :
    (BackgroundRequest.read_autofill_fill_data ≡ BackgroundRequest.read_autofill_fill_data)
    × FillIsGranted origin_of (deps_with (some client)) script fill 0 2
password_is_granted_example =
    password_is_granted origin_of (deps_with (some client))
      BackgroundRequest.read_autofill_fill_data script fill 0 2 fills
