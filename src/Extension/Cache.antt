-- ===== src/Extension/Cache.antt =====
-- background/vault-cache.ts and popup/login-payload.ts: the filling of the extension's copy of the
-- vault, and what the popup shows for an item's password.
use unuvault.Prelude.{is_empty, Bool, true, false, Option, none, some, List, [], Text, not, codes}
use unuvault.Prelude.{if◌then◌else◌, trim}
use unuvault.Prelude.Actions.{Action, ◌>>=◌, pure}
use unuvault.Extension.{Rejection, ExtensionAuthState}
use unuvault.Vault.{VaultSyncItem, VaultSyncRequest, VaultSyncResponse}
use unuvault.Vault.Payload.{StoredPayload, normalize_vault_login_payload}
use unuvault.Security.Envelope.{open_stored_vault_password}
use unuvault.Security.{Platform, Sodium}

pub record VaultCacheHydratorDeps (S : Type 0) : Type 0 where
  pub read_extension_auth_state : Action S Rejection ExtensionAuthState
  pub sync_vault : (token : Text) → VaultSyncRequest → Action S Rejection VaultSyncResponse
  pub write_popup_vault_items : List VaultSyncItem → Action S Rejection (Unit {0})

module _ {S : Type 0} (deps : VaultCacheHydratorDeps S) where
  abbrev hydrate_for : ExtensionAuthState → Action S Rejection Bool
  hydrate_for ExtensionAuthState.signed_out = pure false
  hydrate_for (ExtensionAuthState.signed_in state) = do
    response ←
        deps.sync_vault state.access_token (record { changed_items = []; deleted_item_ids = [] })
    _ ← deps.write_popup_vault_items response.updated_items
    pure true

  -- The field `ok` of the source's result.
  unfoldable pub hydrate_popup_vault_cache : Action S Rejection Bool
  hydrate_popup_vault_cache = do state ← deps.read_extension_auth_state; hydrate_for state

module _ (new_url : Text → Option Text) where
  abbrev has_saved_password : StoredPayload → Bool
  has_saved_password payload =
      not (is_empty (trim (normalize_vault_login_payload new_url payload).password_ciphertext))

  module _ (sodium : Sodium) (platform : Platform) where
    -- An absent passphrase and an empty one are both falsy.
    unfoldable pub read_stored_password : StoredPayload → Option Text → Text
    read_stored_password payload none = []
    read_stored_password payload (some passphrase) =
        if is_empty passphrase
        then []
        else open_stored_vault_password sodium platform
            (normalize_vault_login_payload new_url payload).password_ciphertext passphrase

    abbrev no_password_saved : Text
    no_password_saved = codes "No password saved"

    abbrev hidden_password : Text
    hidden_password = codes "••••••••"

    abbrev opened_or_none : Text → Text
    opened_or_none opened = if is_empty opened then no_password_saved else opened

    abbrev is_absent : Option Text → Bool
    is_absent none = true
    is_absent (some passphrase) = is_empty passphrase

    unfoldable pub get_password_placeholder_label :
        StoredPayload → (is_revealed : Bool) → Option Text → Text
    get_password_placeholder_label payload is_revealed passphrase =
        if not (has_saved_password payload)
        then no_password_saved
        else if not is_revealed
        then hidden_password
        else if is_absent passphrase
        then hidden_password
        else opened_or_none (read_stored_password payload passphrase)
