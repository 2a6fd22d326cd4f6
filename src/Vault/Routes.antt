-- ===== src/Vault/Routes.antt =====
-- apps/api/src/routes/vault-sync.ts: POST /sync.
use unuvault.Prelude.{Option, none, some, List, [], codes, Text}
use unuvault.Prelude.Actions.{Action}
use unuvault.Http.{Reply, failure, Handler, read_bearer_token, answer}
use unuvault.Vault.{
  VaultSyncItem, VaultSyncRequest, VaultSyncResponse, SyncError, unauthorized, profile_not_found,
  item_conflict,
}

-- `value ?? []`.
abbrev or_empty : {A : Type 0} → Option (List A) → List A
or_empty none = []
or_empty (some items) = items

unfoldable pub sync_error : {A : Type 0} → SyncError → Reply A
sync_error unauthorized = failure 401 (codes "invalid_token")
sync_error profile_not_found = failure 404 (codes "profile_not_found")
sync_error item_conflict = failure 409 (codes "item_id_conflict")
sync_error _ = failure 500 (codes "sync_failed")

-- What the body of a request gives of the two lists.
abbrev pub payload_of : Option (List VaultSyncItem) → Option (List Text) → VaultSyncRequest
payload_of changed deleted = record {
  changed_items = or_empty changed;
  deleted_item_ids = or_empty deleted;
}

unfoldable pub post_sync :
    {S : Type 0}
    → (Text → VaultSyncRequest → Action S SyncError VaultSyncResponse)
    → (authorization : Option Text) → Option (List VaultSyncItem)
    → Option (List Text)
    → Handler S VaultSyncResponse
unfolding sync_error
post_sync sync_vault_from_token authorization changed deleted s =
    elim (read_bearer_token authorization) [
      | none ↦ (failure 401 (codes "missing_bearer_token"), s)
      | some token ↦ answer sync_error (sync_vault_from_token token (payload_of changed deleted)) s
    ]
