-- ===== src/Vault/Access.antt =====
-- Whose rows a request reaches, and what a successful one has written.
use unuvault.Vault.Ids.{IsOnce}
use unuvault.Http.{read_bearer_token, answer-state}
use unuvault.Prelude.{
  ap, ◌∙◌, ◌↔◌, Option-cases, some, ok, List, Option, ◌≡◌, ◌⊎◌, inl, inr, Text, Elem,
}
use unuvault.Vault.Sync.{IsTable, sync_keeps_foreign}
use unuvault.Vault.{
  build_vault_sync_payload, VaultSyncProfile, write_deleted, VaultSyncItem, changed_items,
  write_changed, VaultItemRow, VaultSyncResponse, VaultSyncRequest, VaultSyncServiceDependencies,
  profile_of, sync_vault_from_token,
}
use unuvault.Vault.Routes.{sync_error, post_sync, payload_of}

module _ {S : Type 0} (new_url : Text → Option Text) (deps : VaultSyncServiceDependencies S) where
  -- Given that a listing has every row it is asked for, and that upserts and soft deletions touch no
  -- row but those they name: whatever a request to the route asks for and however it is answered, a
  -- row of the table stays as it is, or the request bears a token that resolves to the profile that
  -- owns the row.
  pub post_sync_keeps_foreign :
      (row_of : Text → S → Option VaultItemRow)
      → IsTable deps row_of
      → (time id : Text) (authorization : Option Text) (changed : Option (List VaultSyncItem))
        (deleted : Option (List Text)) (s : S) (row : VaultItemRow)
      → row_of id s ≡ some row
      → (row_of id
            (post_sync (sync_vault_from_token new_url deps time) authorization changed deleted s).1
          ≡ some row)
        ⊎ ((token : Text) × (profile : VaultSyncProfile) × (read_bearer_token authorization
              ≡ some token)
            × (profile_of new_url deps token s ≡ ok profile)
            × (profile.id ≡ row.user_profile_id))
  unfolding post_sync
  post_sync_keeps_foreign row_of law time id authorization changed deleted s row there =
      elim (Option-cases (read_bearer_token authorization)) [
        | inl n ↦ inl (rw (post_sync, n) there)
        | inr (token, e) ↦
            elim (sync_keeps_foreign new_url deps row_of law time token id
              (payload_of changed deleted) s row there) [
                | inr (profile, known, own) ↦ inr (token, profile, e, known, own)
                | inl same ↦ inl (
                    rw (post_sync, e)
                      (ap (row_of id) (
                          answer-state sync_error
                            (sync_vault_from_token new_url deps time token
                              (payload_of changed deleted))
                            s)
                        ∙ same))
              ]
      ]

  -- What a successful round for `profile` has written, in this order, and what it answers.
  abbrev pub Synced :
      (time profile_id : Text) → List VaultSyncItem → List Text → S → VaultSyncResponse → S → Type 0
  Synced time profile_id changed deleted s response t =
      (u : S) × (rows : List VaultItemRow) × (ids : List Text) × (write_changed new_url deps
          profile_id changed s
        ≡ (ok tt, u))
      × (write_deleted new_url deps profile_id deleted u ≡ (ok tt, t))
      × (deps.list_vault_items_by_profile_id profile_id t ≡ ok rows)
      × (deps.list_deleted_vault_item_ids_by_profile_id profile_id t ≡ ok ids)
      × (response ≡ build_vault_sync_payload new_url time rows ids)

  -- The items that the request changes and does not delete.
  abbrev pub AreChanged : VaultSyncRequest → List VaultSyncItem → Type 0
  AreChanged payload changed =
      (item : VaultSyncItem)
      → Elem item changed
        ↔ (Elem item payload.changed_items × ¬ Elem item.id payload.deleted_item_ids)

  -- The ids that the request deletes, none of them twice.
  abbrev pub AreDeleted : VaultSyncRequest → List Text → Type 0
  AreDeleted payload deleted =
      IsOnce deleted × ((id : Text) → Elem id deleted ↔ Elem id payload.deleted_item_ids)
