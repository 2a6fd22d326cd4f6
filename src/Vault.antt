-- ===== src/Vault.antt =====
-- apps/api/src/services/vault-service.ts and packages/api-client/src/vault.ts: one round of a
-- vault's synchronisation.
pub mod Payload
pub mod Routes
pub mod Ids
pub mod Sync
pub mod Access
mod Tests
use unuvault.Prelude.{
  ℕ, Bool, not, Option, none, some, List, [], ◌∷◌, ◌++◌, map, select, find, exists, Result, ok, err,
  or_err, Text, is_empty, text_eq, if◌then◌else◌,
}
use unuvault.Prelude.Actions.{Action, ◌>>=◌, ◌>>◌, pure, throw, lift}
use unuvault.Vault.Payload.{StoredPayload, VaultLoginPayload, normalize_vault_login_payload}

pub record VaultSyncProfile : Type 0 where
  pub id : Text
  pub account_id : Text
  pub auth_user_id : Text
  pub email : Text
  pub locale : Text

pub record AuthUser : Type 0 where
  pub id : Text
  pub account_id : Option Text
  pub email : Option Text

pub record VaultItemRow : Type 0 where
  pub id : Text
  pub user_profile_id : Text
  pub item_type : Text
  pub title : Text
  pub encrypted_payload : StoredPayload
  pub favorite : Bool
  pub source : Text
  pub last_used_at : Option Text
  pub created_at : Text
  pub updated_at : Text

pub record VaultSyncItem : Type 0 where
  pub id : Text
  pub item_type : Text
  pub title : Text
  pub encrypted_payload : VaultLoginPayload
  pub favorite : Bool
  pub source : Text
  pub last_used_at : Option Text
  pub created_at : Text
  pub updated_at : Text

pub record VaultSyncRequest : Type 0 where
  pub changed_items : List VaultSyncItem
  pub deleted_item_ids : List Text

-- `conflicts` is always empty.
pub record VaultSyncResponse : Type 0 where
  pub server_time : Text
  pub updated_items : List VaultSyncItem
  pub deleted_item_ids : List Text

pub data SyncError : Type 0 where
  unauthorized : SyncError
  profile_not_found : SyncError
  item_conflict : SyncError
  dependency : SyncError

-- The identity service and the tables: reads leave them alone, a write may fail.
pub record VaultSyncServiceDependencies (S : Type 0) : Type 0 where
  pub get_user_by_token : Text → S → Result SyncError (Option AuthUser)
  pub get_user_profile_by_account_id : Text → S → Result SyncError (Option VaultSyncProfile)
  pub list_vault_items_by_ids : List Text → S → Result SyncError (List VaultItemRow)
  pub upsert_vault_items : (profile_id : Text) → List VaultSyncItem → Action S SyncError (Unit {0})
  pub soft_delete_vault_items : (profile_id : Text) → List Text → Action S SyncError (Unit {0})
  pub list_vault_items_by_profile_id : Text → S → Result SyncError (List VaultItemRow)
  pub list_deleted_vault_item_ids_by_profile_id : Text → S → Result SyncError (List Text)

-- `set.has(id)`.
abbrev pub has : Text → List Text → Bool
has id ids = exists (text_eq id) ids

-- `[...new Set(itemIds)]`.
unfoldable pub unique_ids : List Text → List Text
unique_ids [] = []
unique_ids (id ∷ ids) =
    let rest = unique_ids ids in id ∷ select (λ other. not (text_eq id other)) rest

abbrev pub item_id : VaultSyncItem → Text
item_id item = item.id

unfoldable pub changed_items : VaultSyncRequest → List VaultSyncItem
unfolding unique_ids
changed_items payload =
    select (λ item. not (has item.id (unique_ids payload.deleted_item_ids))) payload.changed_items

unfoldable pub referenced_item_ids : VaultSyncRequest → List Text
referenced_item_ids payload =
    unique_ids (map item_id (changed_items payload) ++ unique_ids payload.deleted_item_ids)

-- `!user?.account_id`.
abbrev pub require_account_id : Option AuthUser → Result SyncError Text
require_account_id none = err unauthorized
require_account_id (some user) = elim user.account_id [
  | none ↦ err unauthorized
  | some account ↦ if is_empty account then err unauthorized else ok account
]

module _ (new_url : Text → Option Text) where
  unfoldable pub map_vault_item_row_to_sync_item : VaultItemRow → VaultSyncItem
  map_vault_item_row_to_sync_item row = record {
    id = row.id;
    item_type = row.item_type;
    title = row.title;
    encrypted_payload = normalize_vault_login_payload new_url row.encrypted_payload;
    favorite = row.favorite;
    source = row.source;
    last_used_at = row.last_used_at;
    created_at = row.created_at;
    updated_at = row.updated_at;
  }

  unfoldable pub build_vault_sync_payload :
      (time : Text) → List VaultItemRow → List Text → VaultSyncResponse
  build_vault_sync_payload time vault_items deleted = record {
    server_time = time;
    updated_items = map map_vault_item_row_to_sync_item vault_items;
    deleted_item_ids = deleted;
  }

abbrev pub is_foreign : Text → VaultItemRow → Bool
is_foreign profile_id row = not (text_eq row.user_profile_id profile_id)

module _ {S : Type 0} (new_url : Text → Option Text) (deps : VaultSyncServiceDependencies S) where
  abbrev pub reads : {A : Type 0} → (S → Result SyncError A) → Action S SyncError A
  reads f s = (f s, s)

  -- Nothing is written while a referenced id belongs to another profile.
  abbrev pub check_owners : Text → List Text → Action S SyncError (Unit {0})
  check_owners profile_id [] = pure tt
  check_owners profile_id (id ∷ ids) =
      reads (deps.list_vault_items_by_ids (id ∷ ids)) >>= λ existing.
      elim (find (is_foreign profile_id) existing) [
        | some row ↦ throw item_conflict
        | none ↦ pure tt
      ]

  abbrev pub write_changed : Text → List VaultSyncItem → Action S SyncError (Unit {0})
  write_changed profile_id [] = pure tt
  write_changed profile_id (i ∷ is) = deps.upsert_vault_items profile_id (i ∷ is)

  abbrev pub write_deleted : Text → List Text → Action S SyncError (Unit {0})
  write_deleted profile_id [] = pure tt
  write_deleted profile_id (id ∷ ids) = deps.soft_delete_vault_items profile_id (id ∷ ids)

  abbrev pub answer_from : (time profile_id : Text) → Action S SyncError VaultSyncResponse
  answer_from time profile_id = do
    vault_items ← reads (deps.list_vault_items_by_profile_id profile_id)
    deleted ← reads (deps.list_deleted_vault_item_ids_by_profile_id profile_id)
    pure (build_vault_sync_payload new_url time vault_items deleted)

  abbrev pub sync_profile :
      (time profile_id : Text) → VaultSyncRequest → Action S SyncError VaultSyncResponse
  sync_profile time profile_id payload = do
    check_owners profile_id (referenced_item_ids payload)
    write_changed profile_id (changed_items payload)
    write_deleted profile_id (unique_ids payload.deleted_item_ids)
    answer_from time profile_id

  -- The profile of the account that the token resolves to.
  abbrev pub profile_of : Text → S → Result SyncError VaultSyncProfile
  profile_of token s = elim (deps.get_user_by_token token s) [
    | err e ↦ err e
    | ok user ↦ elim (require_account_id user) [
      | err e ↦ err e
      | ok account ↦ elim (deps.get_user_profile_by_account_id account s) [
        | err e ↦ err e
        | ok found ↦ or_err found profile_not_found
      ]
    ]
  ]

  unfoldable pub sync_vault_from_token :
      (time token : Text) → VaultSyncRequest → Action S SyncError VaultSyncResponse
  sync_vault_from_token time token payload = do
    profile ← reads (profile_of token)
    sync_profile time profile.id payload
