-- ===== src/Vault/Sync.antt =====
-- What a synchronisation changes.
use mathlib.Core.Bool.{false≢true}
use unuvault.Prelude.{
  ◌⊎◌, ap, ◌∙◌, err, text_eq_iff, Result, text_eq, Bool-cases, find_complete, inl, inr, map,
  Result-cases, ok, some, List, Option, [], ◌∷◌, refl, sym, true, ◌≡◌, ◌≢◌, arith, Elem, Text,
}
use unuvault.Prelude.Actions.{◌>>◌, resume, bind_keeps}
use unuvault.Vault.Ids.{Elem-referenced, referenced_iff}
use unuvault.Vault.{
  profile_of, VaultSyncProfile, sync_vault_from_token, unique_ids, changed_items,
  referenced_item_ids, write_deleted, answer_from, sync_profile, is_foreign, write_changed,
  check_owners, VaultSyncItem, VaultSyncRequest, VaultSyncServiceDependencies, SyncError,
  VaultItemRow, item_conflict, item_id,
}

-- What the database promises of the table, as seen by `row_of`: a listing has every row that it is
-- asked for, an upsert touches the rows of its items only, and so does a soft deletion; this holds
-- of writes that fail as well.
pub record IsTable {S : Type 0} (deps : VaultSyncServiceDependencies S)
    (row_of : Text → S → Option VaultItemRow) : Type 0 where
  pub lists :
      (ids : List Text) (id : Text) (s : S) (rows : List VaultItemRow) (row : VaultItemRow)
      → deps.list_vault_items_by_ids ids s ≡ ok rows
      → Elem id ids
      → row_of id s ≡ some row
      → Elem row rows
  pub upserts :
      (profile_id id : Text) (items : List VaultSyncItem) (s : S)
      → ¬ Elem id (map item_id items)
      → row_of id (deps.upsert_vault_items profile_id items s).1 ≡ row_of id s
  pub deletes :
      (profile_id id : Text) (ids : List Text) (s : S)
      → ¬ Elem id ids
      → row_of id (deps.soft_delete_vault_items profile_id ids s).1 ≡ row_of id s

module _ {S : Type 0} (new_url : Text → Option Text) (deps : VaultSyncServiceDependencies S) where
  pub check_owners_keeps :
      (profile_id : Text) (ids : List Text) (s : S)
      → (check_owners new_url deps profile_id ids s).1 ≡ s
  check_owners_keeps profile_id [] s = refl
  check_owners_keeps profile_id (id ∷ ids) s = ground arith

  answer_from_keeps :
      (time profile_id : Text) (s : S) → (answer_from new_url deps time profile_id s).1 ≡ s
  answer_from_keeps time profile_id s = ground arith

module _ {S : Type 0} (new_url : Text → Option Text) (deps : VaultSyncServiceDependencies S)
    (row_of : Text → S → Option VaultItemRow) (law : IsTable deps row_of) where
  is_foreign-true :
      (profile_id : Text) (row : VaultItemRow)
      → row.user_profile_id ≢ profile_id
      → is_foreign profile_id row ≡ true
  is_foreign-true profile_id row foreign =
      elim (Bool-cases (text_eq row.user_profile_id profile_id)) [
        | inl y ↦ absurd (foreign ((text_eq_iff row.user_profile_id profile_id).0 y))
        | inr n ↦ rw n refl
      ]

  -- A foreign row among the ids stops the round.
  check_owners_sound :
      (profile_id id : Text) (ids : List Text) (s s' : S) (row : VaultItemRow)
      → row_of id s ≡ some row
      → row.user_profile_id ≢ profile_id
      → Elem id ids
      → check_owners new_url deps profile_id ids s ≢ (ok tt, s')
  check_owners_sound profile_id id [] s s' row there foreign h e = h
  check_owners_sound profile_id id (j ∷ ids) s s' row there foreign h e =
      elim (Result-cases (deps.list_vault_items_by_ids (j ∷ ids) s)) [
        | inr (x, q) ↦ ground arith
        | inl (rows, q) ↦
            let (r, found) =
              find_complete (is_foreign profile_id) rows row
                (law.lists (j ∷ ids) id s rows row q h there)
                (is_foreign-true profile_id row foreign) in
            ground arith
      ]

  write_changed_keeps :
      (profile_id id : Text) (items : List VaultSyncItem) (s : S)
      → ¬ Elem id (map item_id items)
      → row_of id (write_changed new_url deps profile_id items s).1 ≡ row_of id s
  write_changed_keeps profile_id id [] s no' = refl
  write_changed_keeps profile_id id (i ∷ is) s no' = law.upserts profile_id id (i ∷ is) s no'

  write_deleted_keeps :
      (profile_id id : Text) (ids : List Text) (s : S)
      → ¬ Elem id ids
      → row_of id (write_deleted new_url deps profile_id ids s).1 ≡ row_of id s
  write_deleted_keeps profile_id id [] s no' = refl
  write_deleted_keeps profile_id id (j ∷ ids) s no' = law.deletes profile_id id (j ∷ ids) s no'

  -- After the owners are checked: rows that the request does not refer to stay.
  writes_keep :
      (time profile_id id : Text) (payload : VaultSyncRequest) (s : S)
      → ¬ Elem id (referenced_item_ids payload)
      → row_of id
          ((write_changed new_url deps profile_id (changed_items payload)
              >> (write_deleted new_url deps profile_id (unique_ids payload.deleted_item_ids)
                  >> answer_from new_url deps time profile_id))
            s).1
        ≡ row_of id s
  writes_keep time profile_id id payload s unasked =
      bind_keeps (λ u. row_of id u ≡ row_of id s)
        (write_changed new_url deps profile_id (changed_items payload))
        (λ _.
          write_deleted new_url deps profile_id (unique_ids payload.deleted_item_ids)
          >> answer_from new_url deps time profile_id)
        s
        (write_changed_keeps profile_id id (changed_items payload) s
          (λ h. unasked ((referenced_iff id payload).1 (inl h))))
        λ _ u same.
          bind_keeps (λ u'. row_of id u' ≡ row_of id s)
            (write_deleted new_url deps profile_id (unique_ids payload.deleted_item_ids))
            (λ _. answer_from new_url deps time profile_id) u
            (write_deleted_keeps profile_id id (unique_ids payload.deleted_item_ids) u
                (λ h. unasked ((referenced_iff id payload).1 (inr h)))
              ∙ same)
            λ _ v kept. rw (answer_from_keeps new_url deps time profile_id v) kept

  -- The rows of other profiles stay as they are, whether the round succeeds or fails.
  sync_profile_keeps :
      (time profile_id id : Text) (payload : VaultSyncRequest) (s : S) (row : VaultItemRow)
      → row_of id s ≡ some row
      → row.user_profile_id ≢ profile_id
      → row_of id (sync_profile new_url deps time profile_id payload s).1 ≡ row_of id s
  sync_profile_keeps time profile_id id payload s row there foreign =
      go (check_owners new_url deps profile_id (referenced_item_ids payload) s) refl
        (check_owners_keeps new_url deps profile_id (referenced_item_ids payload) s)
    where
      go :
          (r : Result SyncError (Unit {0}) × S)
          → check_owners new_url deps profile_id (referenced_item_ids payload) s ≡ r
          → r.1 ≡ s
          → row_of id
              (resume
                (λ _.
                  write_changed new_url deps profile_id (changed_items payload)
                  >> (write_deleted new_url deps profile_id (unique_ids payload.deleted_item_ids)
                      >> answer_from new_url deps time profile_id))
                r).1
            ≡ row_of id s
      go (err e, u) q same = ap (row_of id) same
      go (ok tt, u) q same =
          writes_keep time profile_id id payload u (λ h.
            check_owners_sound profile_id id (referenced_item_ids payload) s u row there foreign h
              q)
          ∙ ap (row_of id) same

  -- Given that a listing has every row it is asked for, and that upserts and soft deletions touch no
  -- row but those they name: whatever a round of synchronisation is asked for and however it ends, a
  -- row of the table stays as it is, or the token of the round resolves to a profile that owns it.
  pub sync_keeps_foreign :
      (time token id : Text) (payload : VaultSyncRequest) (s : S) (row : VaultItemRow)
      → row_of id s ≡ some row
      → (row_of id (sync_vault_from_token new_url deps time token payload s).1 ≡ some row)
        ⊎ ((profile : VaultSyncProfile) × (profile_of new_url deps token s ≡ ok profile)
            × (profile.id ≡ row.user_profile_id))
  unfolding sync_vault_from_token
  sync_keeps_foreign time token id payload s row there =
      elim (Result-cases (profile_of new_url deps token s)) [
        | inr (e, q) ↦ inl (rw q there)
        | inl (profile, q) ↦ elim (Bool-cases (text_eq row.user_profile_id profile.id)) [
          | inl own ↦ inr (profile, q, sym ((text_eq_iff row.user_profile_id profile.id).0 own))
          | inr foreign ↦ inl (
              rw q (
                sync_profile_keeps time profile.id id payload s row there (λ same.
                  false≢true (sym foreign ∙ (text_eq_iff row.user_profile_id profile.id).1 same))
                ∙ there))
        ]
      ]

  -- Given that a listing has every row it is asked for, and that upserts and soft deletions touch no
  -- row but those they name: a request that changes or deletes an item under the id of another
  -- profile's row is refused as a conflict, with nothing written, where the token resolves to a
  -- profile and the listing of the ids succeeds.
  pub sync_conflicts :
      (time token id : Text) (payload : VaultSyncRequest) (s : S) (row : VaultItemRow)
      (profile : VaultSyncProfile) (rows : List VaultItemRow)
      → profile_of new_url deps token s ≡ ok profile
      → deps.list_vault_items_by_ids (referenced_item_ids payload) s ≡ ok rows
      → row_of id s ≡ some row
      → row.user_profile_id ≢ profile.id
      → Elem id (map item_id payload.changed_items) ⊎ Elem id payload.deleted_item_ids
      → sync_vault_from_token new_url deps time token payload s ≡ (err item_conflict, s)
  unfolding sync_vault_from_token
  sync_conflicts time token id payload s row profile rows known listed there foreign asked =
      rw known (stops (referenced_item_ids payload) listed (Elem-referenced id payload asked))
    where
      stops :
          (ids : List Text)
          → deps.list_vault_items_by_ids ids s ≡ ok rows
          → Elem id ids
          → resume
              (λ _.
                write_changed new_url deps profile.id (changed_items payload)
                >> (write_deleted new_url deps profile.id (unique_ids payload.deleted_item_ids)
                    >> answer_from new_url deps time profile.id))
              (check_owners new_url deps profile.id ids s)
            ≡ (err item_conflict, s)
      stops [] e h = absurd h
      stops (j ∷ ids) e h =
          let (r, found) =
            find_complete (is_foreign profile.id) rows row
              (law.lists (j ∷ ids) id s rows row e h there)
              (is_foreign-true profile.id row foreign) in
          rw (e, found) refl
