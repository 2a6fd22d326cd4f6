-- ===== src/Vault/Tests.antt =====
-- Synchronisation over a table in memory.
use unuvault.Vault.Access.{post_sync_keeps_foreign}
use unuvault.Http.{read_bearer_token}
use unuvault.Vault.Routes.{post_sync}
use unuvault.Vault.Payload.{
  has_scheme, PrintsParse, stored, normalize_idem, StoredPayload, normalize_vault_login_payload,
}
use unuvault.Prelude.{
  trim, ◌⊎◌, err, if◌then◌else◌, ◌≢◌, Bool-cases, sym, [], ◌∷◌, ◌≡◌, refl, ◌∙◌, arith, inl, inr,
  false, none, some, Option, List, Text, codes, ok, text_eq, text_eq_iff, Elem, map, TextMap,
  map_get, map_set, map_get-map_set, Option-cases,
}
use unuvault.Vault.{
  item_conflict, unique_ids, changed_items, profile_of, sync_vault_from_token, VaultSyncResponse,
  VaultSyncRequest, referenced_item_ids, VaultSyncServiceDependencies, VaultItemRow, VaultSyncItem,
  VaultSyncProfile, item_id,
}
use unuvault.Vault.Sync.{sync_conflicts, IsTable}

abbrev Table : Type 0
Table = TextMap VaultItemRow

abbrev row_from : Text → VaultSyncItem → VaultItemRow
row_from profile_id item = record {
  id = item.id;
  user_profile_id = profile_id;
  item_type = item.item_type;
  title = item.title;
  encrypted_payload = stored (λ t. some t) item.encrypted_payload;
  favorite = item.favorite;
  source = item.source;
  last_used_at = item.last_used_at;
  created_at = item.created_at;
  updated_at = item.updated_at;
}

unfoldable upsert : Text → List VaultSyncItem → Table → Table
upsert profile_id [] t = t
upsert profile_id (i ∷ is) t = upsert profile_id is (map_set i.id (row_from profile_id i) t)

unfoldable listed : List Text → Table → List VaultItemRow
unfolding map_get
listed [] t = []
listed (id ∷ ids) t =
    let rest = listed ids t in elim (map_get id t) [ none ↦ rest | some r ↦ r ∷ rest ]

upsert_lem :
    (profile_id id : Text) (items : List VaultSyncItem) (t : Table)
    → ¬ Elem id (map item_id items)
    → map_get id (upsert profile_id items t) ≡ map_get id t
unfolding upsert
upsert_lem profile_id id [] t away = refl
upsert_lem profile_id id (i ∷ is) t away =
    let rest =
      upsert_lem profile_id id is (map_set i.id (row_from profile_id i) t) (λ h. away (inr h)) in
    elim (Bool-cases (text_eq i.id id)) [
      | inl y ↦ absurd (away (inl (sym ((text_eq_iff i.id id).0 y))))
      | inr n ↦ rest ∙ (map_get-map_set i.id id (row_from profile_id i) t ∙ rw n refl)
    ]

listed_found :
    (j : Text) (ids : List Text) (t : Table) (row : VaultItemRow)
    → map_get j t ≡ some row
    → listed (j ∷ ids) t ≡ row ∷ listed ids t
unfolding listed
listed_found j ids t row e = ground arith

listed_missing :
    (j : Text) (ids : List Text) (t : Table)
    → map_get j t ≡ none
    → listed (j ∷ ids) t ≡ listed ids t
unfolding listed
listed_missing j ids t e = ground arith

Elem-listed :
    (ids : List Text) (id : Text) (t : Table) (row : VaultItemRow)
    → Elem id ids
    → map_get id t ≡ some row
    → Elem row (listed ids t)
Elem-listed [] id t row h e = absurd h
Elem-listed (j ∷ ids) id t row (inl same) e =
    rw (listed_found j ids t row (rw same at e)) (inl refl)
Elem-listed (j ∷ ids) id t row (inr h) e =
    let rest = Elem-listed ids id t row h e in
    elim (Option-cases (map_get j t)) [
      | inl n ↦ rw (listed_missing j ids t n) rest
      | inr (r, found) ↦ rw (listed_found j ids t r found) (inr rest)
    ]

-- The token is the account, and the account the profile; nothing counts as deleted.
abbrev profile_named : Text → VaultSyncProfile
profile_named name = record {
  id = name;
  account_id = name;
  auth_user_id = name;
  email = name;
  locale = codes "en";
}

abbrev deps : VaultSyncServiceDependencies Table
deps = record {
  get_user_by_token =
      λ token t. ok (some (record { id = token; account_id = some token; email = none }));
  get_user_profile_by_account_id = λ account t. ok (some (profile_named account));
  list_vault_items_by_ids = λ ids t. ok (listed ids t);
  upsert_vault_items = λ profile_id items t. (ok tt, upsert profile_id items t);
  soft_delete_vault_items = λ profile_id ids t. (ok tt, t);
  list_vault_items_by_profile_id = λ profile_id t. ok [];
  list_deleted_vault_item_ids_by_profile_id = λ profile_id t. ok [];
}

deps-IsTable : IsTable deps map_get
deps-IsTable = record {
  lists = λ ids id t rows row e h there.
      let same : listed ids t ≡ rows = ground arith in
      rw same at (Elem-listed ids id t row h there);
  upserts = λ profile_id id items t away. upsert_lem profile_id id items t away;
  deletes = λ profile_id id ids t away. refl;
}

abbrev item_named : Text → VaultSyncItem
item_named name = record {
  id = name;
  item_type = codes "login";
  title = name;
  encrypted_payload = record {
    schema_version = 1;
    username = [];
    password_ciphertext = [];
    notes = [];
    website_url = [];
  };
  favorite = false;
  source = codes "manual";
  last_used_at = none;
  created_at = [];
  updated_at = [];
}

abbrev row_of_eve : VaultItemRow
row_of_eve = row_from (codes "eve") (item_named (codes "i"))

abbrev table : Table
table = (codes "i", row_of_eve) ∷ []

abbrev url_of : Text → Option Text
url_of text = some text

there : map_get (codes "i") table ≡ some row_of_eve
unfolding map_get text_eq
there = refl

post_sync_keeps_foreign_example :
    (map_get
        (codes "i")
        (post_sync
          (sync_vault_from_token url_of deps (codes "now"))
          (some (codes "Bearer ada"))
          (some (item_named (codes "i") ∷ []))
          (some (codes "i" ∷ []))
          table).1
      ≡ some row_of_eve)
    ⊎ ((token : Text) × (profile : VaultSyncProfile) × (read_bearer_token
            (some (codes "Bearer ada"))
          ≡ some token)
        × (profile_of url_of deps token table ≡ ok profile)
        × (profile.id ≡ row_of_eve.user_profile_id))
post_sync_keeps_foreign_example =
    post_sync_keeps_foreign url_of deps map_get deps-IsTable (codes "now") (codes "i")
      (some (codes "Bearer ada")) (some (item_named (codes "i") ∷ [])) (some (codes "i" ∷ [])) table
      row_of_eve there

abbrev changes : VaultSyncRequest
changes = record {
  changed_items = item_named (codes "i") ∷ item_named (codes "j") ∷ [];
  deleted_item_ids = codes "j" ∷ codes "j" ∷ [];
}

looks_up : deps.list_vault_items_by_ids (referenced_item_ids changes) table ≡ ok (row_of_eve ∷ [])
unfolding map_get text_eq listed referenced_item_ids changed_items unique_ids
looks_up = refl

ada_is_not_eve : codes "eve" ≢ codes "ada"
ada_is_not_eve h = ground arith

sync_conflicts_example :
    sync_vault_from_token url_of deps (codes "now") (codes "ada") changes table
    ≡ (err item_conflict, table)
sync_conflicts_example =
    sync_conflicts url_of deps map_get deps-IsTable (codes "now") (codes "ada") (codes "i") changes
      table row_of_eve (profile_named (codes "ada")) (row_of_eve ∷ []) refl looks_up there
      ada_is_not_eve (inl (inl refl))

abbrev written : Table
written = (codes "i", row_from (codes "eve") (item_named (codes "i"))) ∷ []

abbrev nothing_new : VaultSyncResponse
nothing_new = record { server_time = codes "now"; updated_items = []; deleted_item_ids = [] }

-- A URL with a host is printed as it was, if no white space is around it; one without a host, such as
-- `mailto:a`, prints without `://`.
abbrev site : Text → Option Text
site text =
    if has_scheme text then (if text_eq (trim text) text then some text else none) else some text

site_law : PrintsParse site
site_law text url schemed h = elim (Bool-cases (text_eq (trim text) text)) [
  | inr n ↦ let refused = rw (schemed, n) at h in absurd (ground (arith, refused))
  | inl y ↦
      let parsed = rw (schemed, y) at h in
      let same : text ≡ url = ground (arith, parsed) in
      let exact = (text_eq_iff (trim text) text).0 y in
      rw (sym same) (schemed, exact, rw (schemed, y) refl)
]

abbrev typed : StoredPayload
typed = record {
  username = some (codes "ada");
  password_ciphertext = none;
  notes = none;
  website_url = some (codes " a.test/ ");
}

normalize_idem_example :
    normalize_vault_login_payload site (stored site (normalize_vault_login_payload site typed))
    ≡ normalize_vault_login_payload site typed
normalize_idem_example = normalize_idem site typed site_law
