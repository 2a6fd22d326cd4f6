-- ===== src/Security/Tests/Reader.antt =====
-- The reader over a vault of one item, whose password the small package has sealed.
use unuvault.Security.Tests.{salt, nonce, secret, sodium, vault, key, secret-formed}
use unuvault.Security.Tests.{sodium-IsLibsodium, vault-PrintsJson, stores}
use unuvault.Extension.Opened.{read_unlocked-seal}
use unuvault.Extension.Reader.{read_unlocked_login_items, UrlParts, UnlockedVaultReaderDeps}
use unuvault.Extension.{UnlockedVaultLoginItem, ExtensionAuthState, StoredAuthState}
use unuvault.Vault.{VaultSyncItem}
use unuvault.Prelude.{inr, refl, inl, false, some, none, ok, ◌≡◌, List, Elem, codes, [], ◌∷◌}

abbrev urls : UrlParts
urls = record { new_url = λ t. some t; origin = λ t. t; hostname = λ t. t }

abbrev signed : StoredAuthState
signed = record {
  access_token = codes "t";
  email = codes "e";
  profile_id = codes "p";
  signed_in_at = codes "s";
}

abbrev mail : VaultSyncItem
mail = record {
  id = codes "1";
  item_type = codes "login";
  title = codes "mail";
  encrypted_payload = record {
    schema_version = 1;
    username = codes "u";
    password_ciphertext = codes "{";
    notes = [];
    website_url = [];
  };
  favorite = false;
  source = codes "web";
  last_used_at = none;
  created_at = codes "a";
  updated_at = codes "b";
}

abbrev note : VaultSyncItem
note = record {
  id = codes "2";
  item_type = codes "note";
  title = codes "list";
  encrypted_payload = mail.encrypted_payload;
  favorite = false;
  source = codes "web";
  last_used_at = none;
  created_at = codes "a";
  updated_at = codes "b";
}

-- The state is the stored items.
abbrev deps : UnlockedVaultReaderDeps (List VaultSyncItem)
deps = record {
  read_extension_auth_state = λ s. (ok (ExtensionAuthState.signed_in signed), s);
  read_popup_vault_items = λ s. (ok s, s);
  read_unlock_passphrase = λ s. (ok (some key), s);
}

abbrev cached : List VaultSyncItem
cached = note ∷ mail ∷ []

read_unlocked-seal_example :
    (found : List UnlockedVaultLoginItem) × (opened : UnlockedVaultLoginItem)
    × (read_unlocked_login_items urls sodium vault deps cached ≡ (ok found, cached))
    × Elem opened found
    × (opened.id ≡ mail.id)
    × (opened.title ≡ mail.title)
    × (opened.password ≡ secret)
read_unlocked-seal_example =
    read_unlocked-seal urls sodium vault deps salt nonce sodium-IsLibsodium cached cached cached
      cached signed key secret cached mail refl refl refl (inr (inl refl)) refl secret-formed
      vault-PrintsJson stores
