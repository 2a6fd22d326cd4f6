-- ===== src/Extension/Reader.antt =====
-- background/unlocked-vault.ts: the login items of the cached vault, opened with the kept passphrase.
use unuvault.Security.Envelope.{open_stored_vault_password}
use unuvault.Vault.Payload.{
  stored, normalize_vault_login_payload, parse_website_url, normalize_vault_website_url,
}
use unuvault.Security.{Platform, Sodium}
use unuvault.Prelude.{
  select, is_empty, codes, text_eq, map, if◌then◌else◌, Bool, Option, List, Text, none, some, [],
  not,
}
use unuvault.Prelude.Actions.{Action, ◌>>=◌, pure}
use unuvault.Extension.{UnlockedVaultLoginItem, Rejection, ExtensionAuthState}
use unuvault.Vault.{VaultSyncItem}

-- The members that are read of `new URL(text)`, which is given by its `toString()`.
pub record UrlParts : Type 0 where
  pub new_url : Text → Option Text
  pub origin : Text → Text
  pub hostname : Text → Text

pub record WebsiteMetadata : Type 0 where
  pub website_url : Text
  pub website_origin : Text
  pub website_hostname : Text

pub record UnlockedVaultReaderDeps (S : Type 0) : Type 0 where
  pub read_extension_auth_state : Action S Rejection ExtensionAuthState
  pub read_popup_vault_items : Action S Rejection (List VaultSyncItem)
  pub read_unlock_passphrase : Action S Rejection (Option Text)

abbrev part_or_blank : (Text → Text) → Option Text → Text
part_or_blank part none = []
part_or_blank part (some url) = part url

unfoldable pub parse_vault_website_metadata : UrlParts → (website_url : Text) → WebsiteMetadata
parse_vault_website_metadata urls website_url =
    let normalized = normalize_vault_website_url urls.new_url (some website_url) in
    let parsed = parse_website_url urls.new_url normalized in
    record {
      website_url = normalized;
      website_origin = part_or_blank urls.origin parsed;
      website_hostname = part_or_blank urls.hostname parsed;
    }

abbrev pub is_login : VaultSyncItem → Bool
is_login item = text_eq item.item_type (codes "login")

module _ (urls : UrlParts) (sodium : Sodium) (platform : Platform) where
  abbrev pub opened_item : (passphrase : Text) → VaultSyncItem → UnlockedVaultLoginItem
  opened_item passphrase item =
      let payload =
        normalize_vault_login_payload urls.new_url (stored urls.new_url item.encrypted_payload) in
      let password =
        open_stored_vault_password sodium platform payload.password_ciphertext passphrase in
      let website = parse_vault_website_metadata urls payload.website_url in
      record {
        has_password = not (is_empty password);
        id = item.id;
        password = password;
        title = item.title;
        username = payload.username;
        website_hostname = website.website_hostname;
        website_origin = website.website_origin;
        website_url = website.website_url;
      }

  module _ {S : Type 0} (deps : UnlockedVaultReaderDeps S) where
    abbrev opened_items : (passphrase : Text) → Action S Rejection (List UnlockedVaultLoginItem)
    opened_items passphrase = do
      items ← deps.read_popup_vault_items
      pure (map (opened_item passphrase) (select is_login items))

    abbrev with_passphrase : Option Text → Action S Rejection (List UnlockedVaultLoginItem)
    with_passphrase none = pure []
    with_passphrase (some passphrase) =
        if is_empty passphrase then pure [] else opened_items passphrase

    abbrev for_user : ExtensionAuthState → Action S Rejection (List UnlockedVaultLoginItem)
    for_user ExtensionAuthState.signed_out = pure []
    for_user (ExtensionAuthState.signed_in state) = do
      passphrase ← deps.read_unlock_passphrase
      with_passphrase passphrase

    unfoldable pub read_unlocked_login_items : Action S Rejection (List UnlockedVaultLoginItem)
    read_unlocked_login_items = do state ← deps.read_extension_auth_state; for_user state
