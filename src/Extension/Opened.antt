-- ===== src/Extension/Opened.antt =====
-- background/unlocked-vault.ts with packages/security: a password that the web client has sealed.
use unuvault.Vault.Payload.{normalize_vault_login_payload}
use unuvault.Security.Opening.{
  seal_vault_password-full, open_stored-seal_vault_password, PrintsJson,
}
use unuvault.Security.Envelope.{seal_vault_password, versioned, vault_purpose}
use unuvault.Security.Sealing.{seal_with_password}
use unuvault.Vault.{VaultSyncItem}
use unuvault.Prelude.{
  text_eq_self, codes, refl, Elem-select, Elem-map_of_Elem, select, map, true, Elem, some, ok, ◌≡◌,
  List, Text,
}
use unuvault.Extension.{UnlockedVaultLoginItem, ExtensionAuthState, StoredAuthState}
use unuvault.Security.Roundtrip.{is_well_formed, decoded, IsLibsodium}
use unuvault.Extension.Reader.{
  opened_item, is_login, read_unlocked_login_items, UrlParts, UnlockedVaultReaderDeps,
}
use unuvault.Security.{Platform, Sodium, PasswordDerivedCiphertext, Bytes}

module _ {S : Type 0} (urls : UrlParts) (sodium : Sodium) (platform : Platform)
    (deps : UnlockedVaultReaderDeps S) (salt nonce : Bytes)
    (law : IsLibsodium sodium salt nonce) where
  -- Given what libsodium and JSON document of random bytes, Base64, ciphertexts and texts of objects:
  -- while someone is signed in and the passphrase is kept, the reader gives, for every login item of the
  -- cached vault whose password has been sealed with this passphrase, an item with its id, its title and
  -- that password, where it is well-formed Unicode: exactly it, or, if it starts with a byte order mark,
  -- what follows it.
  pub read_unlocked-seal :
      (s t u v : S) (state : StoredAuthState) (passphrase password : Text)
      (items : List VaultSyncItem) (item : VaultSyncItem)
      → deps.read_extension_auth_state s ≡ (ok (ExtensionAuthState.signed_in state), t)
      → deps.read_unlock_passphrase t ≡ (ok (some passphrase), u)
      → deps.read_popup_vault_items u ≡ (ok items, v)
      → Elem item items
      → item.item_type ≡ codes "login"
      → is_well_formed password ≡ true
      → ((sealed : PasswordDerivedCiphertext)
          → seal_with_password sodium salt nonce password passphrase vault_purpose ≡ some sealed
          → PrintsJson platform (versioned 3 sealed) sealed.encrypted_payload)
      → seal_vault_password sodium platform salt nonce password passphrase
        ≡ some item.encrypted_payload.password_ciphertext
      → (found : List UnlockedVaultLoginItem) × (opened : UnlockedVaultLoginItem)
        × (read_unlocked_login_items urls sodium platform deps s ≡ (ok found, v))
        × Elem opened found
        × (opened.id ≡ item.id)
        × (opened.title ≡ item.title)
        × (opened.password ≡ decoded password)
  unfolding read_unlocked_login_items normalize_vault_login_payload
  read_unlocked-seal s t u v state passphrase password items item h1 h2 h3 listed login formed json
        sealed =
      let opens =
        open_stored-seal_vault_password sodium platform salt nonce law password passphrase
          item.encrypted_payload.password_ciphertext formed json sealed in
      let kept : is_login item ≡ true = rw login (text_eq_self (codes "login")) in
      let full =
        seal_vault_password-full sodium platform salt nonce law password passphrase
          item.encrypted_payload.password_ciphertext sealed in
      (
        map (opened_item urls sodium platform passphrase) (select is_login items),
        opened_item urls sodium platform passphrase item,
        rw (h1, h2, full, h3) refl,
        Elem-map_of_Elem _ _ item ((Elem-select is_login items item).1 (listed, kept)),
        refl,
        refl,
        opens.1,
      )
