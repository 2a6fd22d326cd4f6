-- ===== src/Security/Opening.antt =====
-- What opening a stored vault password gives (packages/security/src/vault-envelope.ts).
use unuvault.Prelude.Options.{bind-some_inv, guard-some_inv}
use unuvault.Security.Sealing.{seal_with_password, sealed_with}
use unuvault.Security.Roundtrip.{
  seal_with_password_sound, open_with_password-sealed_with, is_well_formed, decoded, Sealed,
  IsLibsodium,
}
use unuvault.Values.{is_truthy, text_of, same_key, descriptor, Value}
use unuvault.Security.{
  max_envelope_characters, max_ciphertext_characters, PasswordDerivedCiphertext, Bytes, Sodium,
  Platform,
}
use unuvault.Prelude.{
  ltb, [], if◌then◌else◌, not, is_space, trim_start, false, is_empty, leb, text_eq_self, ◌==◌, ℕ,
  text_eq, arith, length, Text, true, some, ◌≡◌, refl, ◌∷◌, ◌+◌, ◌≤◌,
}
use unuvault.Security.Envelope.{
  starts_as_json, seal_vault_password, open_stored_vault_password, is_protected,
  is_passphrase_protected_vault_password, parse_vault_envelope, open_vault_password, vault_purpose,
  versioned, is_supported_vault_envelope_version, envelope_of, derived_ciphertext, secure,
}

-- JSON: the text of an envelope is an object's, has at most 2048 characters more than its payload, and
-- parses to the envelope.
pub record PrintsJson (platform : Platform) (envelope : Value) (payload : Text) : Type 0 where
  pub reads_back : platform.json_parse (platform.json_stringify envelope) ≡ some envelope
  pub is_object : (rest : Text) × (platform.json_stringify envelope ≡ 123 ∷ rest)
  pub fits : length (platform.json_stringify envelope) ≤ length payload + 2048

module _ (sodium : Sodium) (platform : Platform) (salt nonce : Bytes)
    (law : IsLibsodium sodium salt nonce) where
  pub short_payload :
      (plaintext password purpose : Text) (sealed : PasswordDerivedCiphertext)
      (i : Sealed sodium salt nonce law plaintext password purpose sealed)
      → length (sodium.to_base64 i.encrypted) ≤ max_ciphertext_characters
  short_payload plaintext password purpose sealed i =
      let (size, coded, _) = law.encrypts plaintext purpose i.key i.encrypted i.encrypts in
      omega (arith, coded.has_size, size, i.short_plaintext)

  pub derived_ciphertext-versioned :
      (version : ℕ) (purpose : Text) (encrypted : Bytes)
      → derived_ciphertext version purpose
          (versioned version (sealed_with sodium purpose salt nonce encrypted))
        ≡ some (sealed_with sodium purpose salt nonce encrypted)
  unfolding derived_ciphertext descriptor same_key text_eq text_of
  derived_ciphertext-versioned version purpose encrypted =
      let same : (version == version) ≡ true = ground arith in rw (same, text_eq_self purpose) refl

  envelope_of-versioned :
      (encrypted : Bytes)
      → envelope_of (versioned 3 (sealed_with sodium vault_purpose salt nonce encrypted))
        ≡ some (secure (sealed_with sodium vault_purpose salt nonce encrypted))
  unfolding envelope_of is_supported_vault_envelope_version derived_ciphertext descriptor same_key
      text_eq text_of
  envelope_of-versioned encrypted = refl

  is_protected-versioned :
      (encrypted : Bytes)
      → is_protected (some (versioned 3 (sealed_with sodium vault_purpose salt nonce encrypted)))
        ≡ true
  unfolding derived_ciphertext descriptor same_key text_eq text_of
  is_protected-versioned encrypted = refl

  pub parse-stringify :
      (envelope : Value) (payload : Text)
      → is_truthy envelope ≡ true
      → length payload ≤ max_ciphertext_characters
      → PrintsJson platform envelope payload
      → parse_vault_envelope platform (platform.json_stringify envelope) ≡ some envelope
  unfolding parse_vault_envelope
  parse-stringify envelope payload truthy short json =
      let fits : leb (length (platform.json_stringify envelope)) max_envelope_characters ≡ true =
        ground (arith, json.fits, short) in
      rw (fits, json.reads_back, truthy) refl

  open_vault_password-Sealed :
      (password passphrase : Text) (sealed : PasswordDerivedCiphertext)
      (i : Sealed sodium salt nonce law password passphrase vault_purpose sealed)
      → is_well_formed password ≡ true
      → PrintsJson platform
          (versioned 3 (sealed_with sodium vault_purpose salt nonce i.encrypted))
          (sodium.to_base64 i.encrypted)
      → (is_passphrase_protected_vault_password platform (
            platform.json_stringify
              (versioned 3 (sealed_with sodium vault_purpose salt nonce i.encrypted)))
          ≡ true)
        × (open_vault_password sodium platform
              (platform.json_stringify
                (versioned 3 (sealed_with sodium vault_purpose salt nonce i.encrypted)))
              passphrase
            ≡ decoded password)
  unfolding open_vault_password is_passphrase_protected_vault_password is_truthy
  open_vault_password-Sealed password passphrase sealed i formed json =
      let c = sealed_with sodium vault_purpose salt nonce i.encrypted in
      let parsed =
        parse-stringify (versioned 3 c) (sodium.to_base64 i.encrypted) refl
          (short_payload password passphrase vault_purpose sealed i) json in
      let opens =
        open_with_password-sealed_with sodium salt nonce law password passphrase vault_purpose
          sealed i formed in
      let (rest, brace) = json.is_object in
      let full : is_empty (platform.json_stringify (versioned 3 c)) ≡ false =
        ground (arith, brace) in
      (
        rw (full, parsed, is_protected-versioned i.encrypted) refl,
        rw (full, parsed, envelope_of-versioned i.encrypted, i.has_password, opens) refl,
      )

  open_stored-object :
      (stored passphrase opened rest : Text)
      → stored ≡ 123 ∷ rest
      → length stored ≤ max_envelope_characters
      → open_vault_password sodium platform stored passphrase ≡ opened
      → open_stored_vault_password sodium platform stored passphrase ≡ opened
  unfolding open_stored_vault_password trim_start is_space
  open_stored-object stored passphrase opened rest brace fits e =
      let full : is_empty stored ≡ false = ground (arith, brace) in
      let small : ltb max_envelope_characters (length stored) ≡ false = ground (arith, fits) in
      let start : starts_as_json (trim_start stored) ≡ true = rw brace refl in
      rw (full, small, start, e) (by_opened opened)
    where
      by_opened : (t : Text) → (if not (is_empty t) then t else []) ≡ t
      by_opened [] = refl
      by_opened (c ∷ s) = refl

  -- Nothing is sealed without a passphrase.
  pub seal_vault_password-full :
      (password passphrase stored : Text)
      → seal_vault_password sodium platform salt nonce password passphrase ≡ some stored
      → is_empty passphrase ≡ false
  unfolding seal_vault_password
  seal_vault_password-full password passphrase stored h =
      let (full, _) = guard-some_inv (not (is_empty passphrase)) _ stored h in ground (arith, full)

  -- Given what libsodium and JSON document of random bytes, Base64, ciphertexts and texts of objects:
  -- a vault password that is sealed with a passphrase is passphrase-protected, and opens with that
  -- passphrase to the password, where it is well-formed Unicode: to exactly it, or, if it starts with a
  -- byte order mark, to what follows it.
  pub open_stored-seal_vault_password :
      (password passphrase stored : Text)
      → is_well_formed password ≡ true
      → ((sealed : PasswordDerivedCiphertext)
          → seal_with_password sodium salt nonce password passphrase vault_purpose ≡ some sealed
          → PrintsJson platform (versioned 3 sealed) sealed.encrypted_payload)
      → seal_vault_password sodium platform salt nonce password passphrase ≡ some stored
      → (is_passphrase_protected_vault_password platform stored ≡ true)
        × (open_stored_vault_password sodium platform stored passphrase ≡ decoded password)
  unfolding seal_vault_password
  open_stored-seal_vault_password password passphrase stored formed json h =
      let (_, h1) = guard-some_inv (not (is_empty passphrase)) _ stored h in
      let (sealed, made, h2) =
        bind-some_inv (seal_with_password sodium salt nonce password passphrase vault_purpose) _
          stored h1 in
      let i =
        seal_with_password_sound sodium salt nonce law password passphrase vault_purpose sealed
          made in
      let printed = rw i.is_sealed at (json sealed made) in
      let (rest, brace) = printed.is_object in
      let (guarded, opens) =
        open_vault_password-Sealed password passphrase sealed i formed printed in
      let text_is : stored ≡ platform.json_stringify (versioned 3 sealed) = ground (arith, h2) in
      let short = short_payload password passphrase vault_purpose sealed i in
      rw (text_is, i.is_sealed)
        (
          guarded,
          open_stored-object _ passphrase (decoded password) rest brace
              (omega (arith, printed.fits, short)) opens,
        )
