-- ===== src/Security/Developer.antt =====
-- packages/security/src/developer-secret-envelope.ts: how a developer secret is stored.
use unuvault.Security.Policy.{is_supported_legacy_xor_envelope}
use unuvault.Security.Opening.{short_payload, parse-stringify, PrintsJson}
use unuvault.Security.Verifier.{is_object, has_number, has_text, text_property}
use unuvault.Security.Streams.{open_legacy}
use unuvault.Security.Roundtrip.{
  open_with_password-sealed_with, seal_with_password_sound, Sealed, is_well_formed, decoded,
  IsLibsodium,
}
use unuvault.Security.Sealing.{sealed_with, seal_with_password, open_with_password}
use unuvault.Values.{text_of, same_key, is_truthy, descriptor, Value}
use unuvault.Security.{Bytes, Platform, PasswordDerivedCiphertext, Sodium}
use unuvault.Security.Envelope.{derived_ciphertext, versioned, parse_vault_envelope}
use unuvault.Prelude.{
  arith, text_eq, ◌||◌, is_empty, if◌then◌else◌, codes, Option, Text, true, false, none, some, ◌≡◌,
  refl, [], ◌&&◌,
}
use unuvault.Prelude.Options.{bind-some_inv, ◌>>=◌, ◌>>◌, guard}

abbrev pub developer_purpose : Text
developer_purpose = codes "developer-secret-blob"

-- `LegacyDeveloperSecretEnvelope` and `SecureDeveloperSecretEnvelope`.
pub data DeveloperSecretEnvelope : Type 0 where
  legacy : (encrypted_payload salt tag : Text) → DeveloperSecretEnvelope
  secure : PasswordDerivedCiphertext → DeveloperSecretEnvelope

-- `isSecureDeveloperSecretEnvelope`.
abbrev secure_developer_envelope : Value → Option DeveloperSecretEnvelope
secure_developer_envelope value =
    guard (is_object value)
    >> (derived_ciphertext 2 developer_purpose value >>= λ c. some (secure c))

-- `isLegacyDeveloperSecretEnvelope`.
abbrev legacy_developer_envelope : Value → Option DeveloperSecretEnvelope
legacy_developer_envelope value = do
  guard (
      is_object value
      && has_number (codes "version") 1 value
      && has_text (codes "cipher") (codes "xor-stream-v1") value
      && has_text (codes "keyDerivation") (codes "master-password-v1") value)
  payload ← text_property (codes "encryptedPayload") value
  salt ← text_property (codes "salt") value
  tag ← text_property (codes "tag") value
  guard (is_supported_legacy_xor_envelope payload salt tag)
  some (legacy payload salt tag)

abbrev or_legacy : Value → Option DeveloperSecretEnvelope → Option DeveloperSecretEnvelope
or_legacy parsed (some e) = some e
or_legacy parsed none = legacy_developer_envelope parsed

unfoldable pub developer_envelope_of : Value → Option DeveloperSecretEnvelope
developer_envelope_of parsed = or_legacy parsed (secure_developer_envelope parsed)

module _ (sodium : Sodium) (platform : Platform) where
  unfoldable pub seal_developer_secret_blob :
      (salt nonce : Bytes) → (plaintext master_password : Text) → Option Text
  seal_developer_secret_blob salt nonce plaintext master_password =
      seal_with_password sodium salt nonce plaintext master_password developer_purpose >>= λ sealed.
      some (platform.json_stringify (versioned 2 sealed))

  abbrev open_developer_envelope : Option DeveloperSecretEnvelope → (master_password : Text) → Text
  open_developer_envelope none master_password = []
  open_developer_envelope (some (secure sealed)) master_password =
      open_with_password sodium sealed master_password
  open_developer_envelope (some (legacy payload salt tag)) master_password =
      open_legacy platform payload salt tag master_password

  -- `parseDeveloperSecretEnvelope` is the parser of vault-envelope.ts.
  unfoldable pub open_developer_secret_blob : (ciphertext master_password : Text) → Text
  open_developer_secret_blob ciphertext master_password =
      if is_empty ciphertext || is_empty master_password
      then []
      else open_developer_envelope
          (parse_vault_envelope platform ciphertext >>= developer_envelope_of) master_password

module _ (sodium : Sodium) (platform : Platform) (salt nonce : Bytes)
    (law : IsLibsodium sodium salt nonce) where
  developer_envelope_of-versioned :
      (encrypted : Bytes)
      → developer_envelope_of
          (versioned 2 (sealed_with sodium developer_purpose salt nonce encrypted))
        ≡ some (secure (sealed_with sodium developer_purpose salt nonce encrypted))
  unfolding developer_envelope_of derived_ciphertext descriptor same_key text_eq text_of
  developer_envelope_of-versioned encrypted = refl

  open_developer-Sealed :
      (plaintext master_password : Text) (sealed : PasswordDerivedCiphertext)
      (i : Sealed sodium salt nonce law plaintext master_password developer_purpose sealed)
      → is_well_formed plaintext ≡ true
      → PrintsJson platform
          (versioned 2 (sealed_with sodium developer_purpose salt nonce i.encrypted))
          (sodium.to_base64 i.encrypted)
      → open_developer_secret_blob sodium platform
          (platform.json_stringify
            (versioned 2 (sealed_with sodium developer_purpose salt nonce i.encrypted)))
          master_password
        ≡ decoded plaintext
  unfolding open_developer_secret_blob is_truthy
  open_developer-Sealed plaintext master_password sealed i formed json =
      let c = sealed_with sodium developer_purpose salt nonce i.encrypted in
      let parsed =
        parse-stringify sodium platform salt nonce law (versioned 2 c)
          (sodium.to_base64 i.encrypted) refl
          (short_payload sodium platform salt nonce law plaintext master_password developer_purpose
            sealed i)
          json in
      let opens =
        open_with_password-sealed_with sodium salt nonce law plaintext master_password
          developer_purpose sealed i formed in
      let (rest, brace) = json.is_object in
      let full : is_empty (platform.json_stringify (versioned 2 c)) ≡ false =
        ground (arith, brace) in
      rw (full, i.has_password, parsed, developer_envelope_of-versioned i.encrypted, opens) refl

  -- Given what libsodium and JSON document of random bytes, Base64, ciphertexts and texts of objects:
  -- a developer secret that is sealed with a master password opens with it to the secret, where it
  -- is well-formed Unicode: to exactly it, or, if it starts with a byte order mark, to what follows it.
  pub open-seal_developer_secret_blob :
      (plaintext master_password stored : Text)
      → is_well_formed plaintext ≡ true
      → ((sealed : PasswordDerivedCiphertext)
          → seal_with_password sodium salt nonce plaintext master_password developer_purpose
            ≡ some sealed
          → PrintsJson platform (versioned 2 sealed) sealed.encrypted_payload)
      → seal_developer_secret_blob sodium platform salt nonce plaintext master_password
        ≡ some stored
      → open_developer_secret_blob sodium platform stored master_password ≡ decoded plaintext
  unfolding seal_developer_secret_blob
  open-seal_developer_secret_blob plaintext master_password stored formed json h =
      let (sealed, made, h1) =
        bind-some_inv
          (seal_with_password sodium salt nonce plaintext master_password developer_purpose) _
          stored h in
      let i =
        seal_with_password_sound sodium salt nonce law plaintext master_password developer_purpose
          sealed made in
      let text_is : stored ≡ platform.json_stringify (versioned 2 sealed) = ground (arith, h1) in
      rw (text_is, i.is_sealed)
        (open_developer-Sealed plaintext master_password sealed i formed
          (rw i.is_sealed at (json sealed made)))
