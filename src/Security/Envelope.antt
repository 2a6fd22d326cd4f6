-- ===== src/Security/Envelope.antt =====
-- packages/security/src/vault-envelope.ts: how a password is stored in the vault.
use unuvault.Security.Streams.{open_legacy}
use unuvault.Security.Policy.{is_supported_legacy_xor_envelope}
use unuvault.Security.Sealing.{
  seal_with_password, pwhash_algorithm, open_with_password, aead_cipher,
}
use unuvault.Security.Verifier.{text_property, property, has_text, has_number}
use unuvault.Values.{
  bare, text, whole, named, is_truthy, datum, object, number, is_whole, Number, Value,
}
use unuvault.Security.{max_envelope_characters, Bytes, Platform, PasswordDerivedCiphertext, Sodium}
use unuvault.Prelude.{
  trim_start, ltb, length, is_empty, ◌==◌, not, leb, if◌then◌else◌, List, codes, Bool, ℕ, Text,
  Option, true, false, none, some, ◌&&◌, ◌||◌, [], ◌∷◌,
}
use unuvault.Prelude.Options.{◌>>=◌, ◌>>◌, guard}

-- The three versions.
pub data VaultEnvelope : Type 0 where
  legacy : (encrypted_payload : Text) → VaultEnvelope
  secure : PasswordDerivedCiphertext → VaultEnvelope
  xor_stream : (encrypted_payload unlock_salt unlock_tag : Text) → VaultEnvelope

unfoldable pub is_supported_vault_envelope_version : Value → Bool
is_supported_vault_envelope_version version =
    is_whole 1 version || is_whole 2 version || is_whole 3 version

-- `isLegacyEnvelope`.
abbrev pub legacy_envelope : Value → Option VaultEnvelope
legacy_envelope value = do
  guard (
      has_number (codes "version") 1 value
      && has_text (codes "cipher") (codes "xchacha20-poly1305") value
      && has_text (codes "keyDerivation") (codes "argon2id") value)
  payload ← text_property (codes "encryptedPayload") value
  some (legacy payload)

-- `isPassphraseEnvelope`.
abbrev pub passphrase_envelope : Value → Option VaultEnvelope
passphrase_envelope value = do
  guard (
      has_number (codes "version") 2 value
      && has_text (codes "cipher") (codes "xor-stream-v1") value
      && has_text (codes "keyDerivation") (codes "unlock-passphrase-v1") value)
  payload ← text_property (codes "encryptedPayload") value
  salt ← text_property (codes "unlockSalt") value
  tag ← text_property (codes "unlockTag") value
  guard (is_supported_legacy_xor_envelope payload salt tag)
  some (xor_stream payload salt tag)

abbrev number_of : Value → Option Number
number_of (number n) = some n
number_of _ = none

-- The part of `isSecureEnvelope` that the developer secrets' envelope shares, with its fields.
unfoldable pub derived_ciphertext :
    (version : ℕ) → (purpose : Text) → Value → Option PasswordDerivedCiphertext
derived_ciphertext version purpose value = do
  guard (
      has_number (codes "version") version value
      && has_text (codes "cipher") aead_cipher value
      && has_text (codes "keyDerivation") pwhash_algorithm value
      && has_text (codes "purpose") purpose value)
  payload ← text_property (codes "encryptedPayload") value
  nonce ← text_property (codes "nonce") value
  salt ← text_property (codes "salt") value
  ops ← number_of (property (codes "opsLimit") value)
  mem ← number_of (property (codes "memLimit") value)
  some (record {
    cipher = aead_cipher;
    purpose = purpose;
    encrypted_payload = payload;
    nonce = nonce;
    salt = salt;
    ops_limit = ops;
    mem_limit = mem;
    key_derivation = pwhash_algorithm;
  })

abbrev pub vault_purpose : Text
vault_purpose = codes "vault-password"

-- `isSecureEnvelope`.
abbrev pub secure_envelope : Value → Option VaultEnvelope
secure_envelope value = derived_ciphertext 3 vault_purpose value >>= λ c. some (secure c)

-- `{ version, ...sealed }`.
abbrev pub versioned : (version : ℕ) → PasswordDerivedCiphertext → Value
versioned version sealed = object true (
    datum (named (codes "version")) true (number (whole version)) (
      datum (named (codes "cipher")) true (text sealed.cipher) (
        datum (named (codes "purpose")) true (text sealed.purpose) (
          datum (named (codes "encryptedPayload")) true (text sealed.encrypted_payload) (
            datum (named (codes "nonce")) true (text sealed.nonce) (
              datum (named (codes "salt")) true (text sealed.salt) (
                datum (named (codes "opsLimit")) true (number sealed.ops_limit) (
                  datum (named (codes "memLimit")) true (number sealed.mem_limit) (
                    datum (named (codes "keyDerivation")) true (text sealed.key_derivation)
                      bare)))))))))

abbrev is_some : {A : Type 0} → Option A → Bool
is_some none = false
is_some (some a) = true

-- `null` and every other falsy value is `none`, since the callers test `!parsed` at once.
abbrev if_truthy : Value → Option Value
if_truthy value = if is_truthy value then some value else none

abbrev pub is_protected : Option Value → Bool
is_protected none = false
is_protected (some parsed) =
    is_some (passphrase_envelope parsed) || is_some (secure_envelope parsed)

abbrev first_of : List (Option VaultEnvelope) → Option VaultEnvelope
first_of [] = none
first_of (some e ∷ rest) = some e
first_of (none ∷ rest) = first_of rest

-- The envelope that the three tests find, in their order.
unfoldable pub envelope_of : Value → Option VaultEnvelope
envelope_of parsed =
    guard (is_supported_vault_envelope_version (property (codes "version") parsed))
    >> first_of (legacy_envelope parsed ∷ secure_envelope parsed ∷ passphrase_envelope parsed ∷ [])

abbrev pub starts_as_json : Text → Bool
starts_as_json [] = false
starts_as_json (c ∷ s) = c == 123 || c == 91 || c == 34

module _ (platform : Platform) where
  unfoldable pub parse_vault_envelope : Text → Option Value
  parse_vault_envelope ciphertext =
      guard (leb (length ciphertext) max_envelope_characters)
      >> (platform.json_parse ciphertext >>= if_truthy)

  unfoldable pub is_passphrase_protected_vault_password : Text → Bool
  unfolding parse_vault_envelope
  is_passphrase_protected_vault_password ciphertext =
      not (is_empty ciphertext) && is_protected (parse_vault_envelope ciphertext)

module _ (sodium : Sodium) (platform : Platform) where
  unfoldable pub seal_vault_password :
      (salt nonce : Bytes) → (password passphrase : Text) → Option Text
  seal_vault_password salt nonce password passphrase = do
    guard (not (is_empty passphrase))
    sealed ← seal_with_password sodium salt nonce password passphrase vault_purpose
    some (platform.json_stringify (versioned 3 sealed))

  -- No passphrase is the empty one.
  abbrev pub open_envelope : Option VaultEnvelope → (passphrase : Text) → Text
  open_envelope none key = []
  open_envelope (some (legacy payload)) key = payload
  open_envelope (some (secure sealed)) key =
      if is_empty key then [] else open_with_password sodium sealed key
  open_envelope (some (xor_stream payload salt tag)) key =
      if is_empty key then [] else open_legacy platform payload salt tag key

  unfoldable pub open_vault_password : (ciphertext passphrase : Text) → Text
  unfolding envelope_of parse_vault_envelope
  open_vault_password ciphertext key =
      if is_empty ciphertext
      then []
      else open_envelope (parse_vault_envelope platform ciphertext >>= envelope_of) key

  unfoldable pub open_stored_vault_password : (ciphertext passphrase : Text) → Text
  open_stored_vault_password ciphertext key =
      let opened = open_vault_password ciphertext key in
      if is_empty ciphertext
      then []
      else if ltb max_envelope_characters (length ciphertext)
      then []
      else if not (is_empty opened)
      then opened
      else if starts_as_json (trim_start ciphertext)
      then []
      else ciphertext
