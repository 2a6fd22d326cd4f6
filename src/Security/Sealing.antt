-- ===== src/Security/Sealing.antt =====
-- packages/security/src/sodium.ts: password hashes, and texts sealed with a password.
use unuvault.Import.Analysis.{utf8_byte_length}
use unuvault.Values.{whole}
use unuvault.Security.Policy.{
  is_supported_password_derived_ciphertext, is_pinned_argon2id_verifier_syntax,
  runtime_matches_argon2_policy,
}
use unuvault.Security.{max_plaintext_bytes, Platform, PasswordDerivedCiphertext, Bytes, Sodium}
use unuvault.Prelude.{
  text_eq, leb, is_empty, not, if◌then◌else◌, Bool, codes, Option, Text, false, none, some, ◌&&◌,
  [],
}
use unuvault.Prelude.Options.{◌>>=◌, ◌>>◌, guard}

abbrev pub pwhash_algorithm : Text
pwhash_algorithm = codes "argon2id13"

abbrev pub aead_cipher : Text
aead_cipher = codes "xchacha20poly1305-ietf"

module _ (sodium : Sodium) where
  unfoldable pub create_password_hash : (password : Text) → Option Text
  create_password_hash password =
      guard (runtime_matches_argon2_policy sodium)
      >> sodium.pwhash_str password sodium.opslimit_interactive sodium.memlimit_interactive

  -- An exception of the check counts as no.
  abbrev pub or_false : Option Bool → Bool
  or_false (some b) = b
  or_false none = false

  unfoldable pub verify_password_hash : Platform → (password_hash password : Text) → Bool
  verify_password_hash platform password_hash password =
      not (is_empty password_hash)
      && not (is_empty password)
      && runtime_matches_argon2_policy sodium
      && is_pinned_argon2id_verifier_syntax platform password_hash
      && or_false (sodium.pwhash_str_verify password_hash password)

  abbrev pub sealed_with :
      (purpose : Text) → (salt nonce encrypted : Bytes) → PasswordDerivedCiphertext
  sealed_with purpose salt nonce encrypted = record {
    cipher = aead_cipher;
    purpose = purpose;
    encrypted_payload = sodium.to_base64 encrypted;
    nonce = sodium.to_base64 nonce;
    salt = sodium.to_base64 salt;
    ops_limit = whole sodium.opslimit_interactive;
    mem_limit = whole sodium.memlimit_interactive;
    key_derivation = pwhash_algorithm;
  }

  -- `salt` and `nonce` are what the two calls of `randombytes_buf` draw; `none` is an error.
  unfoldable pub seal_with_password :
      (salt nonce : Bytes) → (plaintext password purpose : Text) → Option PasswordDerivedCiphertext
  seal_with_password salt nonce plaintext password purpose = do
    guard (not (is_empty password))
    guard (not (is_empty purpose))
    guard (leb (utf8_byte_length purpose) 128)
    guard (leb (utf8_byte_length plaintext) max_plaintext_bytes)
    guard (runtime_matches_argon2_policy sodium)
    key ←
        sodium.pwhash sodium.key_bytes password salt (whole sodium.opslimit_interactive)
          (whole sodium.memlimit_interactive) sodium.alg_argon2id13
    encrypted ← sodium.encrypt plaintext purpose nonce key
    some (sealed_with purpose salt nonce encrypted)

  abbrev pub or_blank_text : Option Text → Text
  or_blank_text (some t) = t
  or_blank_text none = []

  -- The part that runs inside `try`; `none` where it throws.
  abbrev pub try_open : PasswordDerivedCiphertext → (password : Text) → Option Text
  try_open ciphertext password = do
    salt ← sodium.from_base64 ciphertext.salt
    key ←
        sodium.pwhash sodium.key_bytes password salt ciphertext.ops_limit ciphertext.mem_limit
          sodium.alg_argon2id13
    payload ← sodium.from_base64 ciphertext.encrypted_payload
    nonce ← sodium.from_base64 ciphertext.nonce
    sodium.decrypt payload ciphertext.purpose nonce key

  -- The checks before it.
  abbrev pub is_openable : PasswordDerivedCiphertext → (password : Text) → Bool
  is_openable ciphertext password =
      not (is_empty password)
      && text_eq ciphertext.cipher aead_cipher
      && text_eq ciphertext.key_derivation pwhash_algorithm
      && not (is_empty ciphertext.purpose)
      && not (is_empty ciphertext.encrypted_payload)
      && not (is_empty ciphertext.nonce)
      && not (is_empty ciphertext.salt)
      && is_supported_password_derived_ciphertext sodium ciphertext

  unfoldable pub open_with_password : PasswordDerivedCiphertext → (password : Text) → Text
  open_with_password ciphertext password =
      if is_openable ciphertext password then or_blank_text (try_open ciphertext password) else []
