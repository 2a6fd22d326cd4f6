-- ===== src/Security/Verifier.antt =====
-- packages/security/src/master-password-verifier.ts. A stored verifier is any value; stored values have
-- no accessors.
use unuvault.Security.Streams.{hash_to_hex}
use unuvault.Security.Policy.{is_base64_unit, legacy_tag_hex, is_pinned_argon2id_verifier_syntax}
use unuvault.Prelude.Regexes.{set, times, matches}
use unuvault.Security.Sealing.{verify_password_hash, create_password_hash}
use unuvault.Extension.Unlock.{Verification}
use unuvault.Values.{
  is_text, is_whole, bare, text, whole, named, undefined, number, descriptor, datum, array, text_of,
  object, Descriptor, Value,
}
use unuvault.Security.{Sodium, Platform}
use unuvault.Prelude.{
  ◌++◌, ◌==◌, text_eq, is_empty, length, if◌then◌else◌, ℕ, codes, Bool, Text, Option, true, false,
  none, some, ◌&&◌,
}
use unuvault.Prelude.Options.{◌>>=◌, ◌>>◌, guard}

abbrev data_of : Option Descriptor → Value
data_of none = undefined
data_of (some (e, none)) = undefined
data_of (some (e, some v)) = v

-- `value.name`, where reading does not throw.
abbrev pub property : Text → Value → Value
property name (object plain ps) = data_of (descriptor (named name) ps)
property name (array plain ps) = data_of (descriptor (named name) ps)
property name _ = undefined

-- `!!value && typeof value === "object"`.
abbrev pub is_object : Value → Bool
is_object (object plain ps) = true
is_object (array plain ps) = true
is_object _ = false

-- `value.name === 1` and `value.name === "text"`.
abbrev pub has_number : Text → ℕ → Value → Bool
has_number name n value = is_whole n (property name value)

abbrev pub has_text : Text → Text → Value → Bool
has_text name expected value = is_text expected (property name value)

abbrev pub text_property : Text → Value → Option Text
text_property name value = text_of (property name value)

-- `LegacyMasterPasswordVerifier` and `SecureMasterPasswordVerifier`.
pub data MasterPasswordVerifier : Type 0 where
  legacy : (salt check : Text) → MasterPasswordVerifier
  secure : (password_hash : Text) → MasterPasswordVerifier

module _ (platform : Platform) where
  abbrev same_salt : Text → Text → Option Text → Bool
  same_salt value decoded none = false
  same_salt value decoded (some encoded) = length decoded == 12 && text_eq encoded value

  abbrev decodes_to_salt : Text → Option Text → Bool
  decodes_to_salt value none = false
  decodes_to_salt value (some decoded) = same_salt value decoded (platform.btoa decoded)

  unfoldable pub is_canonical_legacy_salt : Text → Bool
  is_canonical_legacy_salt value =
      matches (times 16 (set is_base64_unit)) value && decodes_to_salt value (platform.atob value)

  abbrev read_legacy : Value → Option MasterPasswordVerifier
  read_legacy value = do
    guard (is_object value && has_number (codes "version") 1 value)
    salt ← text_property (codes "salt") value
    guard (is_canonical_legacy_salt salt)
    check ← text_property (codes "check") value
    guard (matches legacy_tag_hex check)
    some (legacy salt check)

  abbrev read_secure : Value → Option MasterPasswordVerifier
  read_secure value = do
    guard (
        is_object value
        && has_number (codes "version") 2 value
        && has_text (codes "algorithm") (codes "argon2id13") value)
    password_hash ← text_property (codes "passwordHash") value
    guard (is_pinned_argon2id_verifier_syntax platform password_hash)
    some (secure password_hash)

  abbrev or_else :
      Option MasterPasswordVerifier → Option MasterPasswordVerifier → Option MasterPasswordVerifier
  or_else (some v) other = some v
  or_else none other = other

  unfoldable pub parse_stored_master_password_verifier : Value → Option MasterPasswordVerifier
  unfolding is_canonical_legacy_salt
  parse_stored_master_password_verifier value = or_else (read_legacy value) (read_secure value)

module _ (sodium : Sodium) (platform : Platform) where
  abbrev pub secure_verifier : Text → Value
  secure_verifier password_hash = object true (
      datum (named (codes "version")) true (number (whole 2)) (
        datum (named (codes "algorithm")) true (text (codes "argon2id13"))
          (datum (named (codes "passwordHash")) true (text password_hash) bare)))

  -- `none` where the promise rejects, here and below.
  unfoldable pub create_master_password_verifier : (master_password : Text) → Option Value
  create_master_password_verifier master_password =
      create_password_hash sodium master_password >>= λ h. some (secure_verifier h)

  abbrev pub refused_verification : Verification Value
  refused_verification = record { success = false; upgraded_verifier = none }

  abbrev pub upgrade : (master_password : Text) → Option (Verification Value)
  upgrade master_password = create_master_password_verifier master_password >>= λ v.
      some (record { success = true; upgraded_verifier = some v })

  abbrev pub verify_parsed :
      Option MasterPasswordVerifier → (master_password : Text) → Option (Verification Value)
  verify_parsed none master_password = some refused_verification
  verify_parsed (some (secure password_hash)) master_password = some (record {
    success = verify_password_hash sodium platform password_hash master_password;
    upgraded_verifier = none;
  })
  verify_parsed (some (legacy salt check)) master_password =
      if text_eq (hash_to_hex platform (master_password ++ codes ":" ++ salt)) check
      then upgrade master_password
      else some refused_verification

  unfoldable pub verify_master_password :
      Value → (master_password : Text) → Option (Verification Value)
  unfolding create_master_password_verifier
  verify_master_password verifier master_password =
      if is_empty master_password
      then some refused_verification
      else verify_parsed (parse_stored_master_password_verifier platform verifier) master_password
