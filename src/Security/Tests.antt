-- ===== src/Security/Tests.antt =====
-- The package over a small Base64, cipher and JSON, for one secret.
mod Reader
use unuvault.Security.Authentic.{open_vault_password_sound, Authentic}
use unuvault.Security.Roundtrip.{is_well_formed, IsLibsodium}
use unuvault.Security.Opening.{open_stored-seal_vault_password, PrintsJson}
use unuvault.Prelude.Regexes.{matches}
use unuvault.Values.{
  text_of, bare, text, same_key, whole, descriptor, number, is_truthy, named, datum, object, Value,
}
use unuvault.Security.Sealing.{sealed_with, seal_with_password}
use unuvault.Security.Pinned.{IsUnit64, IsEncoding}
use unuvault.Security.Faithful.{security_crypto-IsFaithful, security_crypto, HashesVerify}
use unuvault.Security.Envelope.{
  is_supported_vault_envelope_version, open_stored_vault_password, envelope_of, versioned,
  vault_purpose, parse_vault_envelope, VaultEnvelope, seal_vault_password, open_vault_password,
  is_passphrase_protected_vault_password,
}
use unuvault.Security.Developer.{
  open-seal_developer_secret_blob, developer_purpose, seal_developer_secret_blob,
  open_developer_secret_blob,
}
use unuvault.Security.{Sodium, Platform, PasswordDerivedCiphertext, Bytes}
use unuvault.Import.Analysis.{utf8_byte_length}
use unuvault.Extension.Unlock.Safety.{IsFaithful}
use unuvault.Prelude.{
  All, text_eq_iff, inl, inr, ◌==◌, strip_prefix, Bool-cases, ◌++◌, length, text_eq, if◌then◌else◌,
  codes, arith, ℕ, Text, true, none, some, ◌≡◌, refl, [], ◌∷◌, zero, suc, ◌+◌, ◌*◌, ◌/◌,
}
use unuvault.Security.Policy.{
  runtime_matches_argon2_policy, is_canonical_original_no_padding, verifier_groups,
  is_pinned_argon2id_verifier_syntax,
}

abbrev repeat : ℕ → ℕ → Text
repeat zero c = []
repeat (suc n) c = c ∷ repeat n c

abbrev pub salt : Bytes
salt = repeat 16 0

abbrev pub nonce : Bytes
nonce = repeat 24 1

abbrev pub secret : Text
secret = codes "pw"

pub secret-formed : is_well_formed secret ≡ true
unfolding is_well_formed
secret-formed = refl

abbrev cipher_bytes : Bytes
cipher_bytes = repeat 18 2

abbrev hash : Text
hash = codes "$argon2id$v=19$m=65536,t=2,p=1$" ++ repeat 22 65 ++ codes "$" ++ repeat 43 65

abbrev bytes_of : Text → Bytes
bytes_of t = if length t == 22 then salt else if length t == 32 then nonce else cipher_bytes

abbrev pub sodium : Sodium
sodium = record {
  opslimit_interactive = 2;
  memlimit_interactive = 67108864;
  salt_bytes = 16;
  npub_bytes = 24;
  a_bytes = 16;
  str_bytes = 128;
  str_prefix = codes "$argon2id$";
  alg_default = 2;
  alg_argon2id13 = 2;
  key_bytes = 32;
  to_base64 = λ b. repeat ((length b * 4 + 2) / 3) 65;
  from_base64 = λ t. some (bytes_of t);
  pwhash = λ n p s o m a. some [];
  encrypt = λ p purpose n k. if text_eq p secret then some cipher_bytes else none;
  decrypt = λ c purpose n k. some secret;
  pwhash_str = λ p o m. some hash;
  pwhash_str_verify = λ h p. some true;
}

-- JSON texts all parse to one value.
abbrev platform : Value → Platform
platform v = record {
  atob = λ t. some t;
  btoa = λ t. some t;
  encode = λ t. t;
  decode = λ b. b;
  json_parse = λ t. some v;
  json_stringify = λ w. codes "{";
}

pub sodium-IsLibsodium : IsLibsodium sodium salt nonce
unfolding utf8_byte_length text_eq
sodium-IsLibsodium = record {
  salt_length = refl;
  nonce_length = refl;
  salt_encoded = record { reads_back = refl; alphabet = refl; has_size = refl };
  nonce_encoded = record { reads_back = refl; alphabet = refl; has_size = refl };
  encrypts = λ p purpose k c h. elim (Bool-cases (text_eq p secret)) [
    | inr n ↦ absurd (ground (arith, n, h))
    | inl y ↦
        let is_secret = (text_eq_iff p secret).0 y in
        let is_cipher : c ≡ cipher_bytes = ground (arith, y, h) in
        rw (is_cipher, is_secret)
          (refl, record { reads_back = refl; alphabet = refl; has_size = refl }, λ w. refl)
  ];
}

abbrev pub key : Text
key = codes "k"

abbrev sealed_secret : Text → PasswordDerivedCiphertext
sealed_secret purpose = sealed_with sodium purpose salt nonce cipher_bytes

abbrev pub vault : Platform
vault = platform (versioned 3 (sealed_secret vault_purpose))

seals :
    seal_with_password sodium salt nonce secret key vault_purpose
    ≡ some (sealed_secret vault_purpose)
unfolding seal_with_password runtime_matches_argon2_policy utf8_byte_length text_eq
seals = refl

pub vault-PrintsJson :
    (sealed : PasswordDerivedCiphertext)
    → seal_with_password sodium salt nonce secret key vault_purpose ≡ some sealed
    → PrintsJson vault (versioned 3 sealed) sealed.encrypted_payload
vault-PrintsJson sealed h =
    let same : sealed ≡ sealed_secret vault_purpose = ground (arith, seals, h) in
    rw same (record { reads_back = refl; is_object = ([], refl); fits = omega arith })

pub stores : seal_vault_password sodium vault salt nonce secret key ≡ some (codes "{")
unfolding seal_vault_password seal_with_password runtime_matches_argon2_policy utf8_byte_length
    text_eq
stores = refl

open_stored-seal_vault_password_example :
    (is_passphrase_protected_vault_password vault (codes "{") ≡ true)
    × (open_stored_vault_password sodium vault (codes "{") key ≡ secret)
open_stored-seal_vault_password_example =
    open_stored-seal_vault_password sodium vault salt nonce sodium-IsLibsodium secret key
      (codes "{") secret-formed vault-PrintsJson stores

abbrev blob : Platform
blob = platform (versioned 2 (sealed_secret developer_purpose))

seals_blob :
    seal_with_password sodium salt nonce secret key developer_purpose
    ≡ some (sealed_secret developer_purpose)
unfolding seal_with_password runtime_matches_argon2_policy utf8_byte_length text_eq
seals_blob = refl

blob-PrintsJson :
    (sealed : PasswordDerivedCiphertext)
    → seal_with_password sodium salt nonce secret key developer_purpose ≡ some sealed
    → PrintsJson blob (versioned 2 sealed) sealed.encrypted_payload
blob-PrintsJson sealed h =
    let same : sealed ≡ sealed_secret developer_purpose = ground (arith, seals_blob, h) in
    rw same (record { reads_back = refl; is_object = ([], refl); fits = omega arith })

stores_blob : seal_developer_secret_blob sodium blob salt nonce secret key ≡ some (codes "{")
unfolding seal_developer_secret_blob seal_with_password runtime_matches_argon2_policy
    utf8_byte_length text_eq
stores_blob = refl

open-seal_developer_secret_blob_example :
    open_developer_secret_blob sodium blob (codes "{") key ≡ secret
open-seal_developer_secret_blob_example =
    open-seal_developer_secret_blob sodium blob salt nonce sodium-IsLibsodium secret key (codes "{")
      secret-formed blob-PrintsJson stores_blob

length-repeat : (n : ℕ) → length (repeat n 65) ≡ n
length-repeat zero = refl
length-repeat (suc n) = omega (arith, length-repeat n)

units_repeated : (n : ℕ) → All IsUnit64 (repeat n 65)
units_repeated zero = tt
units_repeated (suc n) = (inl (omega arith, omega arith), units_repeated n)

encoding : (n : ℕ) (padding : Text) → IsEncoding vault padding n (repeat n 65)
encoding n padding = record {
  has_size = length-repeat n;
  units = units_repeated n;
  bytes = repeat n 65 ++ padding;
  reads = refl;
  prints = refl;
}

sodium-HashesVerify : HashesVerify sodium vault
sodium-HashesVerify = record {
  prints = λ p h e. record {
    salt = repeat 22 65;
    tag = repeat 43 65;
    form = ground (arith, e);
    has_salt = encoding 22 (codes "==");
    has_tag = encoding 43 (codes "=");
  };
  verifies = λ p h e. refl;
}

security_crypto-IsFaithful_example : IsFaithful (security_crypto sodium vault)
security_crypto-IsFaithful_example = security_crypto-IsFaithful sodium vault sodium-HashesVerify

abbrev first_version : Value
first_version = object true (
    datum (named (codes "version")) true (number (whole 1)) (
      datum (named (codes "cipher")) true (text (codes "xchacha20-poly1305")) (
        datum (named (codes "keyDerivation")) true (text (codes "argon2id"))
          (datum (named (codes "encryptedPayload")) true (text secret) bare))))

opens_first : open_vault_password sodium (platform first_version) (codes "{") key ≡ secret
unfolding open_vault_password parse_vault_envelope envelope_of is_supported_vault_envelope_version
    is_truthy descriptor same_key text_eq text_of
opens_first = refl

open_vault_password_sound_example :
    (parsed : Value) × (envelope : VaultEnvelope) × (parse_vault_envelope
        (platform first_version)
        (codes "{")
      ≡ some parsed)
    × (envelope_of parsed ≡ some envelope)
    × Authentic sodium (platform first_version) envelope key secret
open_vault_password_sound_example =
    open_vault_password_sound sodium (platform first_version) (codes "{") key secret opens_first
      refl
