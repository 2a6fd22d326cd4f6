-- ===== src/Security.antt =====
-- packages/security/src: the libraries that the package calls, the Argon2 policy and the envelope that
-- sodium.ts makes.
pub mod Policy
pub mod Sealing
pub mod Streams
pub mod Verifier
pub mod Envelope
pub mod Developer
pub mod Roundtrip
pub mod Pinned
pub mod Faithful
pub mod Opening
pub mod Authentic
mod Tests
use unuvault.Prelude.{Bool, Option, Text, List, ℕ, ◌+◌, ◌*◌, ◌/◌}
use unuvault.Values.{Value, Number}

abbrev pub Bytes : Type 0
Bytes = List ℕ

-- libsodium-wrappers-sumo. A call that throws is `none`.
pub record Sodium : Type 0 where
  pub opslimit_interactive : ℕ
  pub memlimit_interactive : ℕ
  pub salt_bytes : ℕ
  pub npub_bytes : ℕ
  pub a_bytes : ℕ
  pub str_bytes : ℕ
  pub str_prefix : Text
  pub alg_default : ℕ
  pub alg_argon2id13 : ℕ
  pub key_bytes : ℕ
  pub to_base64 : Bytes → Text
  pub from_base64 : Text → Option Bytes
  pub pwhash :
      (key_bytes : ℕ)
      → (password : Text) → (salt : Bytes) → (ops_limit mem_limit : Number) → (algorithm : ℕ)
      → Option Bytes
  pub encrypt : (plaintext purpose : Text) → (nonce key : Bytes) → Option Bytes
  pub decrypt : (ciphertext : Bytes) → (purpose : Text) → (nonce key : Bytes) → Option Text
  pub pwhash_str : (password : Text) → (ops_limit mem_limit : ℕ) → Option Text
  pub pwhash_str_verify : (password_hash password : Text) → Option Bool

-- What the package uses of the web platform: Base64, UTF-8 and JSON. A call that throws is `none`.
pub record Platform : Type 0 where
  pub atob : Text → Option Text
  pub btoa : Text → Option Text
  pub encode : Text → Bytes
  pub decode : Bytes → Text
  pub json_parse : Text → Option Value
  pub json_stringify : Value → Text

-- `ARGON2ID_V3_POLICY` and the other limits of argon2-policy.ts.
abbrev pub max_plaintext_bytes : ℕ
max_plaintext_bytes = 1048576

abbrev pub aead_tag_bytes : ℕ
aead_tag_bytes = 16

abbrev pub max_ciphertext_bytes : ℕ
max_ciphertext_bytes = max_plaintext_bytes + aead_tag_bytes

-- `Math.ceil((MAX_CIPHERTEXT_BYTES * 4) / 3)`.
abbrev pub max_ciphertext_characters : ℕ
max_ciphertext_characters = (max_ciphertext_bytes * 4 + 2) / 3

abbrev pub max_envelope_characters : ℕ
max_envelope_characters = max_ciphertext_characters + 2048

abbrev pub policy_ops_limit : ℕ
policy_ops_limit = 2

abbrev pub policy_mem_limit : ℕ
policy_mem_limit = 67108864

abbrev pub policy_salt_bytes : ℕ
policy_salt_bytes = 16

abbrev pub policy_nonce_bytes : ℕ
policy_nonce_bytes = 24

abbrev pub max_verifier_characters : ℕ
max_verifier_characters = 127

-- `LEGACY_XOR_ENVELOPE_POLICY.saltBase64Characters`.
abbrev pub legacy_salt_characters : ℕ
legacy_salt_characters = 16

-- `4 * Math.ceil(MAX_PLAINTEXT_BYTES / 3)`.
abbrev pub max_legacy_payload_characters : ℕ
max_legacy_payload_characters = 4 * ((max_plaintext_bytes + 2) / 3)

pub record PasswordDerivedCiphertext : Type 0 where
  pub cipher : Text
  pub purpose : Text
  pub encrypted_payload : Text
  pub nonce : Text
  pub salt : Text
  pub ops_limit : Number
  pub mem_limit : Number
  pub key_derivation : Text
