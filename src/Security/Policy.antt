-- ===== src/Security/Policy.antt =====
-- packages/security/src/argon2-policy.ts: which envelopes and verifiers are supported; and the actions of
-- risk-actions.ts and unlock-policy.ts.
use mathlib.Core.List.{reverse}
use unuvault.Import.Analysis.{utf8_byte_length}
use unuvault.Values.{other, negative, whole, Number}
use unuvault.Security.{
  max_plaintext_bytes, max_legacy_payload_characters, legacy_salt_characters, max_ciphertext_bytes,
  aead_tag_bytes, policy_nonce_bytes, max_ciphertext_characters, policy_salt_bytes,
  policy_mem_limit, max_verifier_characters, policy_ops_limit, PasswordDerivedCiphertext, Bytes,
  Sodium, Platform,
}
use unuvault.Prelude.Regexes.{char, matches, either, optional, star, times, set, seq, plus, Regex}
use unuvault.Prelude.{
  List, zero, suc, ◌*◌, ◌%◌, ◌/◌, ◌-◌, is_empty, every, ◌==◌, ◌++◌, text_eq, strip_prefix, not,
  length, leb, exists, codes, if◌then◌else◌, Option, Bool, ℕ, Text, false, none, some, ◌&&◌, ◌||◌,
  [], ◌∷◌,
}
use unuvault.Prelude.Options.{◌>>=◌, ◌>>◌, guard}

abbrev high_risk_actions : List Text
high_risk_actions =
    codes "vault_export" ∷ codes "revoke_device" ∷ codes "change_primary_password" ∷ []

unfoldable pub is_high_risk_action : Text → Bool
is_high_risk_action action = exists (λ a. text_eq a action) high_risk_actions

abbrev should_require_primary_password : Text → Bool
should_require_primary_password action = is_high_risk_action action

abbrev is_alphanumeric : ℕ → Bool
is_alphanumeric c = (leb 65 c && leb c 90) || (leb 97 c && leb c 122) || (leb 48 c && leb c 57)

-- `[A-Za-z0-9_-]` and `[A-Za-z0-9+/]`.
abbrev pub is_base64url_unit : ℕ → Bool
is_base64url_unit c = is_alphanumeric c || c == 95 || c == 45

abbrev pub is_base64_unit : ℕ → Bool
is_base64_unit c = is_alphanumeric c || c == 43 || c == 47

abbrev one_of : Text → Regex
one_of units = set (λ c. exists (λ u. u == c) units)

abbrev pub base64url : Regex
base64url = plus (set is_base64url_unit)

abbrev legacy_base64 : Regex
legacy_base64 = seq (star (times 4 (set is_base64_unit))) (
    optional (
      either (seq (set is_base64_unit) (seq (one_of (codes "AQgw")) (times 2 (char 61))))
        (seq (times 2 (set is_base64_unit)) (seq (one_of (codes "AEIMQUYcgkosw048")) (char 61)))))

abbrev pub legacy_tag_hex : Regex
legacy_tag_hex = times 8 (set (λ c. (leb 48 c && leb c 57) || (leb 97 c && leb c 102)))

-- The number of `=` at the end, as far as two.
abbrev padding_of : Text → ℕ
padding_of reversed = elim reversed [
  | [] ↦ 0
  | c ∷ rest ↦ elim rest [
    | [] ↦ if c == 61 then 1 else 0
    | d ∷ more ↦ if c == 61 then (if d == 61 then 2 else 1) else 0
  ]
]

unfoldable pub is_supported_legacy_xor_envelope : (encrypted_payload salt tag : Text) → Bool
is_supported_legacy_xor_envelope encrypted_payload salt tag =
    let payload_bytes = length encrypted_payload / 4 * 3 - padding_of (reverse encrypted_payload) in
    length salt == legacy_salt_characters
    && matches (plus (set is_base64_unit)) salt
    && leb (length encrypted_payload) max_legacy_payload_characters
    && length encrypted_payload % 4 == 0
    && matches legacy_base64 encrypted_payload
    && leb payload_bytes max_plaintext_bytes
    && matches legacy_tag_hex tag

module _ (platform : Platform) where
  -- `=`, as often as `(4 - (value.length % 4)) % 4` says.
  abbrev pub padding : ℕ → Text
  padding zero = []
  padding (suc n) = 61 ∷ padding n

  -- `.replace(/=+$/u, "")`.
  unfoldable pub drop_equals : Text → Text
  drop_equals [] = []
  drop_equals (c ∷ s) = let rest = drop_equals s in if c == 61 then rest else c ∷ s

  abbrev pub without_padding : Text → Text
  without_padding value = reverse (drop_equals (reverse value))

  abbrev same_again : Option Text → Text → Bool
  same_again none value = false
  same_again (some encoded) value = text_eq (without_padding encoded) value

  unfoldable pub is_canonical_original_no_padding : Text → Bool
  unfolding drop_equals
  is_canonical_original_no_padding value =
      same_again (platform.atob (value ++ padding ((4 - length value % 4) % 4)) >>= platform.btoa)
        value

  abbrev is_digit : ℕ → Bool
  is_digit c = leb 48 c && leb c 57

  -- The digits at the front, and the rest.
  span_digits : Text → Text × Text
  span_digits [] = ([], [])
  span_digits (c ∷ s) =
      let (digits, rest) = span_digits s in if is_digit c then (c ∷ digits, rest) else ([], c ∷ s)

  -- The first `n` code units, if there are so many, and the rest.
  unfoldable pub split_at : ℕ → Text → Option (Text × Text)
  split_at zero s = some ([], s)
  split_at (suc n) [] = none
  split_at (suc n) (c ∷ s) = split_at n s >>= λ parts. some (c ∷ parts.0, parts.1)

  -- A group `([0-9]+)` after a literal, with the rest.
  abbrev number_after : Text → Text → Option (Text × Text)
  number_after literal s = do
    rest ← strip_prefix literal s
    guard (not (is_empty (span_digits rest).0))
    some (span_digits rest)

  abbrev base64_after : Text → ℕ → Text → Option (Text × Text)
  base64_after literal n s = do
    rest ← strip_prefix literal s
    parts ← split_at n rest
    guard (every is_base64_unit parts.0)
    some parts

  -- The groups of `ARGON2ID_VERIFIER`, in order.
  pub record VerifierGroups : Type 0 where
    pub version : Text
    pub memory : Text
    pub iterations : Text
    pub parallelism : Text
    pub salt : Text
    pub hash : Text

  unfoldable pub verifier_groups : Text → Option VerifierGroups
  unfolding span_digits split_at
  verifier_groups value = do
    a ← number_after (codes "$argon2id$v=") value
    b ← number_after (codes "$m=") a.1
    c ← number_after (codes ",t=") b.1
    d ← number_after (codes ",p=") c.1
    e ← base64_after (codes "$") 22 d.1
    f ← base64_after (codes "$") 43 e.1
    guard (is_empty f.1)
    some (record {
      version = a.0;
      memory = b.0;
      iterations = c.0;
      parallelism = d.0;
      salt = e.0;
      hash = f.0;
    })

  abbrev is_pinned : Option VerifierGroups → Bool
  is_pinned none = false
  is_pinned (some groups) =
      text_eq groups.version (codes "19")
      && text_eq groups.memory (codes "65536")
      && text_eq groups.iterations (codes "2")
      && text_eq groups.parallelism (codes "1")
      && is_canonical_original_no_padding groups.salt
      && is_canonical_original_no_padding groups.hash

  unfoldable pub is_pinned_argon2id_verifier_syntax : Text → Bool
  is_pinned_argon2id_verifier_syntax value =
      leb (length value) max_verifier_characters
      && matches (plus (set (λ c. leb 32 c && leb c 126))) value
      && is_pinned (verifier_groups value)

module _ (sodium : Sodium) where
  unfoldable pub runtime_matches_argon2_policy : Bool
  runtime_matches_argon2_policy =
      sodium.opslimit_interactive == policy_ops_limit
      && sodium.memlimit_interactive == policy_mem_limit
      && sodium.salt_bytes == policy_salt_bytes
      && sodium.npub_bytes == policy_nonce_bytes
      && sodium.a_bytes == aead_tag_bytes
      && sodium.str_bytes - 1 == max_verifier_characters
      && text_eq sodium.str_prefix (codes "$argon2id$")
      && sodium.alg_default == sodium.alg_argon2id13

  abbrev pub same_bytes : Text → Bytes → Option Bytes
  same_bytes value decoded = if text_eq (sodium.to_base64 decoded) value then some decoded else none

  unfoldable pub decode_canonical_base64url : Text → Option Bytes
  decode_canonical_base64url value =
      guard (not (is_empty value) && matches base64url value && not (exists (λ c. c == 61) value))
      >> (sodium.from_base64 value >>= same_bytes value)

  abbrev pub is_number : ℕ → Number → Bool
  is_number expected (whole n) = n == expected
  is_number expected (negative n) = false
  is_number expected other = false

  abbrev pub has_length : (ℕ → Bool) → Option Bytes → Bool
  has_length t none = false
  has_length t (some bytes) = t (length bytes)

  unfoldable pub is_supported_password_derived_ciphertext : PasswordDerivedCiphertext → Bool
  unfolding runtime_matches_argon2_policy decode_canonical_base64url
  is_supported_password_derived_ciphertext value =
      runtime_matches_argon2_policy
      && is_number policy_ops_limit value.ops_limit
      && is_number policy_mem_limit value.mem_limit
      && not (is_empty value.purpose)
      && leb (utf8_byte_length value.purpose) 128
      && length value.salt == 22
      && length value.nonce == 32
      && leb 22 (length value.encrypted_payload)
      && leb (length value.encrypted_payload) max_ciphertext_characters
      && has_length (λ n. n == policy_salt_bytes) (decode_canonical_base64url value.salt)
      && has_length (λ n. n == policy_nonce_bytes) (decode_canonical_base64url value.nonce)
      && has_length (λ n. leb aead_tag_bytes n && leb n max_ciphertext_bytes)
          (decode_canonical_base64url value.encrypted_payload)
