-- ===== src/Security/Roundtrip.antt =====
-- What is sealed with a password can be opened with it (packages/security/src/sodium.ts).
use unuvault.Values.{whole}
use unuvault.Prelude.Options.{bind-some_inv, guard-some_inv}
use unuvault.Security.Sealing.{
  pwhash_algorithm, aead_cipher, open_with_password, sealed_with, seal_with_password,
}
use unuvault.Prelude.Regexes.{more, matches_iff, done, set, plus, Lang, matches, Star}
use unuvault.Security.Policy.{
  runtime_matches_argon2_policy, is_supported_password_derived_ciphertext, is_base64url_unit,
  decode_canonical_base64url,
}
use unuvault.Import.Analysis.{utf8_byte_length, is_low, is_high}
use unuvault.Security.{
  max_ciphertext_bytes, aead_tag_bytes, policy_nonce_bytes, policy_salt_bytes, policy_mem_limit,
  policy_ops_limit, max_ciphertext_characters, max_plaintext_bytes, PasswordDerivedCiphertext,
  Bytes, Sodium,
}
use unuvault.Prelude.{
  leb, and-eq-true_split, ◌==◌, ◌/◌, text_eq_self, exists, ◌*◌, if◌then◌else◌, arith, length,
  is_empty, every, ℕ, Text, Bool, true, false, some, ◌≡◌, refl, [], ◌∷◌, ◌&&◌, not, ◌+◌, ◌≤◌,
}

-- `String.prototype.isWellFormed`: no surrogate stands alone. `open` says that a high one is before.
well_formed_after : Bool → Text → Bool
well_formed_after open' [] = not open'
well_formed_after open' (c ∷ s) =
    let next = well_formed_after (is_high c) s in
    if is_low c then open' && next else not open' && next

unfoldable pub is_well_formed : Text → Bool
unfolding well_formed_after
is_well_formed value = well_formed_after false value

-- What the decoder of UTF-8 gives for the bytes of a well-formed text: a byte order mark at the start
-- is dropped.
abbrev pub decoded : Text → Text
decoded [] = []
decoded (c ∷ s) = if c == 0xfeff then s else c ∷ s

-- Base64 of some bytes, which is `size` characters long.
pub record Encoded (sodium : Sodium) (bytes : Bytes) (size : ℕ) : Type 0 where
  pub reads_back : sodium.from_base64 (sodium.to_base64 bytes) ≡ some bytes
  pub alphabet : every is_base64url_unit (sodium.to_base64 bytes) ≡ true
  pub has_size : length (sodium.to_base64 bytes) ≡ size

-- libsodium: random bytes come in the number asked for; URL-safe Base64 without padding can be decoded,
-- and has four characters for three bytes; a ciphertext has a tag of 16 bytes more than the UTF-8 of
-- its plaintext, and it decrypts to what `TextDecoder` makes of these bytes: the plaintext, where that is
-- well-formed, without a byte order mark at its start.
pub record IsLibsodium (sodium : Sodium) (salt nonce : Bytes) : Type 0 where
  pub salt_length : length salt ≡ sodium.salt_bytes
  pub nonce_length : length nonce ≡ sodium.npub_bytes
  pub salt_encoded : Encoded sodium salt ((length salt * 4 + 2) / 3)
  pub nonce_encoded : Encoded sodium nonce ((length nonce * 4 + 2) / 3)
  pub encrypts :
      (plaintext purpose : Text) (key encrypted : Bytes)
      → sodium.encrypt plaintext purpose nonce key ≡ some encrypted
      → (length encrypted ≡ utf8_byte_length plaintext + 16)
        × Encoded sodium encrypted ((length encrypted * 4 + 2) / 3)
        × (is_well_formed plaintext ≡ true
            → sodium.decrypt encrypted purpose nonce key ≡ some (decoded plaintext))

every-Star : (p : ℕ → Bool) (s : Text) → every p s ≡ true → Star (Lang (set p)) s
every-Star p [] h = done
every-Star p (c ∷ s) h =
    let (first, rest) = and-eq-true_split (p c) (every p s) h in
    more (c ∷ []) s refl (c, refl, first) (every-Star p s rest)

pub matches-plus_set :
    (p : ℕ → Bool) (s : Text)
    → is_empty s ≡ false
    → every p s ≡ true
    → matches (plus (set p)) s ≡ true
matches-plus_set p [] full h = absurd (ground (arith, full))
matches-plus_set p (c ∷ s) full h =
    let (first, rest) = and-eq-true_split (p c) (every p s) h in
    (matches_iff (plus (set p)) (c ∷ s)).1 (c ∷ [], s, refl, (c, refl, first), every-Star p s rest)

no_equals : (s : Text) → every is_base64url_unit s ≡ true → exists (λ c. c == 61) s ≡ false
no_equals [] h = refl
no_equals (c ∷ s) h =
    let (first, rest) = and-eq-true_split (is_base64url_unit c) (every is_base64url_unit s) h in
    let other : (c == 61) ≡ false = ground (arith, first) in rw other (no_equals s rest)

length-not_empty : (s : Text) → 1 ≤ length s → is_empty s ≡ false
length-not_empty [] h = absurd (omega (arith, h))
length-not_empty (c ∷ s) h = refl

module _ (sodium : Sodium) where
  Encoded-decode :
      (bytes : Bytes) (size : ℕ)
      → 1 ≤ size
      → Encoded sodium bytes size
      → decode_canonical_base64url sodium (sodium.to_base64 bytes) ≡ some bytes
  unfolding decode_canonical_base64url
  Encoded-decode bytes size some_size i =
      let full = length-not_empty (sodium.to_base64 bytes) (omega (arith, i.has_size, some_size)) in
      rw
        (
          full,
          matches-plus_set is_base64url_unit (sodium.to_base64 bytes) full i.alphabet,
          no_equals (sodium.to_base64 bytes) i.alphabet,
          i.reads_back,
          text_eq_self (sodium.to_base64 bytes),
        )
        refl

runtime_matches_sizes :
    (sodium : Sodium)
    → runtime_matches_argon2_policy sodium ≡ true
    → (sodium.opslimit_interactive ≡ 2)
      × (sodium.memlimit_interactive ≡ 67108864)
      × (sodium.salt_bytes ≡ 16)
      × (sodium.npub_bytes ≡ 24)
unfolding runtime_matches_argon2_policy
runtime_matches_sizes sodium h =
    (ground (arith, h), ground (arith, h), ground (arith, h), ground (arith, h))

module _ (sodium : Sodium) (salt nonce : Bytes) (law : IsLibsodium sodium salt nonce) where
  -- What sealing checks and computes.
  pub record Sealed (plaintext password purpose : Text) (sealed : PasswordDerivedCiphertext)
      : Type 0 where
    pub has_password : is_empty password ≡ false
    pub has_purpose : is_empty purpose ≡ false
    pub short_purpose : utf8_byte_length purpose ≤ 128
    pub short_plaintext : utf8_byte_length plaintext ≤ max_plaintext_bytes
    pub runtime : runtime_matches_argon2_policy sodium ≡ true
    pub key : Bytes
    pub derived :
        sodium.pwhash sodium.key_bytes password salt
          (whole sodium.opslimit_interactive)
          (whole sodium.memlimit_interactive)
          sodium.alg_argon2id13
        ≡ some key
    pub encrypted : Bytes
    pub encrypts : sodium.encrypt plaintext purpose nonce key ≡ some encrypted
    pub is_sealed : sealed ≡ sealed_with sodium purpose salt nonce encrypted

  pub seal_with_password_sound :
      (plaintext password purpose : Text) (sealed : PasswordDerivedCiphertext)
      → seal_with_password sodium salt nonce plaintext password purpose ≡ some sealed
      → Sealed plaintext password purpose sealed
  unfolding seal_with_password
  seal_with_password_sound plaintext password purpose sealed h =
      let (g1, h1) = guard-some_inv (not (is_empty password)) _ sealed h in
      let (g2, h2) = guard-some_inv (not (is_empty purpose)) _ sealed h1 in
      let (g3, h3) = guard-some_inv (leb (utf8_byte_length purpose) 128) _ sealed h2 in
      let (g4, h4) =
        guard-some_inv (leb (utf8_byte_length plaintext) max_plaintext_bytes) _ sealed h3 in
      let (g5, h5) = guard-some_inv (runtime_matches_argon2_policy sodium) _ sealed h4 in
      let (key, derived, h6) =
        bind-some_inv
          (sodium.pwhash sodium.key_bytes password salt (whole sodium.opslimit_interactive)
            (whole sodium.memlimit_interactive) sodium.alg_argon2id13)
          _ sealed h5 in
      let (encrypted, made, h7) =
        bind-some_inv (sodium.encrypt plaintext purpose nonce key) _ sealed h6 in
      record {
        has_password = ground (arith, g1);
        has_purpose = ground (arith, g2);
        short_purpose = ground (arith, g3);
        short_plaintext = ground (arith, g4);
        runtime = g5;
        key = key;
        derived = derived;
        encrypted = encrypted;
        encrypts = made;
        is_sealed = ground (arith, h7);
      }

  sealed_with-supported :
      (plaintext password purpose : Text) (sealed : PasswordDerivedCiphertext)
      (i : Sealed plaintext password purpose sealed)
      → is_supported_password_derived_ciphertext sodium
          (sealed_with sodium purpose salt nonce i.encrypted)
        ≡ true
  unfolding is_supported_password_derived_ciphertext
  sealed_with-supported plaintext password purpose sealed i =
      let (ops, mem, salts, nonces) = runtime_matches_sizes sodium i.runtime in
      let (size, coded, _) = law.encrypts plaintext purpose i.key i.encrypted i.encrypts in
      let salt_size : (length salt * 4 + 2) / 3 ≡ 22 = omega (arith, law.salt_length, salts) in
      let nonce_size : (length nonce * 4 + 2) / 3 ≡ 32 = omega (arith, law.nonce_length, nonces) in
      let salt_decoded = Encoded-decode sodium salt _ (omega (arith, salt_size)) law.salt_encoded in
      let nonce_decoded =
        Encoded-decode sodium nonce _ (omega (arith, nonce_size)) law.nonce_encoded in
      let decoded = Encoded-decode sodium i.encrypted _ (omega (arith, size)) coded in
      let at_salt : (length (sodium.to_base64 salt) == 22) ≡ true =
        ground (arith, law.salt_encoded.has_size, salt_size) in
      let at_nonce : (length (sodium.to_base64 nonce) == 32) ≡ true =
        ground (arith, law.nonce_encoded.has_size, nonce_size) in
      let long : leb 22 (length (sodium.to_base64 i.encrypted)) ≡ true =
        ground (arith, coded.has_size, size) in
      let short : leb (length (sodium.to_base64 i.encrypted)) max_ciphertext_characters ≡ true =
        ground (arith, coded.has_size, size, i.short_plaintext) in
      let purpose_fits : leb (utf8_byte_length purpose) 128 ≡ true =
        ground (arith, i.short_purpose) in
      let ops_is : (sodium.opslimit_interactive == policy_ops_limit) ≡ true = ground (arith, ops) in
      let mem_is : (sodium.memlimit_interactive == policy_mem_limit) ≡ true = ground (arith, mem) in
      let salt_is : (length salt == policy_salt_bytes) ≡ true =
        ground (arith, law.salt_length, salts) in
      let nonce_is : (length nonce == policy_nonce_bytes) ≡ true =
        ground (arith, law.nonce_length, nonces) in
      let low : leb aead_tag_bytes (length i.encrypted) ≡ true = ground (arith, size) in
      let high : leb (length i.encrypted) max_ciphertext_bytes ≡ true =
        ground (arith, size, i.short_plaintext) in
      rw
        (
          i.runtime, ops_is, mem_is, i.has_purpose, purpose_fits, at_salt, at_nonce, long, short,
          salt_decoded, nonce_decoded, decoded, salt_is, nonce_is, low, high,
        )
        refl

  -- A text that stands for at least one byte of Base64 is not empty.
  Encoded-not_empty :
      (bytes : Bytes) (size : ℕ)
      → 1 ≤ size
      → Encoded sodium bytes size
      → is_empty (sodium.to_base64 bytes) ≡ false
  Encoded-not_empty bytes size h i =
      length-not_empty (sodium.to_base64 bytes) (omega (arith, i.has_size, h))

  pub open_with_password-sealed_with :
      (plaintext password purpose : Text) (sealed : PasswordDerivedCiphertext)
      (i : Sealed plaintext password purpose sealed)
      → is_well_formed plaintext ≡ true
      → open_with_password sodium (sealed_with sodium purpose salt nonce i.encrypted) password
        ≡ decoded plaintext
  unfolding open_with_password
  open_with_password-sealed_with plaintext password purpose sealed i formed =
      let (ops, mem, salts, nonces) = runtime_matches_sizes sodium i.runtime in
      let (size, coded, decrypts) = law.encrypts plaintext purpose i.key i.encrypted i.encrypts in
      let has_salt =
        Encoded-not_empty salt _ (omega (arith, law.salt_length, salts)) law.salt_encoded in
      let has_nonce =
        Encoded-not_empty nonce _ (omega (arith, law.nonce_length, nonces)) law.nonce_encoded in
      let has_payload = Encoded-not_empty i.encrypted _ (omega (arith, size)) coded in
      rw
        (
          i.has_password,
          text_eq_self aead_cipher,
          text_eq_self pwhash_algorithm,
          i.has_purpose,
          has_payload,
          has_nonce,
          has_salt,
          sealed_with-supported plaintext password purpose sealed i,
          law.salt_encoded.reads_back,
          i.derived,
          coded.reads_back,
          law.nonce_encoded.reads_back,
          decrypts formed,
        )
        refl

  -- What `sealWithPassword` makes, `openWithPassword` opens to the plaintext, less a byte order mark at its start, with the same password.
  pub open_with_password-seal_with_password :
      (plaintext password purpose : Text) (sealed : PasswordDerivedCiphertext)
      → is_well_formed plaintext ≡ true
      → seal_with_password sodium salt nonce plaintext password purpose ≡ some sealed
      → open_with_password sodium sealed password ≡ decoded plaintext
  open_with_password-seal_with_password plaintext password purpose sealed formed h =
      let i = seal_with_password_sound plaintext password purpose sealed h in
      rw i.is_sealed (open_with_password-sealed_with plaintext password purpose sealed i formed)
