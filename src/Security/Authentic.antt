-- ===== src/Security/Authentic.antt =====
-- Which checks a text has passed that a stored envelope opens to (packages/security/src).
use unuvault.Values.{Value}
use unuvault.Security.Policy.{is_supported_password_derived_ciphertext}
use unuvault.Security.Streams.{tagged_or_blank, if_tagged, hash_to_hex, open_legacy}
use unuvault.Security.Sealing.{or_blank_text, try_open, is_openable, open_with_password}
use unuvault.Security.{Bytes, PasswordDerivedCiphertext, Sodium, Platform}
use unuvault.Prelude.{
  ◌∙◌, sym, inr, text_eq_iff, arith, text_eq, inl, if◌then◌else◌, codes, Bool-cases, ◌++◌, Option,
  Bool, is_empty, Text, true, false, none, some, ◌≡◌, refl, [],
}
use unuvault.Prelude.Options.{◌>>=◌}
use unuvault.Security.Envelope.{
  envelope_of, parse_vault_envelope, open_vault_password, open_envelope, VaultEnvelope, secure,
  legacy, xor_stream,
}

blank_unless_sound :
    (b : Bool) (t : Text)
    → is_empty (if b then [] else t) ≡ false
    → (b ≡ false) × ((if b then [] else t) ≡ t) × (is_empty t ≡ false)
blank_unless_sound true t h = absurd (ground (arith, h))
blank_unless_sound false t h = (refl, refl, h)

module _ (sodium : Sodium) where
  -- The envelope is of the policy, and its ciphertext, decrypted with the key of the password and
  -- checked against its tag, gave the text.
  abbrev pub Decrypts : PasswordDerivedCiphertext → (password opened : Text) → Type 0
  Decrypts sealed password opened =
      (is_empty password ≡ false)
      × (is_supported_password_derived_ciphertext sodium sealed ≡ true)
      × (try_open sodium sealed password ≡ some opened)

  open_with_password_sound :
      (sealed : PasswordDerivedCiphertext) (password : Text)
      → is_empty (open_with_password sodium sealed password) ≡ false
      → Decrypts sealed password (open_with_password sodium sealed password)
  unfolding open_with_password
  open_with_password_sound sealed password h =
      checked (is_openable sodium sealed password) refl (try_open sodium sealed password) refl h
    where
      checked :
          (openable : Bool)
          → is_openable sodium sealed password ≡ openable
          → (opened : Option Text) → try_open sodium sealed password ≡ opened
          → is_empty (if openable then or_blank_text sodium opened else []) ≡ false
          → Decrypts sealed password (if openable then or_blank_text sodium opened else [])
      checked true e (some t) e' k = (ground (arith, e), ground (arith, e), e')
      checked true e none e' k = absurd (ground (arith, k))
      checked false e opened e' k = absurd (ground (arith, k))

module _ (platform : Platform) where
  -- The tag of the legacy stream is the hash of the text, the password and the salt.
  abbrev pub IsTagged : (salt tag password opened : Text) → Type 0
  IsTagged salt tag password opened =
      hash_to_hex platform (opened ++ codes ":" ++ password ++ codes ":" ++ salt) ≡ tag

  if_tagged_sound :
      (password salt tag opened : Text)
      → is_empty (if_tagged platform password salt tag opened) ≡ false
      → IsTagged salt tag password (if_tagged platform password salt tag opened)
  if_tagged_sound password salt tag opened h =
      elim (Bool-cases (
        text_eq (hash_to_hex platform (opened ++ codes ":" ++ password ++ codes ":" ++ salt))
          tag)) [
            | inl y ↦ rw y ((text_eq_iff _ tag).0 y)
            | inr n ↦ absurd (ground (arith, rw n at h))
          ]

  open_legacy_sound :
      (payload salt tag password : Text)
      → is_empty (open_legacy platform payload salt tag password) ≡ false
      → IsTagged salt tag password (open_legacy platform payload salt tag password)
  unfolding open_legacy
  open_legacy_sound payload salt tag password h = decoded (platform.atob payload) h
    where
      decoded :
          (bytes : Option Bytes)
          → is_empty (tagged_or_blank platform password salt tag bytes) ≡ false
          → IsTagged salt tag password (tagged_or_blank platform password salt tag bytes)
      decoded none k = absurd (ground (arith, k))
      decoded (some bytes) k = if_tagged_sound password salt tag _ k

module _ (sodium : Sodium) (platform : Platform) where
  -- Version 1 is the password itself; version 3 is decrypted, and version 2 has its tag.
  abbrev pub Authentic : VaultEnvelope → (passphrase opened : Text) → Type 0
  Authentic (legacy payload) passphrase opened = opened ≡ payload
  Authentic (secure sealed) passphrase opened = Decrypts sodium sealed passphrase opened
  Authentic (xor_stream payload salt tag) passphrase opened =
      (is_empty passphrase ≡ false) × IsTagged platform salt tag passphrase opened

  open_envelope_sound :
      (envelope : VaultEnvelope) (passphrase : Text)
      → is_empty (open_envelope sodium platform (some envelope) passphrase) ≡ false
      → Authentic envelope passphrase (open_envelope sodium platform (some envelope) passphrase)
  open_envelope_sound (legacy payload) passphrase h = refl
  open_envelope_sound (secure sealed) passphrase h =
      let (full, same, opens) = blank_unless_sound (is_empty passphrase) _ h in
      rw same (open_with_password_sound sodium sealed passphrase opens)
  open_envelope_sound (xor_stream payload salt tag) passphrase h =
      let (full, same, opens) = blank_unless_sound (is_empty passphrase) _ h in
      rw same (full, open_legacy_sound platform payload salt tag passphrase opens)

  -- Where a stored envelope opens to a text that is not empty, it parses to an object of a known
  -- version, and: version 1 holds that very text; version 3 is of the Argon2 policy and was decrypted,
  -- tag checked, with the key of the passphrase; the tag of version 2 is the hash of text, passphrase
  -- and salt. In the last two cases the passphrase is not empty.
  pub open_vault_password_sound :
      (ciphertext passphrase opened : Text)
      → open_vault_password sodium platform ciphertext passphrase ≡ opened
      → is_empty opened ≡ false
      → (parsed : Value) × (envelope : VaultEnvelope) × (parse_vault_envelope platform ciphertext
          ≡ some parsed)
        × (envelope_of parsed ≡ some envelope)
        × Authentic envelope passphrase opened
  unfolding open_vault_password
  open_vault_password_sound ciphertext passphrase opened e h =
      let (full, same, opens) = blank_unless_sound (is_empty ciphertext) _ (rw e h) in
      found (parse_vault_envelope platform ciphertext) refl (sym same ∙ e) opens
    where
      in_envelope :
          (parsed : Value) (o : Option VaultEnvelope)
          → envelope_of parsed ≡ o
          → open_envelope sodium platform o passphrase ≡ opened
          → is_empty (open_envelope sodium platform o passphrase) ≡ false
          → (envelope : VaultEnvelope) × (envelope_of parsed ≡ some envelope)
            × Authentic envelope passphrase opened
      in_envelope parsed none q e' k = absurd (ground (arith, k))
      in_envelope parsed (some envelope) q e' k =
          (envelope, q, rw e' at (open_envelope_sound envelope passphrase k))

      found :
          (o : Option Value)
          → parse_vault_envelope platform ciphertext ≡ o
          → open_envelope sodium platform (o >>= envelope_of) passphrase ≡ opened
          → is_empty (open_envelope sodium platform (o >>= envelope_of) passphrase) ≡ false
          → (parsed : Value) × (envelope : VaultEnvelope) × (parse_vault_envelope platform
                ciphertext
              ≡ some parsed)
            × (envelope_of parsed ≡ some envelope)
            × Authentic envelope passphrase opened
      found none q e' k = absurd (ground (arith, k))
      found (some parsed) q e' k =
          let (envelope, is_envelope, authentic) =
            in_envelope parsed (envelope_of parsed) refl e' k in
          (parsed, envelope, q, is_envelope, authentic)
