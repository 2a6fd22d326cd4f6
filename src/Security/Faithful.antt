-- ===== src/Security/Faithful.antt =====
-- The package as the extension's unlock session uses it (background/unlock-session.ts).
use unuvault.Security.Streams.{hash_to_hex}
use unuvault.Extension.Unlock.Safety.{IsFaithful}
use unuvault.Prelude.Regexes.{matches}
use unuvault.Values.{text_of, same_key, descriptor, Value}
use unuvault.Security.Policy.{is_pinned_argon2id_verifier_syntax, runtime_matches_argon2_policy}
use unuvault.Security.Verifier.{
  verify_parsed, upgrade, legacy, MasterPasswordVerifier, secure_verifier, verify_master_password,
  create_master_password_verifier, parse_stored_master_password_verifier,
}
use unuvault.Security.Sealing.{verify_password_hash, create_password_hash}
use unuvault.Extension.Unlock.{Verification, Crypto}
use unuvault.Security.{policy_mem_limit, policy_ops_limit, Platform, Sodium}
use unuvault.Security.Pinned.{IsArgon2idString, pinned}
use unuvault.Prelude.{
  codes, ◌++◌, inr, inl, Bool-cases, ◌∙◌, sym, arith, ap, text_eq, is_empty, Text, Result, Option,
  true, false, none, some, ok, err, ◌≡◌, refl, [], ◌∷◌,
}
use unuvault.Extension.{Rejection, rejected}
use unuvault.Security.Verifier.{secure}
use unuvault.Security.Envelope.{
  legacy, is_passphrase_protected_vault_password, open_stored_vault_password,
}
use unuvault.Prelude.Options.{bind-some_inv, guard-some_inv}

abbrev promise : {A : Type 0} → Option A → Result Rejection A
promise (some a) = ok a
promise none = err rejected

-- What unlock-session.ts imports of the package.
abbrev pub security_crypto : Sodium → Platform → Crypto Value
security_crypto sodium platform = record {
  create_master_password_verifier =
      λ p. promise (create_master_password_verifier sodium platform p);
  verify_master_password = λ v p. promise (verify_master_password sodium platform v p);
  is_passphrase_protected = λ c. is_passphrase_protected_vault_password platform c;
  open_stored_vault_password = λ c p. ok (open_stored_vault_password sodium platform c p);
}

-- libsodium: what `crypto_pwhash_str` gives for 2 operations and 64 MiB is an Argon2id string of the
-- documented form, and `crypto_pwhash_str_verify` accepts it for its password.
pub record HashesVerify (sodium : Sodium) (platform : Platform) : Type 0 where
  pub prints : (p h : Text) → sodium.pwhash_str p 2 67108864 ≡ some h → IsArgon2idString platform h
  pub verifies :
      (p h : Text)
      → sodium.pwhash_str p 2 67108864 ≡ some h
      → sodium.pwhash_str_verify h p ≡ some true

runtime_matches_sound :
    (sodium : Sodium)
    → runtime_matches_argon2_policy sodium ≡ true
    → (sodium.opslimit_interactive ≡ policy_ops_limit)
      × (sodium.memlimit_interactive ≡ policy_mem_limit)
unfolding runtime_matches_argon2_policy
runtime_matches_sound sodium h = (ground (arith, h), ground (arith, h))

is_pinned-not_empty :
    (platform : Platform) (h : Text)
    → is_pinned_argon2id_verifier_syntax platform h ≡ true
    → is_empty h ≡ false
unfolding is_pinned_argon2id_verifier_syntax matches
is_pinned-not_empty platform [] e = absurd (ground (arith, e))
is_pinned-not_empty platform (c ∷ s) e = refl

module _ (sodium : Sodium) (platform : Platform) (law : HashesVerify sodium platform) where
  create_password_hash_sound :
      (p h : Text)
      → create_password_hash sodium p ≡ some h
      → (runtime_matches_argon2_policy sodium ≡ true)
        × (sodium.pwhash_str p policy_ops_limit policy_mem_limit ≡ some h)
  unfolding create_password_hash
  create_password_hash_sound p h e =
      let (runtime, made) = guard-some_inv (runtime_matches_argon2_policy sodium) _ h e in
      let (ops, mem) = runtime_matches_sound sodium runtime in
      (
        runtime,
        ap (λ o. sodium.pwhash_str p o policy_mem_limit) (sym ops)
            ∙ (ap (λ m. sodium.pwhash_str p sodium.opslimit_interactive m) (sym mem) ∙ made),
      )

  -- A hash that is made accepts its password.
  verify_password_hash-created :
      (p h : Text)
      → is_empty p ≡ false
      → create_password_hash sodium p ≡ some h
      → verify_password_hash sodium platform h p ≡ true
  unfolding verify_password_hash
  verify_password_hash-created p h full e =
      let (runtime, made) = create_password_hash_sound p h e in
      let is_pinned = pinned platform h (law.prints p h made) in
      rw (is_pinned-not_empty platform h is_pinned, full, runtime, is_pinned, law.verifies p h made)
        refl

  parse_stored-secure_verifier :
      (h : Text)
      → is_pinned_argon2id_verifier_syntax platform h ≡ true
      → parse_stored_master_password_verifier platform (secure_verifier sodium platform h)
        ≡ some (secure h)
  unfolding parse_stored_master_password_verifier descriptor same_key text_eq text_of
  parse_stored-secure_verifier h accepted' = rw accepted' refl

  abbrev accepted : Verification Value
  accepted = record { success = true; upgraded_verifier = none }

  -- A verifier that is made for a password that is not empty accepts it.
  verify-created :
      (p : Text) (v : Value)
      → is_empty p ≡ false
      → create_master_password_verifier sodium platform p ≡ some v
      → verify_master_password sodium platform v p ≡ some accepted
  unfolding verify_master_password create_master_password_verifier
  verify-created p v full e =
      let (h, made, same) = bind-some_inv (create_password_hash sodium p) _ v e in
      let (_, at_policy) = create_password_hash_sound p h made in
      let is_v : v ≡ secure_verifier sodium platform h = ground (arith, same) in
      rw
        (
          is_v,
          full,
          parse_stored-secure_verifier h (pinned platform h (law.prints p h at_policy)),
          verify_password_hash-created p h full made,
        )
        refl

  promise-ok : {A : Type 0} (o : Option A) (a : A) → promise o ≡ ok a → o ≡ some a
  promise-ok none a h = absurd (ground arith)
  promise-ok (some b) a h = ground arith

  upgrade-made :
      (p : Text) (w : Value) (r : Verification Value)
      → upgrade sodium platform p ≡ some r
      → r.upgraded_verifier ≡ some w
      → create_master_password_verifier sodium platform p ≡ some w
  upgrade-made p w r h up =
      let (v, made, same) =
        bind-some_inv (create_master_password_verifier sodium platform p) _ r h in
      let is_w : v ≡ w = ground (arith, same, up) in made ∙ ap (λ x. some x) is_w

  verify_parsed-upgraded :
      (p : Text) (w : Value) (r : Verification Value) (o : Option MasterPasswordVerifier)
      → verify_parsed sodium platform o p ≡ some r
      → r.upgraded_verifier ≡ some w
      → create_master_password_verifier sodium platform p ≡ some w
  verify_parsed-upgraded p w r none h up = absurd (ground (arith, h, up))
  verify_parsed-upgraded p w r (some (secure password_hash)) h up = absurd (ground (arith, h, up))
  verify_parsed-upgraded p w r (some (legacy salt check)) h up =
      elim (Bool-cases (text_eq (hash_to_hex platform (p ++ codes ":" ++ salt)) check)) [
        | inl y ↦ upgrade-made p w r (rw y at h) up
        | inr n ↦ let refused = rw n at h in absurd (ground (arith, refused, up))
      ]

  -- An upgraded verifier is one that was made for the password that was checked.
  verify-upgraded :
      (p : Text) (v w : Value) (r : Verification Value)
      → verify_master_password sodium platform v p ≡ some r
      → r.upgraded_verifier ≡ some w
      → (is_empty p ≡ false) × (create_master_password_verifier sodium platform p ≡ some w)
  unfolding verify_master_password
  verify-upgraded p v w r h up = elim (Bool-cases (is_empty p)) [
    | inl y ↦ let refused = rw y at h in absurd (ground (arith, refused, up))
    | inr full ↦ (
      full,
      verify_parsed-upgraded p w r (parse_stored_master_password_verifier platform v) (rw full at h)
          up,
    )
  ]

  -- Given what libsodium documents of its password hashes, namely the form of their strings and that they
  -- verify, the package keeps what the unlock session expects of it: a verifier made for a password that is not empty accepts it, and an upgraded
  -- verifier accepts the password that was checked.
  pub security_crypto-IsFaithful : IsFaithful (security_crypto sodium platform)
  security_crypto-IsFaithful = record {
    created =
        λ p v full e. (accepted, ap promise (verify-created p v full (promise-ok _ v e)), refl);
    upgraded = λ p v w r e success up.
        let (full, made) = verify-upgraded p v w r (promise-ok _ r e) up in
        (accepted, ap promise (verify-created p w full made), refl);
  }
