-- ===== src/Vault/Payload.antt =====
-- packages/api-client/src/login-payload.ts: what becomes of a stored payload.
use unuvault.Prelude.{
  refl, inr, inl, Option-cases, Bool-cases, ap, arith, strip_prefix, [], ◌==◌, ◌∷◌, ℕ, Bool, Option,
  none, some, ◌++◌, Text, codes, is_empty, trim, if◌then◌else◌, leb, ◌&&◌, ◌||◌, ◌≡◌, true, false,
}

-- The members of the stored value that are strings; a value that is no object has none.
pub record StoredPayload : Type 0 where
  pub username : Option Text
  pub password_ciphertext : Option Text
  pub notes : Option Text
  pub website_url : Option Text

pub record VaultLoginPayload : Type 0 where
  pub schema_version : ℕ
  pub username : Text
  pub password_ciphertext : Text
  pub notes : Text
  pub website_url : Text

abbrev is_letter : ℕ → Bool
is_letter c = (leb 65 c && leb c 90) || (leb 97 c && leb c 122)

abbrev is_scheme_char : ℕ → Bool
is_scheme_char c = is_letter c || (leb 48 c && leb c 57) || c == 43 || c == 45 || c == 46

-- The rest of `[a-zA-Z\d+\-.]*:\/\/`; the colon is no scheme character, so the star is greedy.
after_letter : Text → Bool
after_letter [] = false
after_letter (c ∷ s) =
    let rest = after_letter s in
    if is_scheme_char c
    then rest
    else elim (strip_prefix (codes "://") (c ∷ s)) [ some t ↦ true | none ↦ false ]

-- The test `/^[a-zA-Z][a-zA-Z\d+\-.]*:\/\//`.
unfoldable pub has_scheme : Text → Bool
unfolding after_letter
has_scheme [] = false
has_scheme (c ∷ s) = is_letter c && after_letter s

https-has_scheme : (rest : Text) → has_scheme (codes "https://" ++ rest) ≡ true
unfolding has_scheme strip_prefix
https-has_scheme rest = refl

-- `new URL(text)`, by its `toString()`.
module _ (new_url : Text → Option Text) where
  unfoldable pub parse_website_url : Text → Option Text
  unfolding has_scheme
  parse_website_url value =
      let trimmed_value = trim value in
      if is_empty trimmed_value
      then none
      else new_url
          (if has_scheme trimmed_value then trimmed_value else codes "https://" ++ trimmed_value)

  abbrev or_blank : Option Text → Text
  or_blank none = []
  or_blank (some t) = t

  unfoldable pub normalize_vault_website_url : Option Text → Text
  normalize_vault_website_url none = []
  normalize_vault_website_url (some value) = or_blank (parse_website_url value)

  unfoldable pub normalize_vault_login_payload : StoredPayload → VaultLoginPayload
  normalize_vault_login_payload value = record {
    schema_version = 1;
    username = or_blank value.username;
    password_ciphertext = or_blank value.password_ciphertext;
    notes = or_blank value.notes;
    website_url = normalize_vault_website_url value.website_url;
  }

  -- A normalised payload, stored and read again.
  abbrev pub stored : VaultLoginPayload → StoredPayload
  stored p = record {
    username = some p.username;
    password_ciphertext = some p.password_ciphertext;
    notes = some p.notes;
    website_url = some p.website_url;
  }

  -- WHATWG URL, for a text that starts with a scheme and `://`: its URL has a host, which may be empty, so
  -- it prints with a scheme and `://` again, without white space around it, and parses to itself.
  abbrev pub PrintsParse : Type 0
  PrintsParse =
      (text url : Text)
      → has_scheme text ≡ true
      → new_url text ≡ some url
      → (has_scheme url ≡ true) × (trim url ≡ url) × (new_url url ≡ some url)

  parse_again :
      (url : Text)
      → (has_scheme url ≡ true) × (trim url ≡ url) × (new_url url ≡ some url)
      → parse_website_url url ≡ some url
  unfolding parse_website_url
  parse_again [] (schemed, trimmed, parsed) = absurd (unfold has_scheme in ground arith)
  parse_again (c ∷ s) (schemed, trimmed, parsed) = rw (trimmed, schemed) parsed

  parse_law :
      (value url : Text)
      → PrintsParse
      → parse_website_url value ≡ some url
      → (has_scheme url ≡ true) × (trim url ≡ url) × (new_url url ≡ some url)
  unfolding parse_website_url
  parse_law value url law h = elim (Bool-cases (is_empty (trim value))) [
    | inl blank ↦ absurd (ground arith)
    | inr full ↦ elim (Bool-cases (has_scheme (trim value))) [
      | inl schemed ↦ law (trim value) url schemed (rw (full, schemed) at h)
      | inr bare ↦
          law (codes "https://" ++ trim value) url (https-has_scheme (trim value))
            (rw (full, bare) at h)
    ]
  ]

  parse_blank : parse_website_url [] ≡ none
  unfolding parse_website_url trim
  parse_blank = refl

  website_url_idem :
      (value : Option Text)
      → PrintsParse
      → normalize_vault_website_url (some (normalize_vault_website_url value))
        ≡ normalize_vault_website_url value
  unfolding normalize_vault_website_url
  website_url_idem none law = rw parse_blank refl
  website_url_idem (some value) law = elim (Option-cases (parse_website_url value)) [
    | inl n ↦ rw (n, parse_blank) refl
    | inr (url, e) ↦ rw (e, parse_again url (parse_law value url law e)) refl
  ]

  -- Given that the URL of a text that starts with a scheme and `://` prints so too, without white space
  -- around it, and parses to itself: a payload that has been normalised, stored and read again is normalised to itself.
  pub normalize_idem :
      (value : StoredPayload)
      → PrintsParse
      → normalize_vault_login_payload (stored (normalize_vault_login_payload value))
        ≡ normalize_vault_login_payload value
  unfolding normalize_vault_login_payload
  normalize_idem value law =
      ap (λ url. record (normalize_vault_login_payload value) { website_url = url })
        (website_url_idem value.website_url law)
