-- ===== src/Security/Pinned.antt =====
-- The Argon2id strings of libsodium against the syntax that packages/security/src/argon2-policy.ts accepts.
use unuvault.Security.Roundtrip.{matches-plus_set}
use unuvault.Security.Policy.{verifier_groups, split_at, is_pinned_argon2id_verifier_syntax}
use mathlib.Core.List.{reverse, reverse_aux, reverse-append, reverse-reverse}
use unuvault.Security.Policy.{
  is_base64_unit, is_canonical_original_no_padding, drop_equals, split_at, without_padding,
}
use unuvault.Security.{Platform, Bytes}
use unuvault.Prelude.{
  length-append, text_eq, strip_prefix, All, ℕ, zero, suc, Bool, true, false, Text, codes, every,
  length, leb, text_eq_self, ◌≡◌, ◌≤◌, ◌⊎◌, ◌++◌, ◌∷◌, [], ◌&&◌, ◌==◌, some, refl, arith, ap,
  and-eq-true_split, ◌∙◌,
}

-- A character of the standard Base64 alphabet.
abbrev pub IsUnit64 : ℕ → Type 0
IsUnit64 c =
    ((65 ≤ c) × (c ≤ 90)) ⊎ ((97 ≤ c) × (c ≤ 122)) ⊎ ((48 ≤ c) × (c ≤ 57)) ⊎ (c ≡ 43) ⊎ (c ≡ 47)

-- The standard Base64 of some bytes, without its padding: with it, `atob` reads the bytes, and `btoa`
-- prints them so.
pub record IsEncoding (platform : Platform) (padding : Text) (size : ℕ) (value : Text)
    : Type 0 where
  pub has_size : length value ≡ size
  pub units : All IsUnit64 value
  pub bytes : Bytes
  pub reads : platform.atob (value ++ padding) ≡ some bytes
  pub prints : platform.btoa bytes ≡ some (value ++ padding)

-- libsodium: the string of Argon2id, version 19, for 2 operations on 64 MiB in one lane, with a salt of
-- 16 bytes and a hash of 32.
pub record IsArgon2idString (platform : Platform) (h : Text) : Type 0 where
  pub salt : Text
  pub tag : Text
  pub form : h ≡ codes "$argon2id$v=19$m=65536,t=2,p=1$" ++ (salt ++ (codes "$" ++ tag))
  pub has_salt : IsEncoding platform (codes "==") 22 salt
  pub has_tag : IsEncoding platform (codes "=") 43 tag

units-is_base64_unit : (value : Text) → All IsUnit64 value → every is_base64_unit value ≡ true
units-is_base64_unit [] h = refl
units-is_base64_unit (c ∷ s) (here, rest) =
    let first : is_base64_unit c ≡ true = ground (arith, here) in
    rw (first, units-is_base64_unit s rest) refl

abbrev is_printable : ℕ → Bool
is_printable c = leb 32 c && leb c 126

units-is_printable : (value : Text) → All IsUnit64 value → every is_printable value ≡ true
units-is_printable [] h = refl
units-is_printable (c ∷ s) (here, rest) =
    let first : is_printable c ≡ true = ground (arith, here) in
    rw (first, units-is_printable s rest) refl

every-append :
    (p : ℕ → Bool) (s t : Text) → every p s ≡ true → every p t ≡ true → every p (s ++ t) ≡ true
every-append p [] t h k = k
every-append p (c ∷ s) t h k =
    let (first, rest) = and-eq-true_split (p c) (every p s) h in
    rw (first, every-append p s t rest k) refl

every-reverse_aux :
    (p : ℕ → Bool) (s t : Text)
    → every p s ≡ true
    → every p t ≡ true
    → every p (reverse_aux s t) ≡ true
every-reverse_aux p [] t h k = k
every-reverse_aux p (c ∷ s) t h k =
    let (first, rest) = and-eq-true_split (p c) (every p s) h in
    every-reverse_aux p s (c ∷ t) rest (rw (first, k) refl)

module _ (platform : Platform) where
  drop_equals-units : (s : Text) → every is_base64_unit s ≡ true → drop_equals platform s ≡ s
  unfolding drop_equals
  drop_equals-units [] h = refl
  drop_equals-units (c ∷ s) h =
      let (first, _) = and-eq-true_split (is_base64_unit c) (every is_base64_unit s) h in
      let other : (c == 61) ≡ false = ground (arith, first) in rw other refl

  -- Padding is dropped, and nothing else.
  without_padding-append :
      (value padding : Text)
      → every is_base64_unit value ≡ true
      → ((s : Text) → drop_equals platform (reverse padding ++ s) ≡ drop_equals platform s)
      → without_padding platform (value ++ padding) ≡ value
  without_padding-append value padding units drops =
      ap (λ s. reverse (drop_equals platform s)) (reverse-append value padding)
      ∙ ap (λ s. reverse s)
          (drops (reverse value)
            ∙ drop_equals-units (reverse value)
                (every-reverse_aux is_base64_unit value [] units refl))
      ∙ reverse-reverse value

  drops_two : (s : Text) → drop_equals platform (codes "==" ++ s) ≡ drop_equals platform s
  unfolding drop_equals
  drops_two s = refl

  drops_one : (s : Text) → drop_equals platform (codes "=" ++ s) ≡ drop_equals platform s
  unfolding drop_equals
  drops_one s = refl

  salt-canonical :
      (value : Text)
      → IsEncoding platform (codes "==") 22 value
      → is_canonical_original_no_padding platform value ≡ true
  unfolding is_canonical_original_no_padding
  salt-canonical value i =
      let plain =
        without_padding-append value (codes "==") (units-is_base64_unit value i.units) drops_two in
      rw (i.has_size, i.reads, i.prints, plain) (text_eq_self value)

  tag-canonical :
      (value : Text)
      → IsEncoding platform (codes "=") 43 value
      → is_canonical_original_no_padding platform value ≡ true
  unfolding is_canonical_original_no_padding
  tag-canonical value i =
      let plain =
        without_padding-append value (codes "=") (units-is_base64_unit value i.units) drops_one in
      rw (i.has_size, i.reads, i.prints, plain) (text_eq_self value)

  split_at-append : (n : ℕ) (s t : Text) → length s ≡ n → split_at platform n (s ++ t) ≡ some (s, t)
  unfolding split_at
  split_at-append zero [] t h = refl
  split_at-append zero (c ∷ s) t h = absurd (omega (arith, h))
  split_at-append (suc n) [] t h = absurd (omega (arith, h))
  split_at-append (suc n) (c ∷ s) t h = rw (split_at-append n s t (omega (arith, h))) refl

  split_at-all : (n : ℕ) (s : Text) → length s ≡ n → split_at platform n s ≡ some (s, [])
  unfolding split_at
  split_at-all zero [] h = refl
  split_at-all zero (c ∷ s) h = absurd (omega (arith, h))
  split_at-all (suc n) [] h = absurd (omega (arith, h))
  split_at-all (suc n) (c ∷ s) h = rw (split_at-all n s (omega (arith, h))) refl

  abbrev string_of : (salt tag : Text) → Text
  string_of salt tag = codes "$argon2id$v=19$m=65536,t=2,p=1$" ++ (salt ++ (codes "$" ++ tag))

  -- The groups of such a string.
  groups-string_of :
      (salt tag : Text)
      → IsEncoding platform (codes "==") 22 salt
      → IsEncoding platform (codes "=") 43 tag
      → verifier_groups platform (string_of salt tag)
        ≡ some (record {
          version = codes "19";
          memory = codes "65536";
          iterations = codes "2";
          parallelism = codes "1";
          salt = salt;
          hash = tag;
        })
  unfolding verifier_groups strip_prefix
  groups-string_of salt tag i j =
      rw
        (
          split_at-append 22 salt (codes "$" ++ tag) i.has_size,
          units-is_base64_unit salt i.units,
          split_at-all 43 tag j.has_size,
          units-is_base64_unit tag j.units,
        )
        refl

  string_of-printable :
      (salt tag : Text)
      → All IsUnit64 salt
      → All IsUnit64 tag
      → every is_printable (string_of salt tag) ≡ true
  string_of-printable salt tag i j =
      every-append is_printable salt (codes "$" ++ tag) (units-is_printable salt i)
        (units-is_printable tag j)

  -- What libsodium prints, the package accepts.
  pub pinned :
      (h : Text)
      → IsArgon2idString platform h
      → is_pinned_argon2id_verifier_syntax platform h ≡ true
  unfolding is_pinned_argon2id_verifier_syntax text_eq
  pinned h i =
      let text = string_of i.salt i.tag in
      let short : leb (length text) 127 ≡ true = ground (
        arith,
        length-append (codes "$argon2id$v=19$m=65536,t=2,p=1$") (i.salt ++ (codes "$" ++ i.tag)),
        length-append i.salt (codes "$" ++ i.tag),
        i.has_salt.has_size,
        i.has_tag.has_size,
      ) in
      let printable =
        matches-plus_set is_printable text refl
          (string_of-printable i.salt i.tag i.has_salt.units i.has_tag.units) in
      rw
        (
          i.form,
          short,
          printable,
          groups-string_of i.salt i.tag i.has_salt i.has_tag,
          salt-canonical i.salt i.has_salt,
          tag-canonical i.tag i.has_tag,
        )
        refl
