-- ===== src/Bridge/Validation.antt =====
-- Normalising a credential: what it leaves alone, and what a normalised credential satisfies.
use unuvault.Prelude.{
  ◌≡◌, true, Option, some, List, [], ◌∷◌, ok, arith, All, Text, length, inl, inr, Option-cases,
  Result-cases,
}
use unuvault.Bridge.{
  Credential, Url, is_http, normalize_http_origin, normalize_unlocked_credential, normalize_all,
}

-- WHATWG URL: the origin of an http or https URL is itself such a URL, with the same origin.
abbrev pub OriginsParse : (Text → Option Url) → Type 0
OriginsParse new_url =
    (text : Text) (url : Url)
    → new_url text ≡ some url
    → is_http url.protocol ≡ true
    → (again : Url) × (new_url url.origin ≡ some again)
      × (is_http again.protocol ≡ true)
      × (again.origin ≡ url.origin)

-- A normalised credential is one that normalising leaves as it is.
abbrev pub IsNormal : (Text → Option Url) → Credential → Type 0
IsNormal new_url c = normalize_unlocked_credential new_url c ≡ ok c

module _ (new_url : Text → Option Url) (law : OriginsParse new_url) where
  normalize_http_origin_idem :
      (text origin : Text)
      → normalize_http_origin new_url text ≡ ok origin
      → normalize_http_origin new_url origin ≡ ok origin
  unfolding normalize_http_origin
  normalize_http_origin_idem text origin h = elim (Option-cases (new_url text)) [
    | inl n ↦ absurd (ground arith)
    | inr (url, e) ↦
        let (again, parsed, web, same) = law text url e (ground arith) in
        let here : url.origin ≡ origin = ground arith in ground arith
  ]

  -- Normalising twice is normalising once, and changes the origin of the web site only.
  pub normalize_unlocked_credential_idem :
      (c c' : Credential)
      → normalize_unlocked_credential new_url c ≡ ok c'
      → IsNormal new_url c' × (c' ≡ record c { website_origin = c'.website_origin })
  unfolding normalize_unlocked_credential
  normalize_unlocked_credential_idem c c' h =
      elim (Result-cases (normalize_http_origin new_url c.website_origin)) [
        | inr (e, n) ↦ absurd (ground arith)
        | inl (o, here) ↦ ground (arith, normalize_http_origin_idem c.website_origin o here)
      ]

  pub normalize_all_idem :
      (cs cs' : List Credential)
      → normalize_all new_url cs ≡ ok cs'
      → All (IsNormal new_url) cs' × (normalize_all new_url cs' ≡ ok cs') × (length cs' ≡ length cs)
  unfolding normalize_all
  normalize_all_idem [] cs' h = ground arith
  normalize_all_idem (c ∷ cs) cs' h =
      elim (Result-cases (normalize_unlocked_credential new_url c)) [
        | inr (e, n) ↦ absurd (ground arith)
        | inl (d, one) ↦ elim (Result-cases (normalize_all new_url cs)) [
          | inr (e, n) ↦ absurd (ground arith)
          | inl (ds, rest) ↦
              let (normal, again, size) = normalize_all_idem cs ds rest in
              let first = (normalize_unlocked_credential_idem c d one).0 in
              let whole : cs' ≡ d ∷ ds = ground arith in
              rw whole ((first, normal), ground arith, ground arith)
        ]
      ]
