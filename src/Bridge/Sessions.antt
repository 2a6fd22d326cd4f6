-- ===== src/Bridge/Sessions.antt =====
-- Publishing and clearing an unlocked session, and how long a published one lives.
use unuvault.Prelude.{
  ℕ, ◌+◌, ◌≡◌, false, some, List, [], ok, err, arith, Text, length, inl, inr, Option-cases,
  Result-cases, is_empty, leb, map, select, if◌then◌else◌,
}
use unuvault.Bridge.{
  Credential, Metadata, MetadataRequest, BridgeError, normalize_all, normalize_http_origin,
}
use unuvault.Bridge.Store.{default_ttl_ms}
use unuvault.Bridge.Service
use unuvault.Bridge.Service.{metadata_of}
use unuvault.Bridge.Validation.{OriginsParse, normalize_all_idem}
use unuvault.Bridge.Release.{fits, find_credential_metadata_lem}
use unuvault.Bridge.Configured.{
  Process, Platform, configured, publish_unlocked_credential_session,
  clear_unlocked_credential_session, find_credential_metadata,
}

module _ (platform : Platform) (now : ℕ) (iso_now : Text) where
  -- Given that the origin of an http or https URL parses to itself: a publication that fails, whatever the
  -- error, changes nothing.
  pub publish_refused :
      (token : Text) (cs : List Credential) (p p' : Process) (e : BridgeError)
      → OriginsParse platform.new_url
      → publish_unlocked_credential_session platform now iso_now token cs p ≡ (err e, p')
      → p' ≡ p
  unfolding Service.publish_unlocked_credential_session configured
  publish_refused token cs p p' e law h = elim (Result-cases (normalize_all platform.new_url cs)) [
    | inr (x, bad) ↦ ground arith
    | inl (ds, good) ↦
        let (_, again, _) = normalize_all_idem platform.new_url law cs ds good in ground arith
  ]

  the_account :
      (token : Text) (cs : List Credential) (p p' : Process) (n : ℕ)
      → publish_unlocked_credential_session platform now iso_now token cs p ≡ (ok n, p')
      → (account : Text) × (platform.account_of token ≡ ok (some account))
  unfolding Service.publish_unlocked_credential_session configured
  the_account token cs p p' n h = elim (Result-cases (platform.account_of token)) [
    | inr (x, bad) ↦ absurd (ground arith)
    | inl (answer, e) ↦ elim (Option-cases answer) [
      | inl missing ↦ absurd (ground arith)
      | inr (account, there) ↦ (account, rw there at e)
    ]
  ]

  -- Given that the origin of an http or https URL parses to itself: a session is published only for a token
  -- that resolves to an account. The store then holds the
  -- credentials of the request, each normalised, for the default lifetime, and the reply counts them.
  pub publish_lem :
      (token : Text) (cs : List Credential) (p p' : Process) (n : ℕ)
      → OriginsParse platform.new_url
      → publish_unlocked_credential_session platform now iso_now token cs p ≡ (ok n, p')
      → (account : Text) × (ds : List Credential) × (platform.account_of token ≡ ok (some account))
        × (is_empty account ≡ false)
        × (normalize_all platform.new_url cs ≡ ok ds)
        × (n ≡ length cs)
        × (p' ≡ record {
          store = record { credentials = ds; expires_at = now + default_ttl_ms };
          audit = p.audit;
        })
  unfolding Service.publish_unlocked_credential_session configured
  publish_lem token cs p p' n law h = elim (Result-cases (normalize_all platform.new_url cs)) [
    | inr (x, bad) ↦ absurd (ground arith)
    | inl (ds, good) ↦
        let (_, again, size) = normalize_all_idem platform.new_url law cs ds good in
        let (account, known) = the_account token cs p p' n h in
        (account, ds, known, ground arith, ground arith, ground arith, ground arith)
  ]

  pub clear_lem :
      (token : Text) (p p' : Process)
      → clear_unlocked_credential_session platform now iso_now token p ≡ (ok tt, p')
      → (p'.store.credentials ≡ []) × (p'.store.expires_at ≡ 0) × (p'.audit ≡ p.audit)
  unfolding Service.clear_unlocked_credential_session configured
  clear_lem token p p' h = ground arith

-- Given that the origin of an http or https URL parses to itself: metadata after a publication lists the
-- published credentials that fit the page until the lifetime is over, and nothing from then on.
pub find-publish :
    (platform : Platform) (now later : ℕ) (iso_now iso_later : Text) (token : Text)
    (cs : List Credential) (q : MetadataRequest) (p p' p'' : Process) (n : ℕ) (ms : List Metadata)
    → OriginsParse platform.new_url
    → publish_unlocked_credential_session platform now iso_now token cs p ≡ (ok n, p')
    → find_credential_metadata platform later iso_later q p' ≡ (ok ms, p'')
    → (origin : Text) × (ds : List Credential) × (normalize_http_origin platform.new_url q.origin
        ≡ ok origin)
      × (normalize_all platform.new_url cs ≡ ok ds)
      × (ms ≡ (
          if leb (now + default_ttl_ms) later
          then []
          else map metadata_of (select (fits platform later iso_later origin q.profile_id) ds)))
find-publish platform now later iso_now iso_later token cs q p p' p'' n ms law h k =
    let (account, ds, _, _, normal, _, after) =
      publish_lem platform now iso_now token cs p p' n law h in
    let (origin, here, _, e, _) =
      find_credential_metadata_lem platform later iso_later q p' p'' ms k in
    (origin, ds, here, normal, ground (arith, after, e))
