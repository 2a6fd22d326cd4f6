-- ===== src/Bridge/Access.antt =====
-- Who gets through the routes of the bridge, and what the others are told.
use unuvault.Prelude.{
  ℕ, Option, none, some, true, false, List, [], Text, is_empty, ◌≡◌, ◌≢◌, refl, arith, text_eq_iff,
  Option-cases, Bool-cases, inl, inr, ◌⊎◌, ok,
}
use unuvault.Http.{Reply, success, failure, Handler, read_bearer_token, or_blank}
use unuvault.Bridge.{Released, ReleaseRequest}
use unuvault.Bridge.Configured.{Process, Platform}
use unuvault.Bridge.Configured
use unuvault.Bridge.Release.{IsReleased, release_secret-IsReleased}
use unuvault.Bridge.Routes.{
  metadata_handler, release_handler, local_only, authorized, BridgeService, Origin, CredentialBody,
  ReleaseBody, is_loopback_address, put_unlocked_session, delete_unlocked_session, get_credentials,
  post_release, configured_service,
}

-- A request from another host, or one without the token that the handler asks for.
abbrev pub IsStranger : Option Text → Origin → Type 0
IsStranger access_token o =
    (is_loopback_address o.ip ≡ false)
    ⊎ ((expected : Text)
        → access_token ≡ some expected
        → is_empty expected ≡ false
        → read_bearer_token o.authorization ≢ some expected)

-- A reply that turns the caller away, with the state as it was.
abbrev pub IsTurnedAway : {S A : Type 0} → S → Reply A × S → Type 0
IsTurnedAway s (success a, s') = ⊥
IsTurnedAway s (failure code word, s') = ((code ≡ 403) ⊎ (code ≡ 401) ⊎ (code ≡ 503)) × (s' ≡ s)

abbrev request_of : ReleaseBody → ReleaseRequest
request_of body = record {
  id = or_blank body.id;
  origin = or_blank body.origin;
  profile_id = or_blank body.profile_id;
  reason = or_blank body.reason;
}

module _ {S A : Type 0} (o : Origin) (handler : Handler S A) (s : S) where
  authorized_stranger :
      (access_token : Option Text)
      → ((expected : Text)
          → access_token ≡ some expected
          → is_empty expected ≡ false
          → read_bearer_token o.authorization ≢ some expected)
      → IsTurnedAway s (authorized access_token o handler s)
  unfolding authorized
  authorized_stranger none h = ground arith
  authorized_stranger (some expected) h = elim (Option-cases (read_bearer_token o.authorization)) [
    | inl n ↦ ground arith
    | inr (token, e) ↦ ground (arith, h expected refl, text_eq_iff token expected)
  ]

  authorized-success :
      (access_token : Option Text) {a : A} {s' : S}
      → authorized access_token o handler s ≡ (success a, s')
      → (expected : Text) × (access_token ≡ some expected)
        × (is_empty expected ≡ false)
        × (read_bearer_token o.authorization ≡ some expected)
  unfolding authorized
  authorized-success none h = absurd (ground arith)
  authorized-success (some expected) h = elim (Option-cases (read_bearer_token o.authorization)) [
    | inl n ↦ absurd (ground arith)
    | inr (token, e) ↦ (expected, refl, ground arith, ground (arith, text_eq_iff token expected))
  ]

  guarded_stranger :
      (access_token : Option Text)
      → IsStranger access_token o
      → IsTurnedAway s (local_only o (authorized access_token o handler) s)
  unfolding local_only
  guarded_stranger access_token (inl remote) = ground arith
  guarded_stranger access_token (inr wrong) = elim (Bool-cases (is_loopback_address o.ip)) [
    | inl e ↦ rw e (authorized_stranger access_token wrong)
    | inr e ↦ ground arith
  ]

module _ {S : Type 0} (access_token : Option Text) (service : BridgeService S) where
  -- Metadata and secrets are for callers on this host that know the configured token: any other
  -- request is turned away by 403, 401 or 503, and reaches neither the store nor the audit trail.
  pub credential_routes_stranger :
      (o : Origin) (origin profile_id : Option Text) (body : ReleaseBody) (s : S)
      → IsStranger access_token o
      → IsTurnedAway s (get_credentials access_token service o origin profile_id s)
        × IsTurnedAway s (post_release access_token service o body s)
  unfolding get_credentials post_release
  credential_routes_stranger o origin profile_id body s h = (
    guarded_stranger o (metadata_handler access_token service origin profile_id) s access_token h,
    guarded_stranger o (release_handler access_token service body) s access_token h,
  )

  -- Publishing and clearing take a bearer token from a caller on this host.
  pub session_routes_stranger :
      (o : Origin) (credentials : Option (List CredentialBody)) (s : S)
      → (is_loopback_address o.ip ≡ false)
        ⊎ (read_bearer_token o.authorization ≡ none)
        ⊎ (read_bearer_token o.authorization ≡ some [])
      → IsTurnedAway s (put_unlocked_session access_token service o credentials s)
        × IsTurnedAway s (delete_unlocked_session access_token service o s)
  unfolding put_unlocked_session delete_unlocked_session
  session_routes_stranger o credentials s h = ground arith

-- A secret leaves through the release route only to a caller on this host that presents the
-- configured token, which is not empty, and then as `IsReleased` says.
pub post_release-IsReleased :
    (platform : Platform) (now : ℕ) (iso_now : Text) (access_token : Option Text) (o : Origin)
    (body : ReleaseBody) (p p' : Process) (out : Released)
    → post_release access_token (configured_service platform now iso_now) o body p
      ≡ (success out, p')
    → (is_loopback_address o.ip ≡ true)
      × ((expected : Text) × (access_token ≡ some expected)
          × (is_empty expected ≡ false)
          × (read_bearer_token o.authorization ≡ some expected))
      × IsReleased platform now iso_now (request_of body) p p' out
unfolding post_release local_only
post_release-IsReleased platform now iso_now access_token o body p p' out h = (
  ground arith,
  presented,
  release_secret-IsReleased platform now iso_now (request_of body) p p' out done,
)
  where
    handler : Handler Process Released
    handler = release_handler access_token (configured_service platform now iso_now) body

    passed : authorized access_token o handler p ≡ (success out, p')
    passed = ground arith

    presented :
        (expected : Text) × (access_token ≡ some expected)
        × (is_empty expected ≡ false)
        × (read_bearer_token o.authorization ≡ some expected)
    presented = authorized-success o handler p access_token passed

    done : Configured.release_secret platform now iso_now (request_of body) p ≡ (ok out, p')
    done = unfold authorized in ground arith
