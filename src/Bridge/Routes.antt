-- ===== src/Bridge/Routes.antt =====
-- apps/api/src/routes/local-credential-bridge.ts: the four handlers, over a service.
use unuvault.Prelude.{
  ℕ, Option, none, some, Bool, false, List, [], map, Text, codes, text_eq, ◌||◌, is_empty,
  if◌then◌else◌, not,
}
use unuvault.Prelude.Actions.{Action}
use unuvault.Http.{Reply, failure, Handler, read_bearer_token, or_blank, answer}
use unuvault.Bridge.{
  Credential, Metadata, Released, MetadataRequest, ReleaseRequest, BridgeError, validation,
  credential_not_found, unauthorized,
}
use unuvault.Bridge.Configured
use unuvault.Bridge.Configured.{Process, Platform}

-- The service that the routes are given; two of its methods are optional.
pub record BridgeService (S : Type 0) : Type 0 where
  pub find_credential_metadata : MetadataRequest → Action S BridgeError (List Metadata)
  pub release_secret : ReleaseRequest → Action S BridgeError Released
  pub publish : Option (Text → List Credential → Action S BridgeError ℕ)
  pub clear : Option (Text → Action S BridgeError (Unit {0}))

pub record Origin : Type 0 where
  pub ip : Option Text
  pub authorization : Option Text

-- A credential of a request body: every field may be missing.
pub record CredentialBody : Type 0 where
  pub id : Option Text
  pub label : Option Text
  pub password : Option Text
  pub profile_id : Option Text
  pub username : Option Text
  pub website_origin : Option Text

pub record ReleaseBody : Type 0 where
  pub id : Option Text
  pub origin : Option Text
  pub profile_id : Option Text
  pub reason : Option Text

unfoldable pub is_loopback_address : Option Text → Bool
is_loopback_address none = false
is_loopback_address (some a) =
    text_eq a (codes "127.0.0.1") || text_eq a (codes "::1") || text_eq a (codes "::ffff:127.0.0.1")

abbrev credential_of : CredentialBody → Credential
credential_of b = record {
  id = or_blank b.id;
  label = or_blank b.label;
  password = or_blank b.password;
  profile_id = b.profile_id;
  username = or_blank b.username;
  website_origin = or_blank b.website_origin;
}

abbrev or_no_credentials : Option (List CredentialBody) → List CredentialBody
or_no_credentials none = []
or_no_credentials (some cs) = cs

unfoldable pub publish_error : {A : Type 0} → BridgeError → Reply A
publish_error unauthorized = failure 401 (codes "invalid_token")
publish_error validation = failure 400 (codes "invalid_bridge_request")
publish_error _ = failure 500 (codes "unlocked_session_publish_failed")

unfoldable pub clear_error : {A : Type 0} → BridgeError → Reply A
clear_error unauthorized = failure 401 (codes "invalid_token")
clear_error _ = failure 500 (codes "unlocked_session_clear_failed")

unfoldable pub metadata_error : {A : Type 0} → BridgeError → Reply A
metadata_error validation = failure 400 (codes "invalid_bridge_request")
metadata_error _ = failure 500 (codes "credential_metadata_failed")

unfoldable pub release_error : {A : Type 0} → BridgeError → Reply A
release_error validation = failure 400 (codes "invalid_bridge_request")
release_error credential_not_found = failure 404 (codes "credential_not_found")
release_error _ = failure 500 (codes "credential_release_failed")

-- `rejectNonLocalBridgeRequest` in front of a handler.
unfoldable pub local_only : {S A : Type 0} → Origin → Handler S A → Handler S A
local_only o handler s =
    if is_loopback_address o.ip then handler s else (failure 403 (codes "local_bridge_only"), s)

-- `authorizeBridgeRequest` in front of a handler; an empty configured token counts as none.
abbrev bearer_is : Option Text → Text → Bool
bearer_is none expected = false
bearer_is (some token) expected = text_eq token expected

unfoldable pub authorized : {S A : Type 0} → Option Text → Origin → Handler S A → Handler S A
authorized none o handler s = (failure 503 (codes "bridge_not_configured"), s)
authorized (some expected) o handler s =
    if is_empty expected
    then (failure 503 (codes "bridge_not_configured"), s)
    else if not (bearer_is (read_bearer_token o.authorization) expected)
    then (failure 401 (codes "invalid_bridge_token"), s)
    else handler s

-- `!token || !method`: a handler that needs a bearer token and an optional method of the service.
with_token : {S A M : Type 0} → Origin → Option M → (Text → M → Handler S A) → Handler S A
with_token o none handler s = (failure 401 (codes "invalid_token"), s)
with_token o (some method) handler s = elim (read_bearer_token o.authorization) [
  | none ↦ (failure 401 (codes "invalid_token"), s)
  | some token ↦
      if is_empty token then (failure 401 (codes "invalid_token"), s) else handler token method s
]

module _ {S : Type 0} (access_token : Option Text) (service : BridgeService S) where
  unfoldable pub put_unlocked_session : Origin → Option (List CredentialBody) → Handler S ℕ
  unfolding local_only with_token publish_error
  put_unlocked_session o credentials = local_only o (
      with_token o service.publish λ token publish.
        answer publish_error (publish token (map credential_of (or_no_credentials credentials))))

  unfoldable pub delete_unlocked_session : Origin → Handler S (Unit {0})
  unfolding local_only with_token clear_error
  delete_unlocked_session o =
      local_only o (with_token o service.clear λ token clear. answer clear_error (clear token))

  abbrev pub metadata_handler : Option Text → Option Text → Handler S (List Metadata)
  metadata_handler origin profile_id = answer metadata_error (
      service.find_credential_metadata
        (record { origin = or_blank origin; profile_id = or_blank profile_id }))

  abbrev pub release_handler : ReleaseBody → Handler S Released
  release_handler body = answer release_error (
      service.release_secret (record {
        id = or_blank body.id;
        origin = or_blank body.origin;
        profile_id = or_blank body.profile_id;
        reason = or_blank body.reason;
      }))

  unfoldable pub get_credentials : Origin → Option Text → Option Text → Handler S (List Metadata)
  unfolding local_only authorized metadata_error
  get_credentials o origin profile_id =
      local_only o (authorized access_token o (metadata_handler origin profile_id))

  unfoldable pub post_release : Origin → ReleaseBody → Handler S Released
  unfolding local_only authorized release_error
  post_release o body = local_only o (authorized access_token o (release_handler body))

-- `localCredentialBridgeRoutes`: the handlers over the configured service.
abbrev pub configured_service : Platform → ℕ → Text → BridgeService Process
configured_service platform now iso_now = record {
  find_credential_metadata = Configured.find_credential_metadata platform now iso_now;
  release_secret = Configured.release_secret platform now iso_now;
  publish = some (Configured.publish_unlocked_credential_session platform now iso_now);
  clear = some (Configured.clear_unlocked_credential_session platform now iso_now);
}
