-- ===== src/Bridge/Service.antt =====
-- `createLocalCredentialBridgeService` over its dependencies, whatever state `S` they keep.
use unuvault.Prelude.{
  ℕ, ◌&&◌, Option, none, some, List, map, length, select, find, Text, text_eq, is_empty, Result, ok,
  err, or_err, if◌then◌else◌,
}
use unuvault.Prelude.Actions.{Action, ◌>>=◌, ◌>>◌, pure, throw, lift}
use unuvault.Bridge.{
  Credential, Metadata, Released, MetadataRequest, ReleaseRequest, AuditEvent, Url, BridgeError,
  validation, credential_not_found, unauthorized, validate_credential_id, validate_profile_id,
  validate_release_reason, normalize_http_origin, matches_bridge_context, normalize_all,
}

-- The optional members of the dependencies are `Option`.
pub record Dependencies (S : Type 0) : Type 0 where
  pub clear_unlocked : Option (Action S BridgeError (Unit {0}))
  pub get_account_id : Option (Text → Action S BridgeError (Option Text))
  pub read_unlocked : Action S BridgeError (List Credential)
  pub replace_unlocked : Option (List Credential → Action S BridgeError (Unit {0}))
  pub record_audit_event : AuditEvent → Action S BridgeError (Unit {0})

abbrev pub metadata_of : Credential → Metadata
metadata_of c = record { id = c.id; label = c.label; username = c.username }

-- `!accountId` holds of no answer, of `null` and of the empty string.
abbrev check_account : Option Text → Result BridgeError (Unit {0})
check_account none = err unauthorized
check_account (some account) = if is_empty account then err unauthorized else ok tt

module _ {S : Type 0} (new_url : Text → Option Url) (deps : Dependencies S) where
  unfoldable pub find_credential_metadata : MetadataRequest → Action S BridgeError (List Metadata)
  find_credential_metadata request = do
    origin ← lift (normalize_http_origin new_url request.origin)
    profile_id ← lift (validate_profile_id request.profile_id)
    credentials ← deps.read_unlocked
    pure (map metadata_of (select (λ c. matches_bridge_context c origin profile_id) credentials))

  -- `iso_now` is `new Date().toISOString()` at the time of the call.
  unfoldable pub release_secret : Text → ReleaseRequest → Action S BridgeError Released
  release_secret iso_now request = do
    id ← lift (validate_credential_id request.id)
    origin ← lift (normalize_http_origin new_url request.origin)
    profile_id ← lift (validate_profile_id request.profile_id)
    reason ← lift (validate_release_reason request.reason)
    credentials ← deps.read_unlocked
    let is_wanted =
        λ (c : Credential). text_eq c.id id && matches_bridge_context c origin profile_id
    credential ← lift (or_err (find is_wanted credentials) credential_not_found)
    deps.record_audit_event (record {
      id = id;
      origin = origin;
      profile_id = profile_id;
      reason = reason;
      released_at = iso_now;
    })
    pure (record { password = credential.password; username = credential.username })

  require_account : Text → Action S BridgeError (Unit {0})
  require_account token = elim deps.get_account_id [
    | none ↦ throw unauthorized
    | some ask ↦ ask token >>= λ account. lift (check_account account)
  ]

  -- The result is the `credential_count` of the reply.
  unfoldable pub publish_unlocked_credential_session :
      Text → List Credential → Action S BridgeError ℕ
  unfolding require_account
  publish_unlocked_credential_session token requested = do
    require_account token
    elim deps.replace_unlocked [
      | none ↦ throw validation
      | some replace ↦ do
        credentials ← lift (normalize_all new_url requested)
        replace credentials
        pure (length credentials)
    ]

  unfoldable pub clear_unlocked_credential_session : Text → Action S BridgeError (Unit {0})
  unfolding require_account
  clear_unlocked_credential_session token = do
    require_account token
    elim deps.clear_unlocked [ none ↦ pure tt | some clear ↦ clear ]
