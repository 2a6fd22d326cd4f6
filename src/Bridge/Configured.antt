-- ===== src/Bridge/Configured.antt =====
-- The bridge service as apps/api/src/lib/supabase.ts wires it: the in-memory store, the identity
-- client that resolves a session token, and the audit line that goes to the console.
use unuvault.Prelude.{ℕ, Option, some, List, [], ◌∷◌, ◌++◌, Result, ok, Text}
use unuvault.Prelude.Actions.{Action, ◌>>=◌, lift}
use unuvault.Bridge.Clients.{Environment, ensure_clients}
use unuvault.Bridge.{
  Credential, Metadata, Released, MetadataRequest, ReleaseRequest, AuditEvent, Url, BridgeError,
}
use unuvault.Bridge.Store.{
  Store, default_ttl_ms, read_unlocked_credentials, replace_unlocked_credentials,
  clear_unlocked_credentials,
}
use unuvault.Bridge.Service.{Dependencies}
use unuvault.Bridge.Service

-- What the process keeps: the store, and the audit lines printed so far.
pub record Process : Type 0 where
  pub store : Store
  pub audit : List AuditEvent

abbrev in_process :
    {A : Type 0} → Process → Result BridgeError A × Store → Result BridgeError A × Process
in_process p (r, s) = (r, record p { store = s })

-- The platform: its URL parser, and the identity service behind `getUserByToken`, which answers
-- with the account of a session token, with none, or by rejecting; and what it is configured with.
pub record Platform : Type 0 where
  pub new_url : Text → Option Url
  pub account_of : Text → Result BridgeError (Option Text)
  pub environment : Environment

-- `now` and `iso_now` are the readings of the clock in the call that is served.
module _ (platform : Platform) (now : ℕ) (iso_now : Text) where
  unfoldable pub configured : Dependencies Process
  unfolding read_unlocked_credentials replace_unlocked_credentials clear_unlocked_credentials
  configured = record {
    clear_unlocked = some (λ p. in_process p (clear_unlocked_credentials p.store));
    get_account_id = some (λ token p. (platform.account_of token, p));
    read_unlocked = λ p. in_process p (read_unlocked_credentials now p.store);
    replace_unlocked = some (λ next p.
        in_process p
          (replace_unlocked_credentials platform.new_url default_ttl_ms now next p.store));
    record_audit_event = λ event p. (ok tt, record p { audit = p.audit ++ event ∷ [] });
  }

  -- Every call first makes sure that there is a service, which fails where a client cannot be made.
  abbrev pub ensured : {A : Type 0} → Action Process BridgeError A → Action Process BridgeError A
  ensured call = lift (ensure_clients platform.environment) >>= λ _. call

  abbrev pub find_credential_metadata : MetadataRequest → Action Process BridgeError (List Metadata)
  find_credential_metadata request =
      ensured (Service.find_credential_metadata platform.new_url configured request)

  abbrev pub release_secret : ReleaseRequest → Action Process BridgeError Released
  release_secret request =
      ensured (Service.release_secret platform.new_url configured iso_now request)

  abbrev pub publish_unlocked_credential_session :
      Text → List Credential → Action Process BridgeError ℕ
  publish_unlocked_credential_session token credentials =
      ensured
        (Service.publish_unlocked_credential_session platform.new_url configured token credentials)

  abbrev pub clear_unlocked_credential_session : Text → Action Process BridgeError (Unit {0})
  clear_unlocked_credential_session token =
      ensured (Service.clear_unlocked_credential_session platform.new_url configured token)
