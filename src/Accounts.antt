-- ===== src/Accounts.antt =====
-- apps/api/src/services/auth-bootstrap-service.ts and apps/api/src/routes/auth.ts: the first call of a
-- user's session.
pub mod Bootstrap
use unuvault.Prelude.{Option, none, some, Text, codes, is_empty, if◌then◌else◌}
use unuvault.Prelude.Actions.{Action, ◌>>=◌, throw}
use unuvault.Http.{Reply, failure, Handler, read_bearer_token, answer}
use unuvault.Vault.{AuthUser}

pub record UserProfileRecord : Type 0 where
  pub auth_user_id : Text
  pub account_id : Text
  pub email : Text
  pub locale : Text

pub record AuthBootstrapProfile : Type 0 where
  pub id : Text
  pub account_id : Text
  pub email : Text
  pub locale : Text

pub data BootstrapError : Type 0 where
  unauthorized : BootstrapError
  dependency : BootstrapError

pub record AuthBootstrapServiceDependencies (S : Type 0) : Type 0 where
  pub get_user_by_token : Text → Action S BootstrapError (Option AuthUser)
  pub upsert_user_profile : UserProfileRecord → Action S BootstrapError AuthBootstrapProfile

-- A text that is not falsy.
abbrev pub not_falsy : Option Text → Option Text
not_falsy none = none
not_falsy (some t) = if is_empty t then none else some t

abbrev pub profile_record : AuthUser → (email account_id : Text) → UserProfileRecord
profile_record user email account_id = record {
  auth_user_id = user.id;
  account_id = account_id;
  email = email;
  locale = codes "zh-CN";
}

unfoldable pub bootstrap_error : {A : Type 0} → BootstrapError → Reply A
bootstrap_error BootstrapError.unauthorized = failure 401 (codes "invalid_token")
bootstrap_error BootstrapError.dependency = failure 500 (codes "bootstrap_failed")

module _ {S : Type 0} (deps : AuthBootstrapServiceDependencies S) where
  abbrev pub upsert_for :
      AuthUser → (email account_id : Option Text) → Action S BootstrapError AuthBootstrapProfile
  upsert_for user (some email) (some account_id) =
      deps.upsert_user_profile (profile_record user email account_id)
  upsert_for user (some email) none = throw BootstrapError.unauthorized
  upsert_for user none account_id = throw BootstrapError.unauthorized

  abbrev pub bootstrap_user : Option AuthUser → Action S BootstrapError AuthBootstrapProfile
  bootstrap_user none = throw BootstrapError.unauthorized
  bootstrap_user (some user) = upsert_for user (not_falsy user.email) (not_falsy user.account_id)

  -- The result's only member, `profile`.
  unfoldable pub bootstrap_profile_from_token :
      (token : Text) → Action S BootstrapError AuthBootstrapProfile
  bootstrap_profile_from_token token = do user ← deps.get_user_by_token token; bootstrap_user user

  unfoldable pub post_bootstrap : (authorization : Option Text) → Handler S AuthBootstrapProfile
  unfolding bootstrap_error
  post_bootstrap authorization s = elim (read_bearer_token authorization) [
    | none ↦ (failure 401 (codes "missing_bearer_token"), s)
    | some token ↦ answer bootstrap_error (bootstrap_profile_from_token token) s
  ]
