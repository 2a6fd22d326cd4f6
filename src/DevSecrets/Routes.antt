-- ===== src/DevSecrets/Routes.antt =====
-- apps/api/src/routes/dev-secrets.ts: the four handlers over the service.
use unuvault.Prelude.{Option, none, some, Text, codes, is_empty, if◌then◌else◌}
use unuvault.Prelude.Actions.{Action}
use unuvault.Http.{Reply, failure, Handler, read_bearer_token, or_blank, answer}
use unuvault.DevSecrets.{Target}
use unuvault.DevSecrets.Service.{
  DevSecretError, unauthorized, record_not_found, invalid_handoff, validation,
}

-- The service that the routes are given, for one reading of the clock.
pub record DevSecretsService (S : Type 0) : Type 0 where
  pub create_browser_handoff : Text → Target → Action S DevSecretError Text
  pub exchange_browser_handoff : Text → Action S DevSecretError Text
  pub get_private_record : Text → Target → Action S DevSecretError Text
  pub put_private_record : Text → Target → Text → Action S DevSecretError (Unit {0})

abbrev pub build_target : Text → Text → Target
build_target app_code target_env = record {
  app_code = app_code;
  target_env = target_env;
  secret_kind = codes "dotenv";
}

unfoldable pub create_error : {A : Type 0} → DevSecretError → Reply A
create_error unauthorized = failure 401 (codes "invalid_token")
create_error validation = failure 400 (codes "invalid_request")
create_error _ = failure 500 (codes "handoff_create_failed")

unfoldable pub exchange_error : {A : Type 0} → DevSecretError → Reply A
exchange_error invalid_handoff = failure 401 (codes "invalid_handoff_code")
exchange_error _ = failure 500 (codes "handoff_exchange_failed")

unfoldable pub read_error : {A : Type 0} → DevSecretError → Reply A
read_error unauthorized = failure 401 (codes "invalid_token")
read_error record_not_found = failure 404 (codes "secret_not_found")
read_error validation = failure 400 (codes "invalid_request")
read_error _ = failure 500 (codes "secret_read_failed")

unfoldable pub write_error : {A : Type 0} → DevSecretError → Reply A
write_error unauthorized = failure 401 (codes "invalid_token")
write_error validation = failure 400 (codes "invalid_request")
write_error _ = failure 500 (codes "secret_write_failed")

-- `!token`: a handler that needs a non-empty bearer token.
unfoldable pub with_bearer : {S A : Type 0} → Option Text → (Text → Handler S A) → Handler S A
with_bearer authorization handler s = elim (read_bearer_token authorization) [
  | none ↦ (failure 401 (codes "missing_bearer_token"), s)
  | some token ↦
      if is_empty token then (failure 401 (codes "missing_bearer_token"), s) else handler token s
]

module _ {S : Type 0} (service : DevSecretsService S) where
  unfoldable pub post_handoffs : Option Text → Option Text → Option Text → Handler S Text
  unfolding with_bearer create_error
  post_handoffs authorization app env = with_bearer authorization λ token.
      answer create_error
        (service.create_browser_handoff token (build_target (or_blank app) (or_blank env)))

  unfoldable pub post_exchange : Option Text → Handler S Text
  unfolding exchange_error
  post_exchange handoff_code =
      answer exchange_error (service.exchange_browser_handoff (or_blank handoff_code))

  unfoldable pub get_record : Option Text → Text → Text → Handler S Text
  unfolding with_bearer read_error
  get_record authorization app env =
      with_bearer authorization
        λ token. answer read_error (service.get_private_record token (build_target app env))

  unfoldable pub put_record : Option Text → Text → Text → Option Text → Handler S (Unit {0})
  unfolding with_bearer write_error
  put_record authorization app env ciphertext = with_bearer authorization λ token.
      answer write_error
        (service.put_private_record token (build_target app env) (or_blank ciphertext))
