-- ===== src/DevSecrets/Service.antt =====
-- apps/api/src/services/dev-secrets-service.ts over the session store, the identity service and the
-- table of encrypted records.
use unuvault.Prelude.{
  ℕ, Option, none, some, length, ◌==◌, if◌then◌else◌, Result, ok, err, or_err, Text, is_empty, trim,
}
use unuvault.Prelude.Actions.{Action, ◌>>=◌, ◌>>◌, pure, lift}
use unuvault.DevSecrets.{
  Target, Grant, Sessions, Options, Reading, same_target, is_supported_dev_secret_record_target,
  create_handoff, exchange_handoff, get_cli_session,
}

pub data DevSecretError : Type 0 where
  unauthorized : DevSecretError
  record_not_found : DevSecretError
  invalid_handoff : DevSecretError
  validation : DevSecretError
  dependency : DevSecretError

-- The session store, and the rows of `developer_secret_records` as `Rows`.
pub record Backend (Rows : Type 0) : Type 0 where
  pub sessions : Sessions
  pub rows : Rows

-- What the service asks of others: the identity service, and reads and writes of the table.
pub record Dependencies (Rows : Type 0) : Type 0 where
  pub get_browser_account_id : Text → Result DevSecretError (Option Text)
  pub get_stored_record : Text → Target → Rows → Result DevSecretError (Option Text)
  pub put_stored_record : Text → Target → Text → Action Rows DevSecretError (Unit {0})

unfoldable pub assert_supported_target : Target → Result DevSecretError (Unit {0})
assert_supported_target target =
    if is_supported_dev_secret_record_target target then ok tt else err validation

unfoldable pub assert_non_empty_ciphertext : Text → Result DevSecretError (Unit {0})
assert_non_empty_ciphertext ciphertext =
    if length (trim ciphertext) == 0 then err validation else ok tt

-- `!ownerAccountId`.
abbrev present_account : Option Text → Result DevSecretError Text
present_account none = err unauthorized
present_account (some a) = if is_empty a then err unauthorized else ok a

-- The session of a token must be live, and for the very target that is asked for.
abbrev session_for : Target → Option Grant → Result DevSecretError Grant
session_for target none = err unauthorized
session_for target (some g) = if same_target g.target target then ok g else err unauthorized

module _ {Rows : Type 0} (deps : Dependencies Rows) (options : Options) where
  abbrev in_sessions :
      {A : Type 0} → (Sessions → A × Sessions) → Action (Backend Rows) DevSecretError A
  in_sessions f b = let (a, s) = f b.sessions in (ok a, record b { sessions = s })

  abbrev in_rows :
      {A : Type 0} → Action Rows DevSecretError A → Action (Backend Rows) DevSecretError A
  in_rows f b = let (a, r) = f b.rows in (a, record b { rows = r })

  unfoldable pub create_browser_handoff :
      Reading → Text → Target → Action (Backend Rows) DevSecretError Text
  unfolding assert_supported_target
  create_browser_handoff now token target = do
    lift (assert_supported_target target)
    account ← lift (deps.get_browser_account_id token)
    owner ← lift (present_account account)
    in_sessions (λ s. (now.code, create_handoff options now owner target s))

  unfoldable pub exchange_browser_handoff :
      Reading → Text → Action (Backend Rows) DevSecretError Text
  exchange_browser_handoff now handoff_code = do
    lift (if length (trim handoff_code) == 0 then err invalid_handoff else ok tt)
    handoff ← in_sessions (exchange_handoff options now handoff_code)
    _ ← lift (or_err handoff invalid_handoff)
    pure now.code

  unfoldable pub get_private_record : ℕ → Text → Target → Action (Backend Rows) DevSecretError Text
  unfolding assert_supported_target
  get_private_record now cli_session_token target = do
    lift (assert_supported_target target)
    found ← in_sessions (get_cli_session now cli_session_token)
    session ← lift (session_for target found)
    record' ← λ b. (deps.get_stored_record session.owner_account_id target b.rows, b)
    lift (or_err record' record_not_found)

  unfoldable pub put_private_record :
      ℕ → Text → Target → Text → Action (Backend Rows) DevSecretError (Unit {0})
  unfolding assert_supported_target assert_non_empty_ciphertext
  put_private_record now cli_session_token target ciphertext = do
    lift (assert_supported_target target)
    lift (assert_non_empty_ciphertext ciphertext)
    found ← in_sessions (get_cli_session now cli_session_token)
    session ← lift (session_for target found)
    in_rows (deps.put_stored_record session.owner_account_id target ciphertext)
