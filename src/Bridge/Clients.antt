-- ===== src/Bridge/Clients.antt =====
-- What has to be configured before apps/api/src/lib/supabase.ts makes the bridge service.
use unuvault.Prelude.{
  Bool, Option, none, some, Result, ok, err, Text, codes, is_empty, if◌then◌else◌,
}
use unuvault.Bridge.{BridgeError}

-- `process.env`, which stays as it is while the process runs, and whether the client library takes a
-- URL and a key.
pub record Environment : Type 0 where
  pub variable : Text → Option Text
  pub accepts : (url key : Text) → Bool

module _ (env : Environment) where
  -- The value of a variable; an empty one is falsy as well.
  abbrev read_env : Text → Option Text
  read_env name = elim (env.variable name) [
    | none ↦ none
    | some value ↦ if is_empty value then none else some value
  ]

  abbrev read_required_env : Text → Result BridgeError Text
  read_required_env name = elim (read_env name) [
    | none ↦ err BridgeError.dependency
    | some value ↦ ok value
  ]

  abbrev create_client : (url key : Text) → Result BridgeError (Unit {0})
  create_client url key = if env.accepts url key then ok tt else err BridgeError.dependency

  abbrev create_identity_client : Result BridgeError (Unit {0})
  create_identity_client = elim (read_required_env (codes "IDENTITY_SUPABASE_URL")) [
    | err e ↦ err e
    | ok url ↦ elim (read_required_env (codes "IDENTITY_SUPABASE_SERVICE_ROLE_KEY")) [
      | err e ↦ err e
      | ok key ↦ create_client url key
    ]
  ]

  -- `none` where neither variable is set.
  abbrev get_optional_product_admin_config : Result BridgeError (Option (Text × Text))
  get_optional_product_admin_config = elim (read_env (codes "SUPABASE_URL")) [
    | none ↦ elim (read_env (codes "SUPABASE_SERVICE_ROLE_KEY")) [
      | none ↦ ok none
      | some key ↦ err BridgeError.dependency
    ]
    | some url ↦ elim (read_env (codes "SUPABASE_SERVICE_ROLE_KEY")) [
      | none ↦ err BridgeError.dependency
      | some key ↦ ok (some (url, key))
    ]
  ]

  abbrev create_product_data_client : Result BridgeError (Unit {0})
  create_product_data_client = elim get_optional_product_admin_config [
    | err e ↦ err e
    | ok config ↦ elim config [
      | none ↦ err BridgeError.dependency
      | some pair ↦ create_client pair.0 pair.1
    ]
  ]

  -- `Promise.all`: the service is there once both clients are.
  unfoldable pub ensure_clients : Result BridgeError (Unit {0})
  ensure_clients = elim create_identity_client [
    | err e ↦ err e
    | ok done ↦ create_product_data_client
  ]
