-- ===== src/Extension/Auth.antt =====
-- background/auth.ts: signing in and out.
use unuvault.Extension.AuthStorage
use unuvault.Extension.AuthStorage.{ExtensionStorageArea}
use unuvault.Security.{Platform}
use unuvault.Prelude.{is_empty, Bool, Option, none, some, Text, if◌then◌else◌}
use unuvault.Prelude.Actions.{Action, ◌>>=◌, pure, throw}
use unuvault.Extension.{StoredAuthState, ExtensionAuthState, Rejection, rejected}

-- What is read of the identity service's answer; no session and no user have no such member.
pub record SignInResult : Type 0 where
  pub has_error : Bool
  pub access_token : Option Text
  pub user_email : Option Text

pub record ExtensionAuthDeps (S : Type 0) : Type 0 where
  pub sign_in_to_supabase : (email password : Text) → Action S Rejection SignInResult
  -- The id of the profile.
  pub bootstrap_profile : (token : Text) → Action S Rejection Text
  pub now : Action S Rejection Text
  pub read_stored_auth_state : Action S Rejection (Option StoredAuthState)
  pub write_stored_auth_state : StoredAuthState → Action S Rejection (Unit {0})
  pub clear_stored_auth_state : Action S Rejection (Unit {0})

abbrev pub to_signed_in_state : Option StoredAuthState → ExtensionAuthState
to_signed_in_state none = ExtensionAuthState.signed_out
to_signed_in_state (some state) = ExtensionAuthState.signed_in state

abbrev pub or_input : (email : Text) → Option Text → Text
or_input email none = email
or_input email (some given) = given

module _ {S : Type 0} (deps : ExtensionAuthDeps S) where
  unfoldable pub read_extension_auth_state : Action S Rejection ExtensionAuthState
  read_extension_auth_state = do
    state ← deps.read_stored_auth_state
    pure (to_signed_in_state state)

  abbrev pub signed_in_with : (email access_token : Text) → Action S Rejection ExtensionAuthState
  signed_in_with email access_token = do
    profile_id ← deps.bootstrap_profile access_token
    signed_in_at ← deps.now
    let next_state : StoredAuthState = record {
      access_token = access_token;
      email = email;
      profile_id = profile_id;
      signed_in_at = signed_in_at;
    }
    _ ← deps.write_stored_auth_state next_state
    pure (to_signed_in_state (some next_state))

  abbrev pub with_token : (email : Text) → Option Text → Action S Rejection ExtensionAuthState
  with_token email none = throw rejected
  with_token email (some access_token) =
      if is_empty access_token then throw rejected else signed_in_with email access_token

  abbrev pub after_sign_in : (email : Text) → SignInResult → Action S Rejection ExtensionAuthState
  after_sign_in email result =
      if result.has_error
      then throw rejected
      else with_token (or_input email result.user_email) result.access_token

  unfoldable pub sign_in_with_password :
      (email password : Text) → Action S Rejection ExtensionAuthState
  sign_in_with_password email password = do
    result ← deps.sign_in_to_supabase email password
    after_sign_in email result

  unfoldable pub sign_out : Action S Rejection (Unit {0})
  sign_out = deps.clear_stored_auth_state

-- `createDefaultDeps`, over the identity service, the API's client and the clock.
abbrev pub create_default_deps :
    {S : Type 0}
    → Platform
    → Option (ExtensionStorageArea S)
    → (Text → Text → Action S Rejection SignInResult)
    → (Text → Action S Rejection Text)
    → Action S Rejection Text
    → ExtensionAuthDeps S
create_default_deps platform area identity bootstrap clock = record {
  sign_in_to_supabase = identity;
  bootstrap_profile = bootstrap;
  now = clock;
  read_stored_auth_state = AuthStorage.read_stored_auth_state platform area;
  write_stored_auth_state = AuthStorage.write_stored_auth_state platform area;
  clear_stored_auth_state = AuthStorage.clear_stored_auth_state platform area;
}
