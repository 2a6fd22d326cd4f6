-- ===== src/Extension/AuthStorage.antt =====
-- background/auth-storage.ts: where it is stored who is signed in.
use unuvault.Prelude.{Bool, true, Option, none, some, Text, codes, ok, err, Result}
use unuvault.Prelude.Actions.{Action, pure}
use unuvault.Extension.{StoredAuthState, Rejection}
use unuvault.Prelude.Options.{◌>>=◌}
use unuvault.Values.{
  Value, Properties, object, array, text, datum, named, bare, descriptor, text_of,
}
use unuvault.Security.{Platform}

-- `chrome.storage.local`, for one key: a call may reject, and an absent key is `undefined`.
pub record ExtensionStorageArea (S : Type 0) : Type 0 where
  pub get : Text → Action S Rejection Value
  pub set : Text → Value → Action S Rejection (Unit {0})
  pub remove : Text → Action S Rejection (Unit {0})

abbrev pub auth_storage_key : Text
auth_storage_key = codes "unuvault.extension.auth-state"

-- A property of stored data, which has no accessors and inherits nothing of these names.
abbrev data_of : Option (Bool × Option Value) → Option Value
data_of none = none
data_of (some (enumerable, value)) = value

abbrev text_property : Text → Properties → Option Text
text_property name ps = data_of (descriptor (named name) ps) >>= text_of

abbrev read_properties : Properties → Option StoredAuthState
read_properties ps = do
  access_token ← text_property (codes "accessToken") ps
  email ← text_property (codes "email") ps
  profile_id ← text_property (codes "profileId") ps
  signed_in_at ← text_property (codes "signedInAt") ps
  some (record {
    access_token = access_token;
    email = email;
    profile_id = profile_id;
    signed_in_at = signed_in_at;
  })

-- `isStoredAuthState`, with the state where it holds.
unfoldable pub stored_auth_state_of : Value → Option StoredAuthState
stored_auth_state_of (object plain ps) = read_properties ps
stored_auth_state_of (array plain ps) = read_properties ps
stored_auth_state_of _ = none

abbrev pub auth_value : StoredAuthState → Value
auth_value state = object true (
    datum (named (codes "accessToken")) true (text state.access_token) (
      datum (named (codes "email")) true (text state.email) (
        datum (named (codes "profileId")) true (text state.profile_id)
          (datum (named (codes "signedInAt")) true (text state.signed_in_at) bare))))

module _ {S : Type 0} (platform : Platform) (area : Option (ExtensionStorageArea S)) where
  -- A text is parsed, which may throw.
  abbrev parsed : Value → Option Value
  parsed (text t) = platform.json_parse t
  parsed value = some value

  abbrev or_null : Result Rejection Value × S → Result Rejection (Option StoredAuthState) × S
  or_null (ok value, s) = (ok (parsed value >>= stored_auth_state_of), s)
  or_null (err e, s) = (ok none, s)

  abbrev read_from : Option (ExtensionStorageArea S) → Action S Rejection (Option StoredAuthState)
  read_from none s = (ok none, s)
  read_from (some storage) s = or_null (storage.get auth_storage_key s)

  unfoldable pub read_stored_auth_state : Action S Rejection (Option StoredAuthState)
  read_stored_auth_state = read_from area

  abbrev write_to :
      Option (ExtensionStorageArea S) → StoredAuthState → Action S Rejection (Unit {0})
  write_to none state = pure tt
  write_to (some storage) state =
      storage.set auth_storage_key (text (platform.json_stringify (auth_value state)))

  unfoldable pub write_stored_auth_state : StoredAuthState → Action S Rejection (Unit {0})
  write_stored_auth_state state = write_to area state

  abbrev remove_from : Option (ExtensionStorageArea S) → Action S Rejection (Unit {0})
  remove_from none = pure tt
  remove_from (some storage) = storage.remove auth_storage_key

  unfoldable pub clear_stored_auth_state : Action S Rejection (Unit {0})
  clear_stored_auth_state = remove_from area
