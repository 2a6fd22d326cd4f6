-- ===== src/Extension/SignedIn.antt =====
-- background/auth.ts over auth-storage.ts: what a sign-in leaves for the readers.
use unuvault.Prelude.Actions.{Action, bind_inv}
use unuvault.Extension.Auth.{
  create_default_deps, or_input, signed_in_with, with_token, ExtensionAuthDeps, SignInResult,
  sign_in_with_password, read_extension_auth_state,
}
use unuvault.Extension.{ExtensionAuthState, Rejection, StoredAuthState}
use unuvault.Security.{Platform}
use unuvault.Values.{Value, descriptor, same_key, text_of}
use unuvault.Prelude.{
  none, inr, inl, false, Bool-cases, is_empty, arith, Option, ◌≡◌, refl, ok, some, Text, text_eq,
  sym,
}
use unuvault.Extension.AuthStorage.{
  stored_auth_state_of, read_stored_auth_state, write_stored_auth_state, auth_value,
  ExtensionStorageArea, auth_storage_key,
}

-- What was stored under a key is read back; a text of an object parses to this object.
pub record KeepsValues {S : Type 0} (platform : Platform) (storage : ExtensionStorageArea S)
    : Type 0 where
  pub reads_back :
      (key : Text) (value : Value) (s t : S)
      → storage.set key value s ≡ (ok tt, t)
      → storage.get key t ≡ (ok value, t)
  pub parses :
      (state : StoredAuthState)
      → platform.json_parse (platform.json_stringify (auth_value state)) ≡ some (auth_value state)

module _ {S : Type 0} (platform : Platform) (storage : ExtensionStorageArea S)
    (law : KeepsValues platform storage) where
  stored_auth_state_of-auth_value :
      (state : StoredAuthState) → stored_auth_state_of (auth_value state) ≡ some state
  unfolding stored_auth_state_of descriptor same_key text_eq text_of
  stored_auth_state_of-auth_value state = refl

  read-write :
      (state : StoredAuthState) (s t : S)
      → write_stored_auth_state platform (some storage) state s ≡ (ok tt, t)
      → read_stored_auth_state platform (some storage) t ≡ (ok (some state), t)
  unfolding read_stored_auth_state write_stored_auth_state
  read-write state s t h =
      rw
        (
          law.reads_back auth_storage_key _ s t h,
          law.parses state,
          stored_auth_state_of-auth_value state,
        )
        refl

  module _ (identity : Text → Text → Action S Rejection SignInResult)
      (bootstrap : Text → Action S Rejection Text) (clock : Action S Rejection Text) where
    abbrev deps : ExtensionAuthDeps S
    deps = create_default_deps platform (some storage) identity bootstrap clock

    -- The state that is given, with an access token, and read again.
    abbrev IsSignedIn : ExtensionAuthState → S → Type 0
    IsSignedIn answer t =
        (state : StoredAuthState) × (answer ≡ ExtensionAuthState.signed_in state)
        × (is_empty state.access_token ≡ false)
        × (read_extension_auth_state deps t ≡ (ok answer, t))

    signed_in_with_sound :
        (email token : Text) (answer : ExtensionAuthState) (s t : S)
        → is_empty token ≡ false
        → signed_in_with deps email token s ≡ (ok answer, t)
        → IsSignedIn answer t
    unfolding read_extension_auth_state
    signed_in_with_sound email token answer s t full h =
        let (profile_id, u, _, h1) = bind_inv (bootstrap token) _ s answer t h in
        let (signed_in_at, v, _, h2) = bind_inv clock _ u answer t h1 in
        let state : StoredAuthState = record {
          access_token = token;
          email = email;
          profile_id = profile_id;
          signed_in_at = signed_in_at;
        } in
        let (_, w, written, h3) =
          bind_inv (write_stored_auth_state platform (some storage) state) _ v answer t h2 in
        let same : ExtensionAuthState.signed_in state ≡ answer = ground (arith, h3) in
        let at_end : w ≡ t = ground (arith, h3) in
        (state, sym same, full, rw (read-write state v t (rw at_end at written), same) refl)

    with_token_sound :
        (email : Text) (token : Option Text) (answer : ExtensionAuthState) (s t : S)
        → with_token deps email token s ≡ (ok answer, t)
        → IsSignedIn answer t
    with_token_sound email none answer s t h = absurd (ground arith)
    with_token_sound email (some token) answer s t h = elim (Bool-cases (is_empty token)) [
      | inl y ↦ absurd (ground (arith, y, h))
      | inr full ↦ signed_in_with_sound email token answer s t full (rw full at h)
    ]

    pub sign_in-read :
        (email password : Text) (answer : ExtensionAuthState) (s t : S)
        → sign_in_with_password deps email password s ≡ (ok answer, t)
        → IsSignedIn answer t
    unfolding sign_in_with_password
    sign_in-read email password answer s t h =
        let (result, u, _, h1) = bind_inv (identity email password) _ s answer t h in
        elim (Bool-cases result.has_error) [
          | inl y ↦ absurd (ground (arith, y, h1))
          | inr n ↦
              with_token_sound (or_input email result.user_email) result.access_token answer u t
                (rw n at h1)
        ]
