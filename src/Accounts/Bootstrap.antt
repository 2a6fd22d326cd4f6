-- ===== src/Accounts/Bootstrap.antt =====
-- POST /bootstrap: who gets a profile, and which one.
use unuvault.Accounts.{
  AuthBootstrapServiceDependencies, AuthBootstrapProfile, BootstrapError, bootstrap_error,
  bootstrap_profile_from_token, bootstrap_user, not_falsy, post_bootstrap, profile_record,
  upsert_for,
}
use unuvault.Http.{success, answer, read_bearer_token}
use unuvault.Prelude.{
  Bool-cases, Option, some, none, Text, is_empty, false, ◌≡◌, refl, ok, err, arith, inl, inr,
  Option-cases, Result,
}
use unuvault.Prelude.Actions.{bind_inv}
use unuvault.Vault.{AuthUser}

filled_inv :
    (value : Option Text) (t : Text)
    → not_falsy value ≡ some t
    → (value ≡ some t) × (is_empty t ≡ false)
filled_inv none t h = absurd (ground arith)
filled_inv (some v) t h = elim (Bool-cases (is_empty v)) [
  | inl y ↦ absurd (ground (arith, y, h))
  | inr n ↦ (ground (arith, n, h), ground (arith, n, h))
]

module _ {S : Type 0} (deps : AuthBootstrapServiceDependencies S) where
  -- The token's user, who has an address and an account, and the profile that was stored for them.
  abbrev IsBootstrapped : (token : Text) → AuthBootstrapProfile → S → S → Type 0
  IsBootstrapped token profile s t =
      (user : AuthUser) × (email : Text) × (account_id : Text) × (u : S) × (deps.get_user_by_token
          token s
        ≡ (ok (some user), u))
      × (user.email ≡ some email)
      × (is_empty email ≡ false)
      × (user.account_id ≡ some account_id)
      × (is_empty account_id ≡ false)
      × (deps.upsert_user_profile (profile_record user email account_id) u ≡ (ok profile, t))

  upsert_for_inv :
      (user : AuthUser) (email account_id : Option Text) (profile : AuthBootstrapProfile) (u t : S)
      → upsert_for deps user email account_id u ≡ (ok profile, t)
      → (e : Text) × (a : Text) × (email ≡ some e)
        × (account_id ≡ some a)
        × (deps.upsert_user_profile (profile_record user e a) u ≡ (ok profile, t))
  upsert_for_inv user none account_id profile u t h = absurd (ground arith)
  upsert_for_inv user (some e) none profile u t h = absurd (ground arith)
  upsert_for_inv user (some e) (some a) profile u t h = (e, a, refl, refl, h)

  bootstrap_sound :
      (token : Text) (profile : AuthBootstrapProfile) (s t : S)
      → bootstrap_profile_from_token deps token s ≡ (ok profile, t)
      → IsBootstrapped token profile s t
  unfolding bootstrap_profile_from_token
  bootstrap_sound token profile s t h =
      let (found, u, asked, rest) =
        bind_inv (deps.get_user_by_token token) (bootstrap_user deps) s profile t h in
      by_user found u asked rest
    where
      by_user :
          (found : Option AuthUser) (u : S)
          → deps.get_user_by_token token s ≡ (ok found, u)
          → bootstrap_user deps found u ≡ (ok profile, t)
          → IsBootstrapped token profile s t
      by_user none u asked rest = absurd (ground arith)
      by_user (some user) u asked rest =
          let (e, a, has_email, has_account, stored) =
            upsert_for_inv user (not_falsy user.email) (not_falsy user.account_id) profile u t
              rest in
          let (email, full) = filled_inv user.email e has_email in
          let (account, full2) = filled_inv user.account_id a has_account in
          (user, e, a, u, asked, email, full, account, full2, stored)

  -- A profile is given for a bearer token that resolves to a user with an address and an account, and it
  -- is what the upsert of that user's record gave.
  post_bootstrap_sound :
      (authorization : Option Text) (profile : AuthBootstrapProfile) (s t : S)
      → post_bootstrap deps authorization s ≡ (success profile, t)
      → (token : Text) × (read_bearer_token authorization ≡ some token)
        × IsBootstrapped token profile s t
  unfolding post_bootstrap bootstrap_error
  post_bootstrap_sound authorization profile s t h =
      elim (Option-cases (read_bearer_token authorization)) [
        | inl n ↦ absurd (ground (arith, n, h))
        | inr (token, y) ↦ (
          token,
          y,
          bootstrap_sound token profile s t
              (by_answer (bootstrap_profile_from_token deps token s) (rw (post_bootstrap, y) at h)),
        )
      ]
    where
      by_answer :
          (given : Result BootstrapError AuthBootstrapProfile × S)
          → answer bootstrap_error (λ w. given) s ≡ (success profile, t)
          → given ≡ (ok profile, t)
      by_answer (ok p, u) h = ground (arith, h)
      by_answer (err BootstrapError.unauthorized, u) h = absurd (ground arith)
      by_answer (err BootstrapError.dependency, u) h = absurd (ground arith)
