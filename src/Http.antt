-- ===== src/Http.antt =====
-- What the route handlers of apps/api/src/routes read of a request, and how they answer.
use unuvault.Prelude.{
  refl, ◌≡◌, [], ℕ, Option, none, some, Result, ok, err, Text, codes, strip_prefix,
}
use unuvault.Prelude.Actions.{Action}

-- A reply is the value of the handler with status 200, or a status code and an error word.
pub data Reply (A : Type 0) : Type 0 where
  success : A → Reply A
  failure : ℕ → Text → Reply A

-- A handler answers every request, and changes the state behind the service.
abbrev pub Handler : Type 0 → Type 0 → Type 0
Handler S A = S → Reply A × S

abbrev pub bearer_prefix : Text
bearer_prefix = codes "Bearer "

-- `readBearerToken` of routes/local-credential-bridge.ts; that of routes/dev-secrets.ts is the same.
unfoldable pub read_bearer_token : Option Text → Option Text
read_bearer_token none = none
read_bearer_token (some authorization) = strip_prefix bearer_prefix authorization

-- `value ?? ""`.
abbrev pub or_blank : Option Text → Text
or_blank none = []
or_blank (some t) = t

abbrev pub reply_of : {S E A : Type 0} → (E → Reply A) → Result E A × S → Reply A × S
reply_of on_error (ok a, s) = (success a, s)
reply_of on_error (err e, s) = (on_error e, s)

-- `try { return await call } catch (error) { … }`: the handler's reply to what the call throws.
abbrev pub answer : {S E A : Type 0} → (E → Reply A) → Action S E A → Handler S A
answer on_error m s = reply_of on_error (m s)

module _ {S E A : Type 0} where
  pub answer-state :
      (on_error : E → Reply A) (m : Action S E A) (s : S) → (answer on_error m s).1 ≡ (m s).1
  answer-state on_error m s = by_result (m s)
    where
      by_result : (r : Result E A × S) → (reply_of on_error r).1 ≡ r.1
      by_result (ok a, t) = refl
      by_result (err e, t) = refl
