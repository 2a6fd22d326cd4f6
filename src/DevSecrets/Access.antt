-- ===== src/DevSecrets/Access.antt =====
-- The routes over the service: what a reply says of the caller and of the rows.
use unuvault.Prelude.{
  err, refl, Result, Bool-cases, ◌≡◌, ◌⊎◌, inl, inr, arith, Option, some, ok, Text, is_empty, false,
  HasDistinctKeys, Option-cases,
}
use unuvault.Http.{success, read_bearer_token, or_blank}
use unuvault.DevSecrets.{Target, Grant, Options, Reading}
use unuvault.DevSecrets.Service.{
  unauthorized, validation, DevSecretError, dependency, Backend, Dependencies,
}
use unuvault.DevSecrets.Service
use unuvault.DevSecrets.Records.{
  IsEntitled, get_private_record-IsEntitled, put_private_record-IsEntitled,
}
use unuvault.DevSecrets.Routes.{DevSecretsService, build_target, get_record, put_record}

module _ {Rows : Type 0} (deps : Dependencies Rows) (options : Options) (now : Reading) where
  -- The routes' service: each call takes the reading of the clock in which it is served.
  abbrev pub service_at : DevSecretsService (Backend Rows)
  service_at = record {
    create_browser_handoff = Service.create_browser_handoff deps options now;
    exchange_browser_handoff = Service.exchange_browser_handoff deps options now;
    get_private_record = Service.get_private_record deps options now.purged_at;
    put_private_record = Service.put_private_record deps options now.purged_at;
  }

  -- Where no session token stands twice in the store: when the read route answers with a ciphertext,
  -- the request bears the non-empty token of a session that is live, granted for that very target,
  -- which is supported; the ciphertext is what the table has for the session's owner and the target,
  -- and the table is as before.
  pub get_record-IsEntitled :
      (authorization : Option Text) (app env ciphertext : Text) (b b' : Backend Rows)
      → HasDistinctKeys b.sessions.cli_sessions
      → get_record service_at authorization app env b ≡ (success ciphertext, b')
      → (token : Text) × (g : Grant) × (read_bearer_token authorization ≡ some token)
        × (is_empty token ≡ false)
        × IsEntitled b.sessions now.purged_at token (build_target app env) g
        × (deps.get_stored_record g.owner_account_id (build_target app env) b.rows
            ≡ ok (some ciphertext))
        × (b'.rows ≡ b.rows)
  unfolding get_record
  get_record-IsEntitled authorization app env ciphertext b b' d h =
      elim (Option-cases (read_bearer_token authorization)) [
        | inl n ↦ absurd (ground arith)
        | inr (token, e) ↦
            let named : is_empty token ≡ false = ground arith in
            let done : Service.get_private_record deps options now.purged_at token
                  (build_target app env) b
                ≡ (ok ciphertext, b') =
              ground arith in
            let (g, entitled, stored, kept) =
              get_private_record-IsEntitled deps options now.purged_at token (build_target app env)
                b b' ciphertext d done in
            (token, g, e, named, entitled, stored, kept)
      ]

  -- Where no session token stands twice in the store: the write route leaves the table as it was, or
  -- the request bears the token of a live session for that very, supported target, and the table is
  -- changed by one write of the given ciphertext for the session's owner and the target.
  pub put_record-IsEntitled :
      (authorization : Option Text) (app env : Text) (ciphertext : Option Text) (b : Backend Rows)
      → HasDistinctKeys b.sessions.cli_sessions
      → ((put_record service_at authorization app env ciphertext b).1.rows ≡ b.rows)
        ⊎ ((token : Text) × (g : Grant) × (read_bearer_token authorization ≡ some token)
            × IsEntitled b.sessions now.purged_at token (build_target app env) g
            × ((put_record service_at authorization app env ciphertext b).1.rows
                ≡ (deps.put_stored_record g.owner_account_id
                    (build_target app env)
                    (or_blank ciphertext)
                    b.rows).1))
  unfolding put_record
  put_record-IsEntitled authorization app env ciphertext b d =
      elim (Option-cases (read_bearer_token authorization)) [
        | inl n ↦ inl (ground arith)
        | inr (token, e) ↦ elim (Bool-cases (is_empty token)) [
          | inl blank ↦ inl (ground arith)
          | inr named ↦ elim (written token) [
            | inl (same, _) ↦ inl (ground arith)
            | inr (g, entitled, write) ↦ inr (token, g, e, entitled, ground arith)
          ]
        ]
      ]
    where
      wanted : Target
      wanted = build_target app env

      call : Text → Result DevSecretError (Unit {0}) × Backend Rows
      call token =
          Service.put_private_record deps options now.purged_at token wanted (or_blank ciphertext) b

      written :
          (token : Text)
          → (((call token).1.rows ≡ b.rows)
              × (((call token).0 ≡ err unauthorized) ⊎ ((call token).0 ≡ err validation)))
            ⊎ ((g : Grant) × IsEntitled b.sessions now.purged_at token wanted g
                × (deps.put_stored_record g.owner_account_id wanted (or_blank ciphertext) b.rows
                    ≡ ((call token).0, (call token).1.rows)))
      written token =
          put_private_record-IsEntitled deps options now.purged_at token wanted
            (or_blank ciphertext) b (call token).1 (call token).0 d refl
