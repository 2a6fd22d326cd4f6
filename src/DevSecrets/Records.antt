-- ===== src/DevSecrets/Records.antt =====
-- Which encrypted record a command-line session reads and writes.
use unuvault.Prelude.{
  text_eq_self, ◌&&◌, not, length, trim, ◌==◌, ℕ, ◌<◌, true, ◌≡◌, ◌⊎◌, inl, inr, some, Result, ok,
  err, Text, text_eq_iff, map_get, map_get-map_keep, HasDistinctKeys, Option-cases, Bool-cases,
  arith,
}
use unuvault.DevSecrets.{
  Target, Grant, Sessions, Options, same_target, is_supported_dev_secret_record_target,
  get_cli_session, is_live,
}
use unuvault.DevSecrets.Service.{
  DevSecretError, unauthorized, validation, Backend, Dependencies, get_private_record,
  put_private_record,
}

pub same_target_sound : (a b : Target) → same_target a b ≡ true → a ≡ b
unfolding same_target
same_target_sound a b h = ground (
  arith,
  text_eq_iff a.app_code b.app_code,
  text_eq_iff a.target_env b.target_env,
  text_eq_iff a.secret_kind b.secret_kind,
)

pub same_target_self : (a : Target) → same_target a a ≡ true
unfolding same_target
same_target_self a =
    ground (arith, text_eq_self a.app_code, text_eq_self a.target_env, text_eq_self a.secret_kind)

-- The session of `token` is live at `now`, and was granted for `target`, which is supported.
pub record IsEntitled (s : Sessions) (now : ℕ) (token : Text) (target : Target) (g : Grant)
    : Type 0 where
  pub known : map_get token s.cli_sessions ≡ some g
  pub live : now < g.expires_at
  pub same : g.target ≡ target
  pub supported : is_supported_dev_secret_record_target target ≡ true

module _ {Rows : Type 0} (deps : Dependencies Rows) (options : Options) where
  -- A record is read only through a live session for that target, from the rows of its owner, and
  -- reading leaves the rows alone.
  pub get_private_record-IsEntitled :
      (now : ℕ) (token : Text) (target : Target) (b b' : Backend Rows) (ciphertext : Text)
      → HasDistinctKeys b.sessions.cli_sessions
      → get_private_record deps options now token target b ≡ (ok ciphertext, b')
      → (g : Grant) × IsEntitled b.sessions now token target g
        × (deps.get_stored_record g.owner_account_id target b.rows ≡ ok (some ciphertext))
        × (b'.rows ≡ b.rows)
  unfolding get_private_record get_cli_session
  get_private_record-IsEntitled now token target b b' ciphertext d h =
      elim (Option-cases (map_get token b.sessions.cli_sessions)) [
        | inl n ↦
            absurd (ground (arith, map_get-map_keep token (is_live now) b.sessions.cli_sessions d))
        | inr (g, e) ↦
            let look = map_get-map_keep token (is_live now) b.sessions.cli_sessions d in
            let live : now < g.expires_at = ground arith in
            let fits : same_target g.target target ≡ true = ground arith in
            let supported : is_supported_dev_secret_record_target target ≡ true = ground arith in
            (
              g,
              record {
                known = e;
                live = live;
                same = same_target_sound g.target target fits;
                supported = supported;
              },
              ground arith,
              ground arith,
            )
      ]

  -- A write reaches the rows only through such a session, as one write for its owner and target;
  -- a refused one leaves the rows as they were.
  pub put_private_record-IsEntitled :
      (now : ℕ) (token : Text) (target : Target) (ciphertext : Text) (b b' : Backend Rows)
      (r : Result DevSecretError (Unit {0}))
      → HasDistinctKeys b.sessions.cli_sessions
      → put_private_record deps options now token target ciphertext b ≡ (r, b')
      → ((b'.rows ≡ b.rows) × ((r ≡ err unauthorized) ⊎ (r ≡ err validation)))
        ⊎ ((g : Grant) × IsEntitled b.sessions now token target g
            × (deps.put_stored_record g.owner_account_id target ciphertext b.rows ≡ (r, b'.rows)))
  unfolding put_private_record get_cli_session
  put_private_record-IsEntitled now token target ciphertext b b' r d h =
      elim (Option-cases (map_get token b.sessions.cli_sessions)) [
        | inl n ↦
            let look = map_get-map_keep token (is_live now) b.sessions.cli_sessions d in
            inl (ground arith)
        | inr (g, e) ↦ found g e
      ]
    where
      granted :
          (g : Grant)
          → map_get token b.sessions.cli_sessions ≡ some g
          → is_live now g ≡ true
          → same_target g.target target ≡ true
          → ((b'.rows ≡ b.rows) × ((r ≡ err unauthorized) ⊎ (r ≡ err validation)))
            ⊎ ((g : Grant) × IsEntitled b.sessions now token target g
                × (deps.put_stored_record g.owner_account_id target ciphertext b.rows
                    ≡ (r, b'.rows)))
      granted g e live fits =
          let look = map_get-map_keep token (is_live now) b.sessions.cli_sessions d in
          elim (Bool-cases
            (is_supported_dev_secret_record_target target && not (length (trim ciphertext) == 0))) [
              | inr bad ↦ inl (ground arith)
              | inl good ↦ inr (
                g,
                record {
                  known = e;
                  live = ground arith;
                  same = same_target_sound g.target target fits;
                  supported = ground arith;
                },
                ground arith,
              )
            ]

      found :
          (g : Grant)
          → map_get token b.sessions.cli_sessions ≡ some g
          → ((b'.rows ≡ b.rows) × ((r ≡ err unauthorized) ⊎ (r ≡ err validation)))
            ⊎ ((g : Grant) × IsEntitled b.sessions now token target g
                × (deps.put_stored_record g.owner_account_id target ciphertext b.rows
                    ≡ (r, b'.rows)))
      found g e =
          let look = map_get-map_keep token (is_live now) b.sessions.cli_sessions d in
          elim (Bool-cases (is_live now g)) [
            | inr f ↦ inl (ground arith)
            | inl live ↦ elim (Bool-cases (same_target g.target target)) [
              | inr f ↦ inl (ground arith)
              | inl fits ↦ granted g e live fits
            ]
          ]
