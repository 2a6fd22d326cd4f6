-- ===== src/Extension/Unlock.antt =====
-- background/unlock-session.ts: the master password that the extension keeps while unlocked.
pub mod Safety
use unuvault.Prelude.{
  Bool, true, false, not, Option, none, some, List, [], ◌∷◌, map, select, every, if◌then◌else◌,
  Result, ok, err, Text, codes, is_empty,
}
use unuvault.Prelude.Actions.{Action, ◌>>=◌, ◌>>◌, pure, throw, lift}
use unuvault.Extension.{Rejection, ExtensionUnlockMode, needs_setup, locked, unlocked}

-- The answer of `verifyMasterPassword`.
pub record Verification (V : Type 0) : Type 0 where
  pub success : Bool
  pub upgraded_verifier : Option V

-- What the session keeps, and the storage behind it: the stored verifier and the ciphertexts of the
-- cached vault items, `normalizeVaultLoginPayload(item.encrypted_payload).password_ciphertext`.
pub record Session (V : Type 0) : Type 0 where
  pub unlock_passphrase : Option Text
  pub verifier : Option V
  pub ciphertexts : List Text

-- The cryptography of packages/security, and whether the storage takes a write.
pub record Crypto (V : Type 0) : Type 0 where
  pub create_master_password_verifier : Text → Result Rejection V
  pub verify_master_password : V → Text → Result Rejection (Verification V)
  pub is_passphrase_protected : Text → Bool
  pub open_stored_vault_password : Text → Text → Result Rejection Text

pub data UnlockResult : Type 0 where
  success : ExtensionUnlockMode → UnlockResult
  failure : Text → ExtensionUnlockMode → UnlockResult

module _ {V : Type 0} (crypto : Crypto V) where
  -- `Promise.all`, which rejects if one of the promises does.
  open_all : List Text → Text → Result Rejection (List Text)
  open_all [] passphrase = ok []
  open_all (c ∷ cs) passphrase = elim (crypto.open_stored_vault_password c passphrase) [
    | err e ↦ err e
    | ok password ↦ elim (open_all cs passphrase) [ err e ↦ err e | ok rest ↦ ok (password ∷ rest) ]
  ]

  abbrev all_opened : Result Rejection (List Text) → Result Rejection Bool
  all_opened (err e) = err e
  all_opened (ok passwords) = ok (every (λ p. not (is_empty p)) passwords)

  unfoldable pub can_unlock_protected_ciphertexts : Text → Session V → Result Rejection Bool
  unfolding open_all
  can_unlock_protected_ciphertexts passphrase s =
      elim (select crypto.is_passphrase_protected s.ciphertexts) [
        | [] ↦ ok true
        | c ∷ cs ↦ all_opened (open_all (c ∷ cs) passphrase)
      ]

  -- A stored passphrase is falsy when it is empty.
  abbrev mode_of : Option Text → ExtensionUnlockMode
  mode_of none = locked
  mode_of (some p) = if is_empty p then locked else unlocked

  unfoldable pub read_unlock_state : Session V → ExtensionUnlockMode
  read_unlock_state s = elim s.verifier [
    | none ↦ needs_setup
    | some v ↦ mode_of s.unlock_passphrase
  ]

  abbrev forget : UnlockResult → Action (Session V) Rejection UnlockResult
  forget result s = (ok result, record s { unlock_passphrase = none })

  abbrev keep_passphrase : Text → Action (Session V) Rejection UnlockResult
  keep_passphrase passphrase s =
      (ok (success unlocked), record s { unlock_passphrase = some passphrase })

  abbrev write_verifier : V → Action (Session V) Rejection (Unit {0})
  write_verifier v s = (ok tt, record s { verifier = some v })

  abbrev write_upgrade : Option V → Action (Session V) Rejection (Unit {0})
  write_upgrade none s = (ok tt, s)
  write_upgrade (some v) s = (ok tt, record s { verifier = some v })

  abbrev can_unlock : Text → Action (Session V) Rejection Bool
  can_unlock passphrase s = (can_unlock_protected_ciphertexts passphrase s, s)

  -- No verifier yet: the passphrase is set up, if it opens what is already protected.
  abbrev set_up : Text → Action (Session V) Rejection UnlockResult
  set_up passphrase = do
    opens ← can_unlock passphrase
    if not opens
        then forget
            (failure (codes "Master password must unlock existing saved passwords") needs_setup)
        else (do
          v ← lift (crypto.create_master_password_verifier passphrase)
          write_verifier v
          keep_passphrase passphrase)

  abbrev check_against : V → Text → Action (Session V) Rejection UnlockResult
  check_against v passphrase = do
    verification ← lift (crypto.verify_master_password v passphrase)
    if not verification.success
        then forget (failure (codes "Wrong master password") locked)
        else (do
          opens ← can_unlock passphrase
          if not opens
              then forget (failure (codes "Wrong master password") locked)
              else (do write_upgrade verification.upgraded_verifier; keep_passphrase passphrase))

  abbrev with_verifier : Option V → Text → Action (Session V) Rejection UnlockResult
  with_verifier none passphrase = set_up passphrase
  with_verifier (some v) passphrase = check_against v passphrase

  unfoldable pub unlock_with_passphrase : Text → Action (Session V) Rejection UnlockResult
  unfolding read_unlock_state
  unlock_with_passphrase passphrase s =
      if is_empty passphrase
      then (ok (failure (codes "Master password is required") (read_unlock_state s)), s)
      else with_verifier s.verifier passphrase s

  unfoldable pub lock : Session V → ExtensionUnlockMode × Session V
  unfolding read_unlock_state
  lock s = let s' = record s { unlock_passphrase = none } in (read_unlock_state s', s')
