-- ===== src/Extension/Unlock/Safety.antt =====
-- When the extension is unlocked.
use unuvault.Prelude.{
  ap, sym, ◌∙◌, true, false, ◌≡◌, ◌≢◌, refl, ◌⊎◌, inl, inr, arith, none, some, List, [], ◌∷◌,
  Result, ok, err, Text, is_empty, Option-cases, Result-cases,
}
use unuvault.Extension.{Rejection, ExtensionUnlockMode, unlocked}
use unuvault.Extension.Unlock.{
  Verification, Session, Crypto, UnlockResult, success, failure, can_unlock_protected_ciphertexts,
  read_unlock_state, unlock_with_passphrase, lock,
}

-- What the verifiers promise: one created for a password that is not empty accepts it, and an upgraded
-- one accepts the password that was checked.
pub record IsFaithful {V : Type 0} (crypto : Crypto V) : Type 0 where
  pub created :
      (p : Text) (v : V)
      → is_empty p ≡ false
      → crypto.create_master_password_verifier p ≡ ok v
      → (r : Verification V) × (crypto.verify_master_password v p ≡ ok r) × (r.success ≡ true)
  pub upgraded :
      (p : Text) (v w : V) (r : Verification V)
      → crypto.verify_master_password v p ≡ ok r
      → r.success ≡ true
      → r.upgraded_verifier ≡ some w
      → (q : Verification V) × (crypto.verify_master_password w p ≡ ok q) × (q.success ≡ true)

module _ {V : Type 0} (crypto : Crypto V) where
  -- A kept passphrase is not empty, and the stored verifier accepts it.
  abbrev pub IsChecked : Text → Session V → Type 0
  IsChecked p s =
      (is_empty p ≡ false)
      × ((v : V) × (r : Verification V) × (s.verifier ≡ some v)
          × (crypto.verify_master_password v p ≡ ok r)
          × (r.success ≡ true))

  abbrev pub IsSound : Session V → Type 0
  IsSound s = (p : Text) → s.unlock_passphrase ≡ some p → IsChecked p s

  -- Given that a verifier created for a password that is not empty accepts it, and an upgraded one
  -- the password that was checked: a successful unlock says `unlocked`, keeps exactly the passphrase
  -- that was given, which is not empty and which the verifier that is then stored accepts, and the
  -- passphrase opens every protected ciphertext to a non-empty password.
  pub unlock_succeeds :
      (p : Text) (s s' : Session V) (mode : ExtensionUnlockMode)
      → IsFaithful crypto
      → unlock_with_passphrase crypto p s ≡ (ok (success mode), s')
      → (mode ≡ unlocked)
        × (s'.unlock_passphrase ≡ some p)
        × IsChecked p s'
        × (can_unlock_protected_ciphertexts crypto p s ≡ ok true)
  unfolding unlock_with_passphrase
  unlock_succeeds p s s' mode law h = elim (Option-cases s.verifier) [
    | inl missing ↦ elim (Result-cases (crypto.create_master_password_verifier p)) [
      | inr (e, n) ↦ absurd (ground arith)
      | inl (v, e) ↦
          let (r, checks, accepted) = law.created p v (ground arith) e in
          let stored : s'.verifier ≡ some v = ground arith in
          (
            ground arith,
            ground arith,
            (ground arith, (v, r, stored, checks, accepted)),
            ground arith,
          )
    ]
    | inr (v, there) ↦ elim (Result-cases (crypto.verify_master_password v p)) [
      | inr (e, n) ↦ absurd (ground arith)
      | inl (r, checks) ↦
          let accepted : r.success ≡ true = ground arith in
          (
            ground arith,
            ground arith,
            (ground arith, after v r there checks accepted),
            ground arith,
          )
    ]
  ]
    where
      after :
          (v : V) (r : Verification V)
          → s.verifier ≡ some v
          → crypto.verify_master_password v p ≡ ok r
          → r.success ≡ true
          → (w : V) × (q : Verification V) × (s'.verifier ≡ some w)
            × (crypto.verify_master_password w p ≡ ok q)
            × (q.success ≡ true)
      after v r there checks accepted = elim (Option-cases r.upgraded_verifier) [
        | inl n ↦ (v, r, ground arith, checks, accepted)
        | inr (w, e) ↦
            let (q, again, yes') = law.upgraded p v w r checks accepted e in
            (w, q, ground arith, again, yes')
      ]

  -- A non-empty passphrase that the stored verifier accepts, and that opens every protected
  -- ciphertext, unlocks the extension: it is kept, the state reads `unlocked`, and the verifier is
  -- replaced by its upgrade where there is one.
  unlock_accepts :
      (p : Text) (s : Session V) (v : V) (r : Verification V)
      → is_empty p ≡ false
      → s.verifier ≡ some v
      → crypto.verify_master_password v p ≡ ok r
      → r.success ≡ true
      → can_unlock_protected_ciphertexts crypto p s ≡ ok true
      → ((unlock_with_passphrase crypto p s).0 ≡ ok (success unlocked))
        × ((unlock_with_passphrase crypto p s).1.unlock_passphrase ≡ some p)
        × ((unlock_with_passphrase crypto p s).1.verifier
            ≡ some (elim r.upgraded_verifier [ none ↦ v | some w ↦ w ]))
        × (read_unlock_state crypto (unlock_with_passphrase crypto p s).1 ≡ unlocked)
  unfolding unlock_with_passphrase read_unlock_state
  unlock_accepts p s v r given there checks accepted opens = ground arith

  -- An unlock that is refused with an error changes nothing where the passphrase is empty, and
  -- otherwise drops the passphrase that was kept and changes nothing else; the mode of the answer is
  -- that of the state it leaves.
  pub unlock_refused :
      (p error : Text) (s s' : Session V) (mode : ExtensionUnlockMode)
      → unlock_with_passphrase crypto p s ≡ (ok (failure error mode), s')
      → ((is_empty p ≡ true) × (s' ≡ s) × (mode ≡ read_unlock_state crypto s))
        ⊎ ((is_empty p ≡ false)
            × (s' ≡ record s { unlock_passphrase = none })
            × (mode ≡ read_unlock_state crypto s'))
  unfolding unlock_with_passphrase
  unlock_refused p error s s' mode h = ground arith

  -- A call that rejects keeps what was unlocked before.
  pub unlock_rejected :
      (p : Text) (s s' : Session V) (e : Rejection)
      → unlock_with_passphrase crypto p s ≡ (err e, s')
      → s' ≡ s
  unfolding unlock_with_passphrase
  unlock_rejected p s s' e h = ground arith

-- The calls of the session.
pub data Call : Type 0 where
  unlocks : Text → Call
  locks : Call

module _ {V : Type 0} (crypto : Crypto V) where
  serve : Call → Session V → Session V
  serve (unlocks p) s = (unlock_with_passphrase crypto p s).1
  serve locks s = (lock crypto s).1

  unfoldable pub run : List Call → Session V → Session V
  unfolding serve
  run [] s = s
  run (c ∷ cs) s = run cs (serve c s)

  serve-IsSound :
      (c : Call) (s : Session V) → IsFaithful crypto → IsSound crypto s → IsSound crypto (serve c s)
  unfolding serve
  serve-IsSound locks s law i = unfold lock in λ p e. absurd (ground arith)
  serve-IsSound (unlocks p) s law i = go (unlock_with_passphrase crypto p s) refl
    where
      go :
          (out : Result Rejection UnlockResult × Session V)
          → unlock_with_passphrase crypto p s ≡ out
          → IsSound crypto out.1
      go (ok (success mode), s') e q kept =
          let (_, given, checked, _) = unlock_succeeds crypto p s s' mode law e in
          let same : p ≡ q = ground arith in rw same at checked
      go (ok (failure word mode), s') e q kept = elim (unlock_refused crypto p word s s' mode e) [
        | inl (_, same, _) ↦ rw same (i q (rw same at kept))
        | inr (_, same, _) ↦ absurd (ground arith)
      ]
      go (err x, s') e q kept =
          let same = unlock_rejected crypto p s s' x e in rw same (i q (rw same at kept))

  -- Given that a verifier created for a password that is not empty accepts it, and an upgraded one
  -- the password that was checked: from a state where a kept passphrase is not empty and accepted by
  -- the stored verifier, any sequence of unlocks and locks, refused and rejected ones included, leads
  -- to such a state.
  pub run-IsSound :
      (cs : List Call) (s : Session V)
      → IsFaithful crypto
      → IsSound crypto s
      → IsSound crypto (run cs s)
  unfolding run
  run-IsSound [] s law i = i
  run-IsSound (c ∷ cs) s law i = run-IsSound cs (serve c s) law (serve-IsSound c s law i)

  -- Locking forgets the passphrase: the mode is locked or waits for a set-up, and the verifier stays.
  pub lock_lem :
      (s : Session V)
      → ((lock crypto s).1 ≡ record s { unlock_passphrase = none })
        × ((lock crypto s).0 ≢ unlocked)
        × ((lock crypto s).0 ≡ read_unlock_state crypto (lock crypto s).1)
  unfolding lock
  lock_lem s = ground arith

  same_ciphertexts :
      (p : Text) (s t : Session V)
      → s.ciphertexts ≡ t.ciphertexts
      → can_unlock_protected_ciphertexts crypto p s ≡ can_unlock_protected_ciphertexts crypto p t
  unfolding can_unlock_protected_ciphertexts
  same_ciphertexts p s t same = rw same refl

  -- An unlock leaves the ciphertexts alone.
  unlock-ciphertexts :
      (p : Text) (s : Session V) → (unlock_with_passphrase crypto p s).1.ciphertexts ≡ s.ciphertexts
  unfolding unlock_with_passphrase
  unlock-ciphertexts p s = ground arith

  -- Given that a verifier created for a password that is not empty accepts it, and an upgraded one the
  -- password that was checked: after a successful unlock, set-up included, and a lock, the same
  -- passphrase unlocks the extension again, and is kept again.
  pub unlock-lock-unlock :
      (p : Text) (s s' : Session V) (mode : ExtensionUnlockMode)
      → IsFaithful crypto
      → unlock_with_passphrase crypto p s ≡ (ok (success mode), s')
      → ((unlock_with_passphrase crypto p (lock crypto s').1).0 ≡ ok (success unlocked))
        × ((unlock_with_passphrase crypto p (lock crypto s').1).1.unlock_passphrase ≡ some p)
        × (read_unlock_state crypto (unlock_with_passphrase crypto p (lock crypto s').1).1
            ≡ unlocked)
  unlock-lock-unlock p s s' mode law h =
      let (_, _, (full, (v, r, there, checks, accepted)), opens) =
        unlock_succeeds crypto p s s' mode law h in
      let (locked', _, _) = lock_lem s' in
      let kept : s'.ciphertexts ≡ s.ciphertexts =
        ap (λ (out : Result Rejection UnlockResult × Session V). out.1.ciphertexts) (sym h)
        ∙ unlock-ciphertexts p s in
      let again =
        unlock_accepts crypto p (record s' { unlock_passphrase = none }) v r full there checks
          accepted (same_ciphertexts p (record s' { unlock_passphrase = none }) s kept ∙ opens) in
      rw locked' (again.0, again.1, again.3)
