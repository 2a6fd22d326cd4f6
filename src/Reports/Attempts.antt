-- ===== src/Reports/Attempts.antt =====
-- Calls whose rejection becomes a persistence error, in import-service.ts.
use unuvault.Reports.Service.{or_persistence, attempt, ImportReportError, Rejection}
use unuvault.Prelude.{arith, Result, refl, ok, err, ◌≡◌}
use unuvault.Prelude.Actions.{resume, Action, ◌>>=◌, bind_inv}

module _ {S A : Type 0} where
  pub attempt-state : (m : Action S Rejection A) (s : S) → (attempt m s).1 ≡ (m s).1
  attempt-state m s = by_result (m s)
    where
      by_result : (r : Result Rejection A × S) → (or_persistence r).1 ≡ r.1
      by_result (ok a, t) = refl
      by_result (err e, t) = refl

  attempt-ok :
      (m : Action S Rejection A) (s : S) (a : A) (t : S) → attempt m s ≡ (ok a, t) → m s ≡ (ok a, t)
  attempt-ok m s a t h = by_result (m s) h
    where
      by_result : (r : Result Rejection A × S) → or_persistence r ≡ (ok a, t) → r ≡ (ok a, t)
      by_result (ok b, u) e = ground arith
      by_result (err b, u) e = absurd (ground arith)

module _ {S A B : Type 0} where
  pub attempt_inv :
      (m : Action S Rejection A) (f : A → Action S ImportReportError B) (s : S) (b : B) (t : S)
      → (attempt m >>= f) s ≡ (ok b, t)
      → (a : A) × (u : S) × (m s ≡ (ok a, u)) × (f a u ≡ (ok b, t))
  attempt_inv m f s b t h =
      let (a, u, e, rest) = bind_inv (attempt m) f s b t h in (a, u, attempt-ok m s a u e, rest)

  pub attempt_read_inv :
      (r : S → Result Rejection A) (f : A → Action S ImportReportError B) (s : S) (b : B) (t : S)
      → (attempt (λ u. (r u, u)) >>= f) s ≡ (ok b, t)
      → (a : A) × (r s ≡ ok a) × (f a s ≡ (ok b, t))
  attempt_read_inv r f s b t h = by_result (r s) refl h
    where
      by_result :
          (q : Result Rejection A)
          → r s ≡ q
          → resume f (or_persistence (q, s)) ≡ (ok b, t)
          → (a : A) × (r s ≡ ok a) × (f a s ≡ (ok b, t))
      by_result (ok a) e k = (a, e, k)
      by_result (err x) e k = absurd (ground arith)
