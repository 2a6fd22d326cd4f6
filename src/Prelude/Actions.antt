-- ===== src/Prelude/Actions.antt =====
-- A handler that changes a state and may throw: what was written before a throw stays written.
use mathlib.Core.Path.{◌≡◌, refl}
use native.Mathlib.Omega.{arith}
use unuvault.Prelude.Results.{Result, ok, err}

abbrev pub Action : Type 0 → Type 0 → Type 0 → Type 0
Action S E A = S → Result E A × S

abbrev pub resume : {S E A B : Type 0} → (A → Action S E B) → Result E A × S → Result E B × S
resume f (ok a, s) = f a s
resume f (err e, s) = (err e, s)

infixl 5 ◌>>=◌ ◌>>◌
abbrev pub ◌>>=◌ : {S E A B : Type 0} → Action S E A → (A → Action S E B) → Action S E B
◌>>=◌ m f s = resume f (m s)

abbrev pub ◌>>◌ : {S E B : Type 0} → Action S E (Unit {0}) → Action S E B → Action S E B
m >> k = m >>= λ _. k

abbrev pub pure : {S E A : Type 0} → A → Action S E A
pure a s = (ok a, s)

abbrev pub throw : {S E A : Type 0} → E → Action S E A
throw e s = (err e, s)

-- A part that reads no state.
abbrev pub lift : {S E A : Type 0} → Result E A → Action S E A
lift r s = (r, s)

module _ {S E A B : Type 0} where
  resume_inv :
      (f : A → Action S E B) (r : Result E A × S) (b : B) (t : S)
      → resume f r ≡ (ok b, t)
      → (a : A) × (s : S) × (r ≡ (ok a, s)) × (f a s ≡ (ok b, t))
  resume_inv f (ok a, s) b t h = (a, s, refl, h)
  resume_inv f (err e, s) b t h = absurd (ground arith)

  -- A chain that gives a result has got one from its first part.
  pub bind_inv :
      (m : Action S E A) (f : A → Action S E B) (s : S) (b : B) (t : S)
      → (m >>= f) s ≡ (ok b, t)
      → (a : A) × (u : S) × (m s ≡ (ok a, u)) × (f a u ≡ (ok b, t))
  bind_inv m f s b t h = resume_inv f (m s) b t h

  -- What the first part leaves true, and every continuation keeps, the chain leaves true.
  pub bind_keeps :
      (P : S → Type 0) (m : Action S E A) (f : A → Action S E B) (s : S)
      → P (m s).1
      → ((a : A) (u : S) → P u → P (f a u).1)
      → P ((m >>= f) s).1
  bind_keeps P m f s h k = resume_keeps (m s) h
    where
      resume_keeps : (r : Result E A × S) → P r.1 → P (resume f r).1
      resume_keeps (ok a, u) h = k a u h
      resume_keeps (err e, u) h = h

  -- A part that reads no state leaves it to the rest of the chain.
  pub bind-lift_inv :
      (r : Result E A) (f : A → Action S E B) (s : S) (b : B) (t : S)
      → (lift r >>= f) s ≡ (ok b, t)
      → (a : A) × (r ≡ ok a) × (f a s ≡ (ok b, t))
  bind-lift_inv (ok a) f s b t h = (a, refl, h)
  bind-lift_inv (err e) f s b t h = absurd (ground arith)
