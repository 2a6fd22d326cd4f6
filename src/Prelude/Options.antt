-- ===== src/Prelude/Options.antt =====
-- Chains of options: a part that gives `none` ends them.
use mathlib.Core.Path.{◌≡◌, refl}
use mathlib.Core.Bool.{Bool, true, false}
use mathlib.Core.Option.{Option, none, some}
use native.Mathlib.Omega.{arith}

infixl 5 ◌>>=◌
abbrev pub ◌>>=◌ : {A B : Type 0} → Option A → (A → Option B) → Option B
none >>= f = none
some a >>= f = f a

infixl 5 ◌>>◌
abbrev pub ◌>>◌ : {B : Type 0} → Option (Unit {0}) → Option B → Option B
m >> k = m >>= λ _. k

abbrev pub guard : Bool → Option (Unit {0})
guard true = some tt
guard false = none

module _ {A B : Type 0} where
  -- A chain that gives a result has got one from its first part.
  pub bind-some_inv :
      (m : Option A) (f : A → Option B) (b : B)
      → (m >>= f) ≡ some b
      → (a : A) × (m ≡ some a) × (f a ≡ some b)
  bind-some_inv none f b h = absurd (ground arith)
  bind-some_inv (some a) f b h = (a, refl, h)

pub guard-some_inv :
    {B : Type 0} (t : Bool) (k : Option B) (b : B)
    → (guard t >> k) ≡ some b
    → (t ≡ true) × (k ≡ some b)
guard-some_inv true k b h = (refl, h)
guard-some_inv false k b h = absurd (ground arith)
