-- ===== src/Prelude/Lists.antt =====
-- Lists measured by native numbers, and the array methods that the source calls: `filter`, `find`,
-- `some`, `every` and `includes` with Boolean tests, under the names that the libraries leave free.
use Prim.Native.Nat.{ℕ, suc, ◌+◌, ◌≤◌}
use mathlib.Core.Path.{◌≡◌, refl, sym, ◌∙◌, ap}
use mathlib.Core.Bool.{Bool, true, false, ◌&&◌, ◌||◌, false≢true}
use mathlib.Core.List.{List, [], ◌∷◌, ◌++◌, map}
use mathlib.Core.Logic.{◌↔◌, ◌⊎◌, inl, inr}
use mathlib.Core.Option.{Option, none, some}
use native.Mathlib.Omega.{arith}
use unuvault.Prelude.Tests.{if◌then◌else◌, Bool-cases}

module _ {ℓ} {A : Type ℓ} where
  abbrev pub length : List A → ℕ
  length [] = 0
  length (x ∷ xs) = suc (length xs)

  pub length-append : (xs ys : List A) → length (xs ++ ys) ≡ length xs + length ys
  length-append [] ys = omega arith
  length-append (x ∷ xs) ys = omega (arith, length-append xs ys)

  abbrev pub select : (A → Bool) → List A → List A
  select p [] = []
  select p (x ∷ xs) = if p x then x ∷ select p xs else select p xs

  abbrev pub find : (A → Bool) → List A → Option A
  find p [] = none
  find p (x ∷ xs) = if p x then some x else find p xs

  abbrev pub every : (A → Bool) → List A → Bool
  every p [] = true
  every p (x ∷ xs) = p x && every p xs

  abbrev pub exists : (A → Bool) → List A → Bool
  exists p [] = false
  exists p (x ∷ xs) = p x || exists p xs

  pub length-select-le : (p : A → Bool) (xs : List A) → length (select p xs) ≤ length xs
  length-select-le p [] = omega arith
  length-select-le p (x ∷ xs) = ground (arith, length-select-le p xs)

-- Membership and `All` by recursion, which compute to tuples.
module _ {A : Type 0} where
  abbrev pub Elem : A → List A → Type 0
  Elem a [] = ⊥
  Elem a (x ∷ xs) = (a ≡ x) ⊎ Elem a xs

  pub find_sound :
      (t : A → Bool) (xs : List A) (a : A) → find t xs ≡ some a → Elem a xs × (t a ≡ true)
  find_sound t [] a e = cc
  find_sound t (x ∷ xs) a e = elim (Bool-cases (t x)) [
    | inl p ↦ let same : a ≡ x = ground arith in (inl same, rw same p)
    | inr n ↦ let (h, q) = find_sound t xs a (ground arith) in (inr h, q)
  ]

  -- A search fails only where the test fails everywhere.
  pub find_complete :
      (t : A → Bool) (xs : List A) (a : A) → Elem a xs → t a ≡ true → (b : A) × (find t xs ≡ some b)
  find_complete t (x ∷ xs) a h e = elim (Bool-cases (t x)) [
    | inl p ↦ (x, rw p)
    | inr n ↦ rw n (find_complete t xs a (later n h) e)
  ]
    where
      later : t x ≡ false → Elem a (x ∷ xs) → Elem a xs
      later n (inl same) = absurd (false≢true (sym n ∙ rw same at e))
      later n (inr h) = h
  find_complete t [] a h e = absurd h

  select_step :
      (t : A → Bool) (x a : A) (xs ys : List A)
      → (Elem a ys ↔ (Elem a xs × (t a ≡ true)))
      → Elem a (if t x then x ∷ ys else ys) ↔ (Elem a (x ∷ xs) × (t a ≡ true))
  select_step t x a xs ys ih = elim (Bool-cases (t x)) [
    | inl p ↦ rw p (onward p, backward)
    | inr n ↦ rw n (λ h. (inr (ih.0 h).0, (ih.0 h).1), skip n)
  ]
    where
      onward : t x ≡ true → Elem a (x ∷ ys) → Elem a (x ∷ xs) × (t a ≡ true)
      onward p (inl same) = (inl same, rw same p)
      onward p (inr h) = (inr (ih.0 h).0, (ih.0 h).1)

      backward : Elem a (x ∷ xs) × (t a ≡ true) → Elem a (x ∷ ys)
      backward (inl same, q) = inl same
      backward (inr h, q) = inr (ih.1 (h, q))

      skip : t x ≡ false → Elem a (x ∷ xs) × (t a ≡ true) → Elem a ys
      skip n (inl same, q) = absurd (false≢true (sym n ∙ rw same at q))
      skip n (inr h, q) = ih.1 (h, q)

  pub Elem-select :
      (t : A → Bool) (xs : List A) (a : A) → Elem a (select t xs) ↔ (Elem a xs × (t a ≡ true))
  Elem-select t [] a = (absurd, λ h. h.0)
  Elem-select t (x ∷ xs) a = select_step t x a xs (select t xs) (Elem-select t xs a)

  pub Elem-snoc : (xs : List A) (x a : A) → Elem a (xs ++ x ∷ []) ↔ (Elem a xs ⊎ (a ≡ x))
  Elem-snoc [] x a = (
    λ h. elim h [ inl same ↦ inr same | inr z ↦ absurd z ],
    λ h. elim h [ inl z ↦ absurd z | inr same ↦ inl same ],
  )
  Elem-snoc (y ∷ ys) x a = let ih = Elem-snoc ys x a in (onward ih, backward ih)
    where
      onward :
          (Elem a (ys ++ x ∷ []) ↔ (Elem a ys ⊎ (a ≡ x)))
          → Elem a ((y ∷ ys) ++ x ∷ [])
          → Elem a (y ∷ ys) ⊎ (a ≡ x)
      onward ih (inl same) = inl (inl same)
      onward ih (inr h) = elim (ih.0 h) [ inl e ↦ inl (inr e) | inr same ↦ inr same ]

      backward :
          (Elem a (ys ++ x ∷ []) ↔ (Elem a ys ⊎ (a ≡ x)))
          → Elem a (y ∷ ys) ⊎ (a ≡ x)
          → Elem a ((y ∷ ys) ++ x ∷ [])
      backward ih (inl (inl same)) = inl same
      backward ih (inl (inr h)) = inr (ih.1 (inl h))
      backward ih (inr same) = inr (ih.1 (inr same))

module _ {ℓ κ} {A : Type ℓ} (P : A → Type κ) where
  abbrev pub All : List A → Type κ
  All [] = Unit
  All (x ∷ xs) = P x × All xs

  pub All-append : (xs ys : List A) → All xs → All ys → All (xs ++ ys)
  All-append [] ys _ k = k
  All-append (x ∷ xs) ys (p, h) k = (p, All-append xs ys h k)

  pub All-select : (t : A → Bool) (xs : List A) → All xs → All (select t xs)
  All-select t [] _ = tt
  All-select t (x ∷ xs) h = ground (arith, All-select t xs h.1)

  pub All-find : (t : A → Bool) (xs : List A) (a : A) → find t xs ≡ some a → All xs → P a
  All-find t [] a e h = cc
  All-find t (x ∷ xs) a e h = elim (Bool-cases (t x)) [
    | inl p ↦ ground arith
    | inr n ↦ All-find t xs a (ground arith) h.1
  ]

module _ {A B : Type 0} where
  pub Elem-map :
      (f : A → B) (xs : List A) (b : B) → Elem b (map f xs) → (a : A) × Elem a xs × (b ≡ f a)
  Elem-map f [] b h = absurd h
  Elem-map f (x ∷ xs) b (inl same) = (x, inl refl, same)
  Elem-map f (x ∷ xs) b (inr h) = let (a, m, e) = Elem-map f xs b h in (a, inr m, e)

  pub Elem-map_of_Elem : (f : A → B) (xs : List A) (a : A) → Elem a xs → Elem (f a) (map f xs)
  Elem-map_of_Elem f [] a h = absurd h
  Elem-map_of_Elem f (x ∷ xs) a (inl same) = inl (ap f same)
  Elem-map_of_Elem f (x ∷ xs) a (inr h) = inr (Elem-map_of_Elem f xs a h)
