-- ===== src/Prelude/Maps.antt =====
-- A JavaScript `Map` with string keys, as a list of entries in insertion order.
use mathlib.Core.Path.{◌≡◌, refl}
use mathlib.Core.Bool.{true, Bool}
use mathlib.Core.List.{List, [], ◌∷◌}
use mathlib.Core.Option.{Option, none, some}
use native.Mathlib.Omega.{arith}
use unuvault.Prelude.Tests.{if◌then◌else◌}
use unuvault.Prelude.Texts.{text_eq_self, Text, text_eq, text_eq_iff}

abbrev pub TextMap {ℓ} : Type ℓ → Type ℓ
TextMap V = List (Text × V)

module _ {ℓ} {V : Type ℓ} where
  unfoldable pub map_get : Text → TextMap V → Option V
  map_get k [] = none
  map_get k ((j, v) ∷ m) = if text_eq j k then some v else map_get k m

  unfoldable pub map_set : Text → V → TextMap V → TextMap V
  map_set k v [] = (k, v) ∷ []
  map_set k v ((j, w) ∷ m) = if text_eq j k then (j, v) ∷ m else (j, w) ∷ map_set k v m

  unfoldable pub map_delete : Text → TextMap V → TextMap V
  map_delete k [] = []
  map_delete k ((j, v) ∷ m) = if text_eq j k then map_delete k m else (j, v) ∷ map_delete k m

  -- The entries whose value passes a test.
  unfoldable pub map_keep : (V → Bool) → TextMap V → TextMap V
  map_keep t [] = []
  map_keep t ((j, v) ∷ m) = if t v then (j, v) ∷ map_keep t m else map_keep t m

  pub map_get-map_set :
      (k j : Text) (v : V) (m : TextMap V)
      → map_get j (map_set k v m) ≡ (if text_eq k j then some v else map_get j m)
  unfolding map_get map_set
  map_get-map_set k j v [] = refl
  map_get-map_set k j v ((i, w) ∷ m) =
      ground (arith, text_eq_iff i k, text_eq_iff i j, text_eq_iff k j, map_get-map_set k j v m)

  pub map_get-map_delete :
      (k j : Text) (m : TextMap V)
      → map_get j (map_delete k m) ≡ (if text_eq k j then none else map_get j m)
  unfolding map_get map_delete
  map_get-map_delete k j [] = ground arith
  map_get-map_delete k j ((i, w) ∷ m) =
      ground (arith, text_eq_iff i k, text_eq_iff i j, text_eq_iff k j, map_get-map_delete k j m)

  -- Every key occurs once, as in a `Map`.
  abbrev pub HasDistinctKeys : TextMap V → Type ℓ
  HasDistinctKeys [] = Unit
  HasDistinctKeys ((k, v) ∷ m) = (map_get k m ≡ none) × HasDistinctKeys m

  -- An option whose value has to pass a test.
  abbrev pub option_if : (V → Bool) → Option V → Option V
  option_if t none = none
  option_if t (some v) = if t v then some v else none

  map_get-map_keep-none :
      (k : Text) (t : V → Bool) (m : TextMap V)
      → map_get k m ≡ none
      → map_get k (map_keep t m) ≡ none
  unfolding map_get map_keep
  map_get-map_keep-none k t [] h = refl
  map_get-map_keep-none k t ((j, v) ∷ m) h = ground (arith, map_get-map_keep-none k t m)

  pub map_get-map_keep :
      (k : Text) (t : V → Bool) (m : TextMap V)
      → HasDistinctKeys m
      → map_get k (map_keep t m) ≡ option_if t (map_get k m)
  unfolding map_get map_keep
  map_get-map_keep k t [] d = refl
  map_get-map_keep k t ((j, v) ∷ m) d = ground (
    arith,
    map_get-map_keep k t m d.1,
    map_get-map_keep-none k t m,
    map_get-map_keep-none j t m d.0,
    text_eq_iff j k,
  )

  pub map_set-HasDistinctKeys :
      (k : Text) (v : V) (m : TextMap V) → HasDistinctKeys m → HasDistinctKeys (map_set k v m)
  unfolding map_set
  map_set-HasDistinctKeys k v [] d = (unfold map_get in refl, tt)
  map_set-HasDistinctKeys k v ((j, w) ∷ m) d = ground (
    arith,
    map_set-HasDistinctKeys k v m d.1,
    map_get-map_set k j v m,
    text_eq_iff j k,
    text_eq_iff k j,
  )

  pub map_delete-HasDistinctKeys :
      (k : Text) (m : TextMap V) → HasDistinctKeys m → HasDistinctKeys (map_delete k m)
  unfolding map_delete
  map_delete-HasDistinctKeys k [] d = tt
  map_delete-HasDistinctKeys k ((j, w) ∷ m) d =
      ground (arith, map_delete-HasDistinctKeys k m d.1, map_get-map_delete k j m)

  pub map_keep-HasDistinctKeys :
      (t : V → Bool) (m : TextMap V) → HasDistinctKeys m → HasDistinctKeys (map_keep t m)
  unfolding map_keep
  map_keep-HasDistinctKeys t [] d = tt
  map_keep-HasDistinctKeys t ((j, w) ∷ m) d =
      ground (arith, map_keep-HasDistinctKeys t m d.1, map_get-map_keep-none j t m)

-- A property of every value.
module _ {ℓ κ} {V : Type ℓ} (P : V → Type κ) where
  abbrev pub AllValues : TextMap V → Type κ
  AllValues [] = Unit
  AllValues ((k, v) ∷ m) = P v × AllValues m

  pub map_get-AllValues :
      (k : Text) (v : V) (m : TextMap V) → map_get k m ≡ some v → AllValues m → P v
  unfolding map_get
  map_get-AllValues k v [] e h = absurd (ground arith)
  map_get-AllValues k v ((j, w) ∷ m) e (p, h) = ground (arith, map_get-AllValues k v m, p)

  pub map_set-AllValues :
      (k : Text) (v : V) (m : TextMap V) → P v → AllValues m → AllValues (map_set k v m)
  unfolding map_set
  map_set-AllValues k v [] p h = (p, tt)
  map_set-AllValues k v ((j, w) ∷ m) p h = ground (arith, map_set-AllValues k v m p h.1)

  pub map_delete-AllValues : (k : Text) (m : TextMap V) → AllValues m → AllValues (map_delete k m)
  unfolding map_delete
  map_delete-AllValues k [] h = tt
  map_delete-AllValues k ((j, w) ∷ m) h = ground (arith, map_delete-AllValues k m h.1)

  pub map_keep-AllValues : (t : V → Bool) (m : TextMap V) → AllValues m → AllValues (map_keep t m)
  unfolding map_keep
  map_keep-AllValues t [] h = tt
  map_keep-AllValues t ((j, w) ∷ m) h = ground (arith, map_keep-AllValues t m h.1)

-- A new entry survives a purge that it passes.
pub map_get-map_keep-map_set {ℓ} :
    {V : Type ℓ} (k : Text) (v : V) (t : V → Bool) (m : TextMap V)
    → HasDistinctKeys m
    → t v ≡ true
    → map_get k (map_keep t (map_set k v m)) ≡ some v
map_get-map_keep-map_set k v t m d h =
    let set = map_set-HasDistinctKeys k v m d in
    ground
      (arith, map_get-map_keep k t (map_set k v m) set, map_get-map_set k k v m, text_eq_self k)
