-- ===== src/Prelude/Regexes.antt =====
-- The regular expressions of the source, anchored at both ends. `matches` runs them by
-- derivatives, and `Lang` says which texts an expression describes.
use Prim.Native.Nat.{ℕ, zero, suc}
use mathlib.Core.Path.{◌≡◌, refl, sym, ◌∙◌, ap}
use mathlib.Core.Logic.{◌↔◌, ◌⊎◌, inl, inr}
use mathlib.Core.Bool.{Bool, true, false, ◌&&◌, ◌||◌}
use mathlib.Core.List.{[], ◌∷◌, ◌++◌}
use native.Mathlib.Omega.{arith}
use unuvault.Prelude.Tests.{if◌then◌else◌, ◌==◌, Bool-cases, and-eq-true_split}
use unuvault.Prelude.Texts.{Text}

pub data Regex : Type 0 where
  never : Regex
  nothing : Regex
  set : (ℕ → Bool) → Regex
  seq : Regex → Regex → Regex
  either : Regex → Regex → Regex
  star : Regex → Regex

-- `r+`, `r?`, `r{n}` and a literal character.
abbrev pub plus : Regex → Regex
plus r = seq r (star r)

abbrev pub optional : Regex → Regex
optional r = either r nothing

abbrev pub times : ℕ → Regex → Regex
times zero r = nothing
times (suc n) r = seq r (times n r)

abbrev pub char : ℕ → Regex
char c = set (λ x. x == c)

nullable : Regex → Bool
nullable never = false
nullable nothing = true
nullable (set p) = false
nullable (seq a b) = nullable a && nullable b
nullable (either a b) = nullable a || nullable b
nullable (star a) = true

deriv : ℕ → Regex → Regex
unfolding nullable
deriv c never = never
deriv c nothing = never
deriv c (set p) = if p c then nothing else never
deriv c (seq a b) =
    let left = seq (deriv c a) b in if nullable a then either left (deriv c b) else left
deriv c (either a b) = either (deriv c a) (deriv c b)
deriv c (star a) = seq (deriv c a) (star a)

unfoldable pub matches : Regex → Text → Bool
unfolding nullable deriv
matches r [] = nullable r
matches r (c ∷ s) = matches (deriv c r) s

-- Words of `P`, one after another.
pub data Star (P : Text → Type 0) : Text → Type 0 where
  done : Star P []
  more : {s : Text} (u v : Text) → s ≡ u ++ v → P u → Star P v → Star P s

abbrev pub Lang : Regex → Text → Type 0
Lang never s = ⊥
Lang nothing s = s ≡ []
Lang (set p) s = (c : ℕ) × (s ≡ c ∷ []) × (p c ≡ true)
Lang (seq a b) s = (u : Text) × (v : Text) × (s ≡ u ++ v) × Lang a u × Lang b v
Lang (either a b) s = Lang a s ⊎ Lang b s
Lang (star a) s = Star (Lang a) s

nullable_sound : (r : Regex) → nullable r ≡ true → Lang r []
unfolding nullable
nullable_sound never h = cc
nullable_sound nothing h = refl
nullable_sound (set p) h = cc
nullable_sound (seq a b) h =
    let (ha, hb) = and-eq-true_split (nullable a) (nullable b) h in
    ([], [], refl, nullable_sound a ha, nullable_sound b hb)
nullable_sound (either a b) h = elim (Bool-cases (nullable a)) [
  | inl e ↦ inl (nullable_sound a e)
  | inr e ↦ inr (nullable_sound b (ground arith))
]
nullable_sound (star a) h = done

append-eq-nil : (u v : Text) → [] ≡ u ++ v → (u ≡ []) × (v ≡ [])
append-eq-nil [] v e = (refl, sym e)
append-eq-nil (c ∷ u) v e = (cc, cc)

nullable_complete : (r : Regex) → Lang r [] → nullable r ≡ true
unfolding nullable
nullable_complete never h = absurd h
nullable_complete nothing h = refl
nullable_complete (set p) (c, e, h) = cc
nullable_complete (seq a b) (u, v, e, hu, hv) =
    let (eu, ev) = append-eq-nil u v e in
    ground (arith, nullable_complete a (rw eu at hu), nullable_complete b (rw ev at hv))
nullable_complete (either a b) (inl h) = ground (arith, nullable_complete a h)
nullable_complete (either a b) (inr h) = ground (arith, nullable_complete b h)
nullable_complete (star a) h = refl

seq_sound :
    (a b a' : Regex) (c : ℕ) (s : Text)
    → ((u : Text) → Lang a' u → Lang a (c ∷ u))
    → Lang (seq a' b) s
    → Lang (seq a b) (c ∷ s)
seq_sound a b a' c s k (u, v, e, hu, hv) = (c ∷ u, v, ap (◌∷◌ c) e, k u hu, hv)

skip_or_seq :
    (a b a' b' : Regex) (c : ℕ) (s : Text)
    → ((u : Text) → Lang a' u → Lang a (c ∷ u))
    → (Lang b' s → Lang b (c ∷ s))
    → Lang a []
    → Lang (either (seq a' b) b') s
    → Lang (seq a b) (c ∷ s)
skip_or_seq a b a' b' c s k l n (inl h) = seq_sound a b a' c s k h
skip_or_seq a b a' b' c s k l n (inr h) = ([], c ∷ s, refl, n, l h)

deriv_sound : (c : ℕ) (r : Regex) (s : Text) → Lang (deriv c r) s → Lang r (c ∷ s)
unfolding deriv
deriv_sound c never s h = h
deriv_sound c nothing s h = absurd h
deriv_sound c (set p) s h = elim (Bool-cases (p c)) [
  | inl e ↦ (c, ap (◌∷◌ c) (rw e at h), e)
  | inr e ↦ absurd (rw e at h)
]
deriv_sound c (seq a b) s h = elim (Bool-cases (nullable a)) [
  | inl e ↦
      skip_or_seq a b (deriv c a) (deriv c b) c s (deriv_sound c a) (deriv_sound c b s)
        (nullable_sound a e) (rw e at h)
  | inr e ↦ seq_sound a b (deriv c a) c s (deriv_sound c a) (rw e at h)
]
deriv_sound c (either a b) s (inl h) = inl (deriv_sound c a s h)
deriv_sound c (either a b) s (inr h) = inr (deriv_sound c b s h)
deriv_sound c (star a) s (u, v, e, hu, hv) = more (c ∷ u) v (ap (◌∷◌ c) e) (deriv_sound c a u hu) hv

Star-step :
    (P Q : Text → Type 0) (c : ℕ) (s : Text)
    → ((u : Text) → P (c ∷ u) → Q u)
    → {t : Text} → Star P t
    → t ≡ c ∷ s
    → (u : Text) × (v : Text) × (s ≡ u ++ v) × Q u × Star P v
Star-step P Q c s k done e = cc
Star-step P Q c s k (more [] v f h rest) e = Star-step P Q c s k rest (sym f ∙ e)
Star-step P Q c s k (more (d ∷ u) v f h rest) e =
    let d≡c : d ≡ c = ground arith in (u, v, ground arith, k u (rw d≡c at h), rest)

deriv_complete : (c : ℕ) (r : Regex) (s : Text) → Lang r (c ∷ s) → Lang (deriv c r) s
unfolding deriv
deriv_complete c never s h = h
deriv_complete c nothing s h = cc
deriv_complete c (set p) s (x, e, h) =
    let passes : p c ≡ true = ground arith in rw passes (ground arith)
deriv_complete c (seq a b) s ([], v, e, hu, hv) =
    rw (nullable_complete a hu) (inr (deriv_complete c b s (rw (← e) at hv)))
deriv_complete c (seq a b) s (d ∷ u, v, e, hu, hv) =
    let d≡c : d ≡ c = ground arith in
    let left : Lang (seq (deriv c a) b) s =
      (u, v, ground arith, deriv_complete c a u (rw d≡c at hu), hv) in
    elim (Bool-cases (nullable a)) [ inl n ↦ rw n (inl left) | inr n ↦ rw n left ]
deriv_complete c (either a b) s (inl h) = inl (deriv_complete c a s h)
deriv_complete c (either a b) s (inr h) = inr (deriv_complete c b s h)
deriv_complete c (star a) s h =
    Star-step (Lang a) (Lang (deriv c a)) c s (deriv_complete c a) h refl

-- `matches` decides the language.
pub matches_iff : (r : Regex) (s : Text) → (matches r s ≡ true) ↔ Lang r s
unfolding matches
matches_iff r [] = (nullable_sound r, nullable_complete r)
matches_iff r (c ∷ s) =
    let (to, from) = matches_iff (deriv c r) s in
    (λ h. deriv_sound c r s (to h), λ h. from (deriv_complete c r s h))
