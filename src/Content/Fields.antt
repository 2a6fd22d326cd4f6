-- ===== src/Content/Fields.antt =====
-- Which fields the content script may write into, and which answers say that nothing was filled
-- (apps/browser-extension/src/content/autofill.ts).
use unuvault.Extension.{AutofillFillData, AutofillCandidate}
use unuvault.Prelude.{
  ◌≢◌, arith, Bool-cases, and-eq-true_split, find_sound, Option, Elem, Bool, List, true, none, some,
  ◌&&◌, ◌≡◌, inl, inr,
}
use unuvault.Content.{
  answered, no_fillable_fields, ContentAnswer, filled, ContentAutofillAttemptResult, or_else,
  is_fillable_input, find_username_field, find_first_fillable_input, Input, known,
}
use unuvault.Content.Attempt.{without_username}

-- A field of the page that a person could fill as well.
abbrev pub IsFillableOf : List Input → Input → Type 0
IsFillableOf inputs field = Elem field inputs × (is_fillable_input field ≡ true)

pub find_first_fillable_sound :
    (inputs : List Input) (predicate : Input → Bool) (field : Input)
    → find_first_fillable_input inputs predicate ≡ some field
    → IsFillableOf inputs field × (predicate field ≡ true)
unfolding find_first_fillable_input
find_first_fillable_sound inputs predicate field h =
    let (there, both) =
      find_sound (λ input. is_fillable_input input && predicate input) inputs field h in
    let (fillable, fits) = and-eq-true_split (is_fillable_input field) (predicate field) both in
    ((there, fillable), fits)

or_else_sound :
    (P : Input → Type 0) (a b : Option Input) (field : Input)
    → ((x : Input) → a ≡ some x → P x)
    → ((x : Input) → b ≡ some x → P x)
    → or_else a b ≡ some field
    → P field
or_else_sound P (some x) b field ha hb h = ha field h
or_else_sound P none b field ha hb h = hb field h

pub find_username_field_sound :
    (inputs : List Input) (field : Input)
    → find_username_field inputs ≡ some field
    → IsFillableOf inputs field
unfolding find_username_field
find_username_field_sound inputs field h =
    or_else_sound (IsFillableOf inputs) _ _ field (by _)
      (λ x1 h1.
        or_else_sound (IsFillableOf inputs) _ _ x1 (by _)
          (λ x2 h2.
            or_else_sound (IsFillableOf inputs) _ _ x2 (by _)
              (λ x3 h3. or_else_sound (IsFillableOf inputs) _ _ x3 (by _) (by _) h3) h2)
          h1)
      h
  where
    by :
        (predicate : Input → Bool) (x : Input)
        → find_first_fillable_input inputs predicate ≡ some x
        → IsFillableOf inputs x
    by predicate x e = (find_first_fillable_sound inputs predicate x e).0

-- The result does not say that something was filled.
abbrev pub IsNoFilling : ContentAutofillAttemptResult → Type 0
IsNoFilling r = (u p : Bool) → r ≢ filled u p

pub answered-not_filled : (answer : ContentAnswer AutofillFillData) → IsNoFilling (answered answer)
answered-not_filled answer u p e = absurd (ground (arith, e))

pub nothing_fillable : IsNoFilling no_fillable_fields
nothing_fillable u p e = absurd (ground (arith, e))

pub without_username-IsNoFilling :
    (field : Option Input) (candidate : AutofillCandidate)
    → IsNoFilling (without_username field candidate)
without_username-IsNoFilling none candidate = nothing_fillable
without_username-IsNoFilling (some field) candidate = elim (Bool-cases candidate.has_password) [
  | inl y ↦ rw y nothing_fillable
  | inr n ↦ rw n (answered-not_filled (known AutofillFillData.no_password))
]
