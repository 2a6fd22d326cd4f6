-- ===== src/Content/Parts.antt =====
-- What each part of the filling writes, and what the result says of it
-- (apps/browser-extension/src/content/autofill.ts).
use unuvault.Extension.{AutofillFillData, FillData, AutofillCandidate}
use unuvault.Prelude.{
  if◌then◌else◌, codes, text_eq, Bool-cases, is_empty, ℕ, Text, Option, Bool, List, true, false,
  none, some, [], ◌∷◌, ◌++◌, ◌≡◌, refl, inl, inr, ◌⊎◌,
}
use unuvault.Content.{
  ContentAnswer, read_autofill_fill_data, filled, Page, find_password_field, Write,
  ContentAutofillAttemptResult, find_username_field, Input, Background, known, unavailable, write,
}
use unuvault.Content.Attempt.{
  ask_fill_data, fill_username_only, fill_fields, fill_password, fill_username, fill_both,
}
use unuvault.Content.Fields.{
  IsFillableOf, find_first_fillable_sound, find_username_field_sound, IsNoFilling,
  answered-not_filled, nothing_fillable, without_username-IsNoFilling,
}

module _ {S : Type 0} (background : Background S) (inputs_of : S → List Input) (page_url : Text)
    (candidate : AutofillCandidate) (s : S) where
  -- A user name that is not empty goes into a fillable field, and it is the candidate's.
  abbrev IsUsername : (element : ℕ) → (value : Text) → Type 0
  IsUsername element value =
      (field : Input) × IsFillableOf (inputs_of s) field
      × (element ≡ field.element)
      × (value ≡ candidate.username)

  -- A password goes into a fillable field of the type "password", and it is the one that the
  -- background worker gave for this page, asked for a candidate that has one.
  abbrev IsPassword : (element : ℕ) → (value : Text) → Type 0
  IsPassword element value =
      (field : Input) × (fill_data : FillData) × (t : S) × IsFillableOf (inputs_of s) field
      × (text_eq field.kind (codes "password") ≡ true)
      × (element ≡ field.element)
      × (candidate.has_password ≡ true)
      × (read_autofill_fill_data background page_url s
          ≡ (known (AutofillFillData.ready fill_data), t))
      × (value ≡ fill_data.password)

  -- One of the two booleans of a result, and the writes behind it: none, or a single one.
  abbrev pub IsPart : (ℕ → Text → Type 0) → Bool → List Write → Type 0
  IsPart P says writes =
      ((says ≡ false) × (writes ≡ []))
      ⊎ ((says ≡ true)
          × ((element : ℕ) × (value : Text) × (writes ≡ write element value ∷ [])
              × (is_empty value ≡ false)
              × P element value))

  -- The result says exactly what was filled, which is something.
  abbrev pub IsFilled : ContentAutofillAttemptResult → List Write → Type 0
  IsFilled r writes =
      (filled_username : Bool) × (filled_password : Bool) × (first : List Write) × (second : List
        Write)
      × (r ≡ filled filled_username filled_password)
      × (writes ≡ first ++ second)
      × IsPart IsUsername filled_username first
      × IsPart IsPassword filled_password second
      × ((filled_username ≡ true) ⊎ (filled_password ≡ true))

  -- Nothing is written and nothing said to be filled, or the result says exactly what was.
  abbrev pub IsFilling : ContentAutofillAttemptResult × Page S → Type 0
  IsFilling (r, (t, writes)) = ((writes ≡ []) × IsNoFilling r) ⊎ IsFilled r writes

  fill_username_sound :
      (field : Option Input)
      → find_username_field (inputs_of s) ≡ field
      → (fill_username field candidate [] ≡ (false, []))
        ⊎ ((element : ℕ) × (value : Text) × (fill_username field candidate []
              ≡ (true, write element value ∷ []))
            × (is_empty value ≡ false)
            × IsUsername element value)
  fill_username_sound none e = inl refl
  fill_username_sound (some field) e = elim (Bool-cases (is_empty candidate.username)) [
    | inl y ↦ inl (rw y refl)
    | inr n ↦ inr (
      field.element,
      candidate.username,
      rw n refl,
      n,
      (field, find_username_field_sound (inputs_of s) field e, refl, refl),
    )
  ]

  fill_password_sound :
      (field : Input) (fill_data : FillData) (t : S) (writes : List Write)
      → find_password_field (inputs_of s) ≡ some field
      → candidate.has_password ≡ true
      → read_autofill_fill_data background page_url s
        ≡ (known (AutofillFillData.ready fill_data), t)
      → (fill_password field fill_data writes ≡ (false, writes))
        ⊎ ((element : ℕ) × (value : Text) × (fill_password field fill_data writes
              ≡ (true, writes ++ write element value ∷ []))
            × (is_empty value ≡ false)
            × IsPassword element value)
  unfolding find_password_field
  fill_password_sound field fill_data t writes e has answer =
      elim (Bool-cases (is_empty fill_data.password)) [
        | inl y ↦ inl (rw y refl)
        | inr n ↦
            let (fillable, kind) = find_first_fillable_sound (inputs_of s) _ field e in
            inr (
              field.element,
              fill_data.password,
              rw n refl,
              n,
              (field, fill_data, t, fillable, kind, refl, has, answer, refl),
            )
      ]

  fill_username_only_sound :
      (username_field password_field : Option Input) (t : S)
      → find_username_field (inputs_of s) ≡ username_field
      → IsFilling (fill_username_only username_field password_field candidate (t, []))
  fill_username_only_sound username_field password_field t e =
      elim (fill_username_sound username_field e) [
        | inl nothing ↦
            rw nothing (inl (refl, without_username-IsNoFilling password_field candidate))
        | inr (element, value, same, full, allowed) ↦ rw same (
            inr (
              true,
              false,
              write element value ∷ [],
              [],
              refl,
              refl,
              inr (refl, (element, value, refl, full, allowed)),
              inl (refl, refl),
              inl refl,
            ))
      ]

  fill_both_sound :
      (username_field : Option Input) (password_field : Input)
      (answer : ContentAnswer AutofillFillData) (t : S)
      → find_username_field (inputs_of s) ≡ username_field
      → find_password_field (inputs_of s) ≡ some password_field
      → candidate.has_password ≡ true
      → read_autofill_fill_data background page_url s ≡ (answer, t)
      → IsFilling (fill_both username_field password_field candidate answer (t, []))
  fill_both_sound username_field password_field (known (AutofillFillData.ready fill_data)) t e e'
        has answer =
      elim (fill_username_sound username_field e) [
        | inl nothing ↦ elim (fill_password_sound password_field fill_data t [] e' has answer) [
          | inl blank ↦ rw (nothing, blank) (inl (refl, λ u p. nothing_fillable u p))
          | inr (element, value, same, full, allowed) ↦
              rw (nothing, same)
                (inr (
                  false,
                  true,
                  [],
                  write element value ∷ [],
                  refl,
                  refl,
                  inl (refl, refl),
                  inr (refl, (element, value, refl, full, allowed)),
                  inr refl,
                ))
        ]
        | inr (el, v, same, full, allowed) ↦
            elim (fill_password_sound password_field fill_data t (write el v ∷ []) e' has answer) [
              | inl blank ↦
                  rw (same, blank)
                    (inr (
                      true,
                      false,
                      write el v ∷ [],
                      [],
                      refl,
                      refl,
                      inr (refl, (el, v, refl, full, allowed)),
                      inl (refl, refl),
                      inl refl,
                    ))
              | inr (element, value, same', full', allowed') ↦
                  rw (same, same')
                    (inr (
                      true,
                      true,
                      write el v ∷ [],
                      write element value ∷ [],
                      refl,
                      refl,
                      inr (refl, (el, v, refl, full, allowed)),
                      inr (refl, (element, value, refl, full', allowed')),
                      inl refl,
                    ))
            ]
      ]
  fill_both_sound username_field password_field (known AutofillFillData.signed_out) t e e' has
        answer =
      inl (refl, λ u p. answered-not_filled _ u p)
  fill_both_sound username_field password_field (known AutofillFillData.locked) t e e' has answer =
      inl (refl, λ u p. answered-not_filled _ u p)
  fill_both_sound username_field password_field (known AutofillFillData.no_page_url) t e e' has
        answer =
      inl (refl, λ u p. answered-not_filled _ u p)
  fill_both_sound username_field password_field (known AutofillFillData.no_match) t e e' has
        answer =
      inl (refl, λ u p. answered-not_filled _ u p)
  fill_both_sound username_field password_field (known AutofillFillData.no_password) t e e' has
        answer =
      inl (refl, λ u p. answered-not_filled _ u p)
  fill_both_sound username_field password_field (known AutofillFillData.approval_required) t e e'
        has answer =
      inl (refl, λ u p. answered-not_filled _ u p)
  fill_both_sound username_field password_field (known (AutofillFillData.multiple_matches n)) t e e'
        has answer =
      inl (refl, λ u p. answered-not_filled _ u p)
  fill_both_sound username_field password_field unavailable t e e' has answer =
      inl (refl, λ u p. answered-not_filled _ u p)

  if-IsFilling :
      (b : Bool) (x y : ContentAutofillAttemptResult × Page S)
      → (b ≡ true → IsFilling x)
      → (b ≡ false → IsFilling y)
      → IsFilling (if b then x else y)
  if-IsFilling true x y hx hy = hx refl
  if-IsFilling false x y hx hy = hy refl

  pub fill_fields_sound :
      (username_field password_field : Option Input)
      → find_username_field (inputs_of s) ≡ username_field
      → find_password_field (inputs_of s) ≡ password_field
      → IsFilling (
          fill_fields background inputs_of page_url username_field password_field candidate (s, []))
  fill_fields_sound username_field none e e' = fill_username_only_sound username_field none s e
  fill_fields_sound username_field (some password_field) e e' =
      if-IsFilling candidate.has_password
        (ask_fill_data background inputs_of page_url username_field password_field candidate
          (s, []))
        (fill_username_only username_field (some password_field) candidate (s, []))
        (λ has. fill_both_sound username_field password_field _ _ e e' has refl)
        (λ n. fill_username_only_sound username_field (some password_field) s e)
