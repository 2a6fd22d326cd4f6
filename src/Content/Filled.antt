-- ===== src/Content/Filled.antt =====
-- What the content script writes into the fields of a page
-- (apps/browser-extension/src/content/autofill.ts).
use unuvault.Extension.{AutofillCandidates, AutofillFillData, AutofillCandidate}
use mathlib.Core.Path.{subst}
use unuvault.Prelude.{length, Text, List, [], ◌∷◌, ◌≡◌, refl, inl, inr, ◌⊎◌}
use unuvault.Content.{
  read_autofill_candidates, ContentAnswer, Page, find_password_field, Write,
  ContentAutofillAttemptResult, find_username_field, Input, Background, known, unavailable,
}
use unuvault.Content.Attempt.{by_candidates, fill_fields, attempt_autofill_for_current_page}
use unuvault.Content.Fields.{IsNoFilling, answered-not_filled}
use unuvault.Content.Parts.{IsFilled, IsFilling, fill_fields_sound}

-- On a page where the script has not written yet: it writes nothing and says that nothing was filled,
-- or the background worker named a single candidate for the page, and the result says exactly what was
-- filled, which is something. The candidate's user name was written once where the result says so and not
-- at all where it does not; and so was the password that the background worker gave for this page on a
-- second question, asked for a candidate that has one, into a field of the type "password". What is
-- written is not empty and goes into a visible, enabled field of the page that is not hidden or
-- read-only.
pub attempt_autofill_sound :
    {S : Type 0} (background : Background S) (inputs_of : S → List Input) (page_url : Text) (s : S)
    (r : ContentAutofillAttemptResult) (t : S) (writes : List Write)
    → attempt_autofill_for_current_page background inputs_of page_url (s, []) ≡ (r, (t, writes))
    → ((writes ≡ []) × IsNoFilling r)
      ⊎ ((candidate : AutofillCandidate) × (u : S) × (read_autofill_candidates background page_url s
            ≡ (known (AutofillCandidates.ready (candidate ∷ [])), u))
          × IsFilled background inputs_of page_url candidate u r writes)
unfolding attempt_autofill_for_current_page
attempt_autofill_sound {S = S} background inputs_of page_url s r t writes h =
    by_answer (read_autofill_candidates background page_url s).0
      (read_autofill_candidates background page_url s).1 refl h
  where
    Goal : ContentAutofillAttemptResult × Page S → Type 0
    Goal (r', (t', writes')) =
        ((writes' ≡ []) × IsNoFilling r')
        ⊎ ((candidate : AutofillCandidate) × (u : S) × (read_autofill_candidates background page_url
                s
              ≡ (known (AutofillCandidates.ready (candidate ∷ [])), u))
            × IsFilled background inputs_of page_url candidate u r' writes')

    single :
        (candidate : AutofillCandidate) (u : S) (out : ContentAutofillAttemptResult × Page S)
        → read_autofill_candidates background page_url s
          ≡ (known (AutofillCandidates.ready (candidate ∷ [])), u)
        → IsFilling background inputs_of page_url candidate u out
        → Goal out
    single candidate u (r', (t', writes')) e (inl nothing) = inl nothing
    single candidate u (r', (t', writes')) e (inr done) = inr (candidate, u, e, done)

    answer_goal :
        (answer : ContentAnswer AutofillCandidates) (u : S)
        → read_autofill_candidates background page_url s ≡ (answer, u)
        → Goal (by_candidates background inputs_of page_url answer (u, []))
    answer_goal (known (AutofillCandidates.ready (candidate ∷ []))) u e =
        single candidate u
          (fill_fields background inputs_of page_url (find_username_field (inputs_of u))
            (find_password_field (inputs_of u)) candidate (u, []))
          e
          (fill_fields_sound background inputs_of page_url candidate u
            (find_username_field (inputs_of u)) (find_password_field (inputs_of u)) refl refl)
    answer_goal (known (AutofillCandidates.ready [])) u e =
        inl (refl, answered-not_filled (known AutofillFillData.no_match))
    answer_goal (known (AutofillCandidates.ready (a ∷ b ∷ rest))) u e = inl (
      refl,
      answered-not_filled (known (AutofillFillData.multiple_matches (length (a ∷ b ∷ rest)))),
    )
    answer_goal (known AutofillCandidates.signed_out) u e =
        inl (refl, answered-not_filled (known AutofillFillData.signed_out))
    answer_goal (known AutofillCandidates.locked) u e =
        inl (refl, answered-not_filled (known AutofillFillData.locked))
    answer_goal (known AutofillCandidates.no_page_url) u e =
        inl (refl, answered-not_filled (known AutofillFillData.no_page_url))
    answer_goal (known AutofillCandidates.no_match) u e =
        inl (refl, answered-not_filled (known AutofillFillData.no_match))
    answer_goal unavailable u e = inl (refl, answered-not_filled unavailable)

    by_answer :
        (answer : ContentAnswer AutofillCandidates) (u : S)
        → read_autofill_candidates background page_url s ≡ (answer, u)
        → by_candidates background inputs_of page_url answer (u, []) ≡ (r, (t, writes))
        → Goal (r, (t, writes))
    by_answer answer u e k = subst Goal k (answer_goal answer u e)
