-- ===== src/Content/Attempt.antt =====
-- `attemptAutofillForCurrentPage` of apps/browser-extension/src/content/autofill.ts.
use unuvault.Extension.{AutofillFillData, AutofillCandidates, FillData, AutofillCandidate}
use unuvault.Prelude.{
  length, is_empty, if◌then◌else◌, Text, List, Bool, Option, true, false, none, some, [], ◌∷◌, ◌&&◌,
  not, ◌++◌,
}
use unuvault.Content.{
  find_password_field, write, find_username_field, read_autofill_fill_data,
  read_autofill_candidates, filled, answered, no_fillable_fields, Write, Page, ContentAnswer, Input,
  ContentAutofillAttemptResult, Background, known, unavailable,
}

-- Whether something was written, and the writes with it.
abbrev pub fill_username : Option Input → AutofillCandidate → List Write → Bool × List Write
fill_username none candidate writes = (false, writes)
fill_username (some field) candidate writes =
    if is_empty candidate.username
    then (false, writes)
    else (true, writes ++ write field.element candidate.username ∷ [])

abbrev pub fill_password : Input → FillData → List Write → Bool × List Write
fill_password field fill_data writes =
    if is_empty fill_data.password
    then (false, writes)
    else (true, writes ++ write field.element fill_data.password ∷ [])

abbrev pub filled_or : ContentAutofillAttemptResult → Bool → Bool → ContentAutofillAttemptResult
filled_or otherwise filled_username filled_password =
    if not filled_username && not filled_password
    then otherwise
    else filled filled_username filled_password

-- With the fill data for a candidate that has a password, and a field for it.
abbrev pub fill_both :
    {S : Type 0}
    → Option Input
    → Input
    → AutofillCandidate
    → ContentAnswer AutofillFillData
    → Page S
    → ContentAutofillAttemptResult × Page S
fill_both username_field password_field candidate (known (AutofillFillData.ready fill_data))
      (s, writes) =
    let (filled_username, first) = fill_username username_field candidate writes in
    let (filled_password, second) = fill_password password_field fill_data first in
    (filled_or no_fillable_fields filled_username filled_password, (s, second))
fill_both username_field password_field candidate other page = (answered other, page)

-- What is said where no user name could be written.
abbrev pub without_username : Option Input → AutofillCandidate → ContentAutofillAttemptResult
without_username none candidate = no_fillable_fields
without_username (some field) candidate =
    if candidate.has_password
    then no_fillable_fields
    else answered (known AutofillFillData.no_password)

abbrev pub fill_username_only :
    {S : Type 0}
    → Option Input
    → Option Input
    → AutofillCandidate
    → Page S
    → ContentAutofillAttemptResult × Page S
fill_username_only username_field password_field candidate (s, writes) =
    let (filled_username, first) = fill_username username_field candidate writes in
    (filled_or (without_username password_field candidate) filled_username false, (s, first))

-- `inputs_of` is `document.querySelectorAll("input")`.
module _ {S : Type 0} (background : Background S) (inputs_of : S → List Input) where
  abbrev pub ask_fill_data :
      (page_url : Text)
      → Option Input
      → Input
      → AutofillCandidate
      → Page S
      → ContentAutofillAttemptResult × Page S
  ask_fill_data page_url username_field password_field candidate (s, writes) =
      let (fill_data, t) = read_autofill_fill_data background page_url s in
      fill_both username_field password_field candidate fill_data (t, writes)

  abbrev pub fill_fields :
      (page_url : Text)
      → (username_field password_field : Option Input) → AutofillCandidate
      → Page S
      → ContentAutofillAttemptResult × Page S
  fill_fields page_url username_field none candidate page =
      fill_username_only username_field none candidate page
  fill_fields page_url username_field (some password_field) candidate page =
      if candidate.has_password
      then ask_fill_data page_url username_field password_field candidate page
      else fill_username_only username_field (some password_field) candidate page

  abbrev pub fill_matches :
      (page_url : Text) → List AutofillCandidate → Page S → ContentAutofillAttemptResult × Page S
  fill_matches page_url [] page = (answered (known AutofillFillData.no_match), page)
  fill_matches page_url (candidate ∷ []) page =
      fill_fields page_url (find_username_field (inputs_of page.0))
        (find_password_field (inputs_of page.0)) candidate page
  fill_matches page_url (a ∷ b ∷ rest) page =
      (answered (known (AutofillFillData.multiple_matches (length (a ∷ b ∷ rest)))), page)

  abbrev pub by_candidates :
      (page_url : Text)
      → ContentAnswer AutofillCandidates
      → Page S
      → ContentAutofillAttemptResult × Page S
  by_candidates page_url unavailable page = (answered unavailable, page)
  by_candidates page_url (known AutofillCandidates.signed_out) page =
      (answered (known AutofillFillData.signed_out), page)
  by_candidates page_url (known AutofillCandidates.locked) page =
      (answered (known AutofillFillData.locked), page)
  by_candidates page_url (known AutofillCandidates.no_page_url) page =
      (answered (known AutofillFillData.no_page_url), page)
  by_candidates page_url (known AutofillCandidates.no_match) page =
      (answered (known AutofillFillData.no_match), page)
  by_candidates page_url (known (AutofillCandidates.ready matches)) page =
      fill_matches page_url matches page

  unfoldable pub attempt_autofill_for_current_page :
      (page_url : Text) → Page S → ContentAutofillAttemptResult × Page S
  attempt_autofill_for_current_page page_url (s, writes) =
      let (candidates, t) = read_autofill_candidates background page_url s in
      by_candidates page_url candidates (t, writes)
