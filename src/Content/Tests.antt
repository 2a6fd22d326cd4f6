-- ===== src/Content/Tests.antt =====
-- A login form filled.
use unuvault.Content.Fields.{IsNoFilling}
use unuvault.Content.Filled.{attempt_autofill_sound}
use unuvault.Content.Parts.{IsFilled}
use unuvault.Content.Attempt.{attempt_autofill_for_current_page}
use unuvault.Prelude.{
  strip_prefix, text_eq, Bool, ◌+◌, codes, Text, ℕ, Result, List, true, false, some, [], ◌∷◌, ◌≡◌,
  refl, ◌⊎◌, ok, err,
}
use unuvault.Content.{
  has_field_hint, is_fillable_input, find_first_fillable_input, find_password_field,
  find_username_field, read_autofill_fill_data, read_autofill_candidates, Write, Rejection, Input,
  Background, known, filled, write,
}
use unuvault.Extension.{
  AutofillCandidate, rejected, BackgroundRequest, BackgroundResponse, AutofillCandidates,
  AutofillFillData,
}

abbrev field_of_kind : ℕ → Text → Text → Bool → Input
field_of_kind element kind id disabled = record {
  element = element;
  kind = kind;
  name = [];
  id = id;
  autocomplete = [];
  disabled = disabled;
  read_only = false;
  is_visible = true;
}

abbrev form : List Input
form =
    field_of_kind 1 (codes "email") [] true
    ∷ field_of_kind 2 (codes "text") (codes "loginName") false
    ∷ field_of_kind 3 (codes "password") [] false
    ∷ []

abbrev ada : AutofillCandidate
ada = record {
  has_password = true;
  id = codes "1";
  title = [];
  username = codes "ada";
  website_origin = [];
  website_url = [];
}

abbrev replies : BackgroundRequest → Result Rejection BackgroundResponse
replies BackgroundRequest.read_autofill_candidates =
    ok (BackgroundResponse.autofill_candidates (AutofillCandidates.ready (ada ∷ [])))
replies BackgroundRequest.read_autofill_fill_data = ok (
    BackgroundResponse.autofill_fill_data
      (AutofillFillData.ready (record { username = codes "ada"; password = codes "pw" })))
replies _ = err rejected

abbrev background : Background ℕ
background = record {
  send_message = some (λ request s. (replies request, s + 1));
  handle_background_request = λ request context s. (err rejected, s);
}

abbrev inputs_of : ℕ → List Input
inputs_of s = form

abbrev written : List Write
written = write 2 (codes "ada") ∷ write 3 (codes "pw") ∷ []

fills :
    attempt_autofill_for_current_page background inputs_of (codes "https://a/") (0, [])
    ≡ (filled true true, (2, written))
unfolding attempt_autofill_for_current_page read_autofill_candidates read_autofill_fill_data
    find_username_field find_password_field find_first_fillable_input is_fillable_input
    has_field_hint text_eq strip_prefix
fills = refl

attempt_autofill_sound_example :
    ((written ≡ []) × IsNoFilling (filled true true))
    ⊎ ((candidate : AutofillCandidate) × (u : ℕ) × (read_autofill_candidates background
            (codes "https://a/")
            0
          ≡ (known (AutofillCandidates.ready (candidate ∷ [])), u))
        × IsFilled background inputs_of (codes "https://a/") candidate u (filled true true) written)
attempt_autofill_sound_example =
    attempt_autofill_sound background inputs_of (codes "https://a/") 0 (filled true true) 2 written
      fills
