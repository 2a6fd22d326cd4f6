-- ===== src/Content.antt =====
-- apps/browser-extension/src/content/autofill.ts: how the content script fills the form of a page.
pub mod Attempt
pub mod Fields
pub mod Parts
pub mod Filled
mod Tests
use unuvault.Import.Analysis.{lower}
use unuvault.Prelude.{
  length, is_empty, if◌then◌else◌, ok, err, codes, ◌++◌, text_eq, strip_prefix, map, find, Result,
  ℕ, Text, Option, List, Bool, true, false, none, some, [], ◌∷◌, ◌&&◌, ◌||◌, not,
}
use unuvault.Prelude.Actions.{Action}
use unuvault.Extension.{
  FillData, AutofillCandidate, AutofillStatus, AutofillCandidates, BackgroundResponse,
  BackgroundRequest, BackgroundCallerContext, AutofillFillData, Rejection, content,
}

-- An `input` element, in what the source reads of it; `element` tells it from others, and `is_visible`
-- says that it has client rectangles.
pub record Input : Type 0 where
  pub element : ℕ
  pub kind : Text
  pub name : Text
  pub id : Text
  pub autocomplete : Text
  pub disabled : Bool
  pub read_only : Bool
  pub is_visible : Bool

-- The value of an element is set, and the events `input` and `change` are dispatched.
pub data Write : Type 0 where
  write : (element : ℕ) → (value : Text) → Write

-- An answer of the background worker, or `unavailable`.
pub data ContentAnswer (A : Type 0) : Type 0 where
  known : A → ContentAnswer A
  unavailable : ContentAnswer A

pub data ContentAutofillAttemptResult : Type 0 where
  answered : ContentAnswer AutofillFillData → ContentAutofillAttemptResult
  no_fillable_fields : ContentAutofillAttemptResult
  filled : (filled_username filled_password : Bool) → ContentAutofillAttemptResult

unfoldable pub is_fillable_input : Input → Bool
is_fillable_input input =
    not (input.disabled || input.read_only)
    && not (text_eq input.kind (codes "hidden"))
    && input.is_visible

unfoldable pub find_first_fillable_input : List Input → (Input → Bool) → Option Input
find_first_fillable_input inputs predicate =
    find (λ input. is_fillable_input input && predicate input) inputs

abbrev starts_with : Text → Text → Bool
starts_with word s = elim (strip_prefix word s) [ none ↦ false | some rest ↦ true ]

-- `s.includes(word)`.
includes : Text → Text → Bool
includes word [] = starts_with word []
includes word (c ∷ s) = starts_with word (c ∷ s) || includes word s

-- No character but the ASCII letters has a letter of the words below as its lower case.
abbrev lower_case : Text → Text
lower_case s = map lower s

unfoldable pub has_field_hint : Input → Bool
unfolding includes
has_field_hint input =
    let identifier = lower_case (input.name ++ 32 ∷ input.id) in
    includes (codes "user") identifier
    || includes (codes "email") identifier
    || includes (codes "login") identifier

-- `a ?? b`.
abbrev pub or_else : Option Input → Option Input → Option Input
or_else (some input) other = some input
or_else none other = other

unfoldable pub find_username_field : List Input → Option Input
find_username_field inputs =
    or_else
      (find_first_fillable_input inputs
        (λ input. text_eq (lower_case input.autocomplete) (codes "username")))
      (or_else
        (find_first_fillable_input inputs
          (λ input. text_eq (lower_case input.autocomplete) (codes "email")))
        (or_else (find_first_fillable_input inputs (λ input. text_eq input.kind (codes "email"))) (
          or_else (find_first_fillable_input inputs has_field_hint)
            (find_first_fillable_input inputs (λ input. text_eq input.kind (codes "text"))))))

unfoldable pub find_password_field : List Input → Option Input
find_password_field inputs =
    find_first_fillable_input inputs (λ input. text_eq input.kind (codes "password"))

-- `callBackground`: the runtime's `sendMessage` if there is one, or else the handler.
pub record Background (S : Type 0) : Type 0 where
  pub send_message : Option (BackgroundRequest → Action S Rejection BackgroundResponse)
  pub handle_background_request :
      BackgroundRequest → Option BackgroundCallerContext → Action S Rejection BackgroundResponse

-- What lies behind the script, and what it has written so far.
abbrev pub Page : Type 0 → Type 0
Page S = S × List Write

module _ {S : Type 0} (background : Background S) where
  abbrev call_by :
      Option (BackgroundRequest → Action S Rejection BackgroundResponse)
      → BackgroundRequest
      → Option BackgroundCallerContext
      → Action S Rejection BackgroundResponse
  call_by (some send_message) request context = send_message request
  call_by none request context = background.handle_background_request request context

  abbrev call_background :
      BackgroundRequest → Option BackgroundCallerContext → Action S Rejection BackgroundResponse
  call_background request context = call_by background.send_message request context

  -- A rejection is as good as any other answer than the expected one.
  abbrev caught :
      {A : Type 0}
      → (BackgroundResponse → ContentAnswer A)
      → Result Rejection BackgroundResponse
      → ContentAnswer A
  caught read (err e) = unavailable
  caught read (ok response) = read response

  abbrev status_of : BackgroundResponse → ContentAnswer AutofillStatus
  status_of (BackgroundResponse.autofill_status status) = known status
  status_of _ = unavailable

  abbrev candidates_of : BackgroundResponse → ContentAnswer AutofillCandidates
  candidates_of (BackgroundResponse.autofill_candidates candidates) = known candidates
  candidates_of _ = unavailable

  abbrev fill_data_of : BackgroundResponse → ContentAnswer AutofillFillData
  fill_data_of (BackgroundResponse.autofill_fill_data fill_data) = known fill_data
  fill_data_of _ = unavailable

  abbrev on_page : (page_url : Text) → Option BackgroundCallerContext
  on_page page_url = some (record { source = content; trusted_page_url = some page_url })

  unfoldable pub read_autofill_status : S → ContentAnswer AutofillStatus × S
  read_autofill_status s =
      let (r, t) = call_background BackgroundRequest.read_autofill_status none s in
      (caught status_of r, t)

  unfoldable pub read_autofill_candidates :
      (page_url : Text) → S → ContentAnswer AutofillCandidates × S
  read_autofill_candidates page_url s =
      let (r, t) =
        call_background BackgroundRequest.read_autofill_candidates (on_page page_url) s in
      (caught candidates_of r, t)

  unfoldable pub read_autofill_fill_data :
      (page_url : Text) → S → ContentAnswer AutofillFillData × S
  read_autofill_fill_data page_url s =
      let (r, t) = call_background BackgroundRequest.read_autofill_fill_data (on_page page_url) s in
      (caught fill_data_of r, t)
