-- ===== src/Reports/Tests.antt =====
-- A concrete report on its way to the API.
use unuvault.Prelude.Regexes.{matches}
use unuvault.Reports.Receipts.{post_browser_succeeds, Recorded}
use unuvault.Reports.Wire.{to_browser_import_report_request}
use unuvault.Reports.Stored.{post_browser-AddsUp, Entry}
use unuvault.Reports.Acceptance.{validate-to_browser_import_report_request}
use unuvault.Values.{
  text_of, own_keys, snapshot_plain_data_object, descriptor, enumerable_value, snapshot_of,
  snapshot_plain_data_properties, is_truthy, bare, text, named, datum, object, Value,
}
use unuvault.Reports.Service.{
  read_recorded_adapter_result, insert_row, ImportReportServiceDependencies,
}
use unuvault.Reports.Routes.{
  map_import_route_parse_error, has_json_content_type, read_strict_bearer_token, post_browser,
}
use unuvault.Reports.Replies.{receive-post_browser, IsReported}
use unuvault.Reports.Recording.{AddsUp, record_browser_import_report, IsReportTable}
use unuvault.Reports.Consistency.{validate_sound, IsConsistent}
use unuvault.Reports.{is_issue_row, validate_and_rebuild_request, BrowserImportReportRequest}
use unuvault.Prelude.{
  map_get, trim, text_eq, is_space, strip_prefix, inr, inl, arith, Elem, ℕ, codes, Text, Option,
  List, All, none, some, ◌≡◌, refl, ok, true, false, [], ◌∷◌,
}
use unuvault.Http.{success}
use unuvault.Import.{Reason, chrome, refused, duplicate}

abbrev request : BrowserImportReportRequest
request = record {
  source = chrome;
  counts = record { total_rows = 3; accepted_rows = 1; malformed_rows = 1; duplicate_rows = 1 };
  issues = duplicate 3 2 ∷ refused 4 Reason.empty_password ∷ [];
}

abbrev body : Value
body = to_browser_import_report_request request.source request.counts request.issues

no_other_target :
    (row first : ℕ)
    → Elem (duplicate row first) request.issues
    → is_issue_row request.issues first ≡ false
no_other_target row first (inl same) = let two : first ≡ 2 = ground arith in rw two refl
no_other_target row first (inr (inl same)) = absurd (ground arith)
no_other_target row first (inr (inr none_left)) = absurd none_left

request-IsConsistent : IsConsistent request
request-IsConsistent = record {
  few = omega arith;
  adds_up = refl;
  malformed = refl;
  duplicates = refl;
  in_order =
      (omega arith, omega arith, (omega arith, omega arith), (omega arith, omega arith, tt, tt));
  targets = no_other_target;
}

validate-to_browser_import_report_request_example : validate_and_rebuild_request body ≡ some request
validate-to_browser_import_report_request_example =
    validate-to_browser_import_report_request request request-IsConsistent

accepted : validate_and_rebuild_request body ≡ some request
accepted = validate-to_browser_import_report_request request request-IsConsistent

validate_sound_example : IsConsistent request
validate_sound_example = validate_sound body request accepted

-- The reports are the state, the token names the account, and the account the profile.
abbrev Reported : Type 0
Reported = List Entry

abbrev user_with : Text → Text → Value
user_with key name = object true (datum (named key) true (text name) bare)

abbrev job : Text
job = codes "01234567-89ab-4cde-8f01-23456789abcd"

abbrev row_result : Value
row_result = object true (
    datum (named (codes "id")) true (text job)
      (datum (named (codes "status")) true (text (codes "recorded")) bare))

abbrev deps : ImportReportServiceDependencies Reported
deps = record {
  get_user_by_token = λ token t. (ok (user_with (codes "account_id") token), t);
  get_user_profile_by_account_id = λ account t. (ok (user_with (codes "id") account), t);
  insert_browser_import_report = λ profile_id row t. (ok row_result, (profile_id, row) ∷ t);
  now_iso = λ t. ok (codes "now");
}

abbrev reports : Reported → List Entry
reports t = t

deps-IsReportTable : IsReportTable deps reports
deps-IsReportTable = record {
  finds_user = λ token t. refl;
  finds_profile = λ account t. refl;
  inserts = λ profile_id row t. inl refl;
}

abbrev bearer : Option Text
bearer = some (codes "Bearer ada")

abbrev json : Option Text
json = some (codes "Application/JSON; charset=utf-8")

abbrev after : Reported
after = (codes "ada", insert_row request (codes "now")) ∷ []

replies :
    post_browser (record_browser_import_report deps) bearer json body []
    ≡ (success (record { job_id = job }), after)
unfolding post_browser record_browser_import_report read_strict_bearer_token has_json_content_type
    strip_prefix matches is_space text_eq trim is_truthy snapshot_plain_data_properties snapshot_of
    enumerable_value descriptor map_get read_recorded_adapter_result snapshot_plain_data_object
    own_keys text_of
replies = rw accepted refl

post_browser-AddsUp_example :
    All
      (λ (entry : Entry). AddsUp entry.1)
      (reports (post_browser (record_browser_import_report deps) bearer json body []).1)
    × (validate_and_rebuild_request body ≡ none
        → reports (post_browser (record_browser_import_report deps) bearer json body []).1 ≡ [])
post_browser-AddsUp_example =
    post_browser-AddsUp deps reports deps-IsReportTable bearer json body [] tt

post_browser_succeeds_example :
    (token : Text) × (read_strict_bearer_token bearer ≡ some token)
    × (has_json_content_type json ≡ true)
    × Recorded deps token body [] (record { job_id = job }) after
post_browser_succeeds_example =
    post_browser_succeeds deps bearer json body [] (record { job_id = job }) after replies

receive-post_browser_example :
    IsReported (post_browser (record_browser_import_report deps) bearer json body []).0
    × IsReported (map_import_route_parse_error none)
receive-post_browser_example = receive-post_browser deps bearer json body [] none
