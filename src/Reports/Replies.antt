-- ===== src/Reports/Replies.antt =====
-- The client of packages/api-client/src/imports.ts reads every reply of the API.
use mathlib.Core.Bool.{false}
use unuvault.Reports.Receipts.{record_succeeds}
use mathlib.Core.Option.{none}
use unuvault.Reports.Recording.{record_browser_import_report}
use unuvault.Reports.Routes.{
  respond, has_json_content_type, read_strict_bearer_token, map_import_route_parse_error,
  post_browser, map_stable_import_error,
}
use unuvault.Prelude.Regexes.{matches}
use unuvault.Values.{
  is_text, is_whole, Value, text_of, same_key, descriptor, enumerable_value, snapshot_of, own_keys,
  snapshot_plain_data_object, safe_count,
}
use unuvault.Reports.Service.{
  ImportReportServiceDependencies, persistence, profile_not_found, unauthorized, validation,
  canonical_lowercase_uuid_v4, ImportReportError, Receipt,
}
use unuvault.Reports.Client.{
  reported, read_allowlisted_import_error, ClientError, read_browser_import_receipt, response_of,
  read_safe_http_status, receive,
}
use unuvault.Prelude.{
  false, if◌then◌else◌, none, codes, Bool, Text, Option, map_get, text_eq, Result, some, ◌≡◌, refl,
  ok, err, true,
}
use unuvault.Http.{reply_of, Reply, success, failure}

-- What the caller of the client gets of a reply.
abbrev pub outcome_of : Reply Receipt → Result ClientError Receipt
outcome_of (success receipt) = ok receipt
outcome_of (failure status error) = err (reported error)

receive-success :
    (receipt : Receipt)
    → matches canonical_lowercase_uuid_v4 receipt.job_id ≡ true
    → receive (some (response_of (success receipt))) ≡ ok receipt
unfolding receive read_safe_http_status safe_count read_browser_import_receipt
    snapshot_plain_data_object own_keys snapshot_of enumerable_value descriptor same_key text_eq
    map_get text_of
receive-success receipt is_uuid = rw is_uuid refl

abbrev pub IsReported : Reply Receipt → Type 0
IsReported reply = receive (some (response_of reply)) ≡ outcome_of reply

map_stable_import_error-IsReported :
    (e : ImportReportError) → IsReported (map_stable_import_error e)
unfolding receive read_safe_http_status safe_count read_allowlisted_import_error
    snapshot_plain_data_object own_keys snapshot_of enumerable_value descriptor same_key text_eq
    map_get text_of
map_stable_import_error-IsReported validation = refl
map_stable_import_error-IsReported unauthorized = refl
map_stable_import_error-IsReported profile_not_found = refl
map_stable_import_error-IsReported persistence = refl

missing_token-IsReported : IsReported (failure 401 (codes "missing_bearer_token"))
unfolding receive read_safe_http_status safe_count read_allowlisted_import_error
    snapshot_plain_data_object own_keys snapshot_of enumerable_value descriptor same_key text_eq
    map_get text_of
missing_token-IsReported = refl

media_type-IsReported : IsReported (failure 415 (codes "unsupported_media_type"))
unfolding receive read_safe_http_status safe_count read_allowlisted_import_error
    snapshot_plain_data_object own_keys snapshot_of enumerable_value descriptor same_key text_eq
    map_get text_of
media_type-IsReported = refl

too_large-IsReported : IsReported (failure 413 (codes "import_report_too_large"))
unfolding receive read_safe_http_status safe_count read_allowlisted_import_error
    snapshot_plain_data_object own_keys snapshot_of enumerable_value descriptor same_key text_eq
    map_get text_of
too_large-IsReported = refl

by_error : (too_large invalid_type is_400 : Bool) → Reply Receipt
by_error too_large invalid_type is_400 =
    if too_large
    then failure 413 (codes "import_report_too_large")
    else if invalid_type
    then failure 415 (codes "unsupported_media_type")
    else if is_400
    then failure 400 (codes "invalid_import_report")
    else failure 500 (codes "import_report_create_failed")

by_error-IsReported :
    (too_large invalid_type is_400 : Bool) → IsReported (by_error too_large invalid_type is_400)
unfolding by_error
by_error-IsReported true invalid_type is_400 = too_large-IsReported
by_error-IsReported false true is_400 = media_type-IsReported
by_error-IsReported false false true = map_stable_import_error-IsReported validation
by_error-IsReported false false false = map_stable_import_error-IsReported persistence

parse_error-IsReported : (e : Option (Value × Value)) → IsReported (map_import_route_parse_error e)
unfolding map_import_route_parse_error by_error
parse_error-IsReported none = map_stable_import_error-IsReported persistence
parse_error-IsReported (some (code, status_code)) =
    by_error-IsReported (is_text (codes "FST_ERR_CTP_BODY_TOO_LARGE") code)
      (is_text (codes "FST_ERR_CTP_INVALID_MEDIA_TYPE") code) (is_whole 400 status_code)

module _ {S : Type 0} (deps : ImportReportServiceDependencies S) (body : Value) (s : S) where
  answer-IsReported :
      (token : Text) (r : Result ImportReportError Receipt × S)
      → record_browser_import_report deps token body s ≡ r
      → IsReported (reply_of map_stable_import_error r).0
  answer-IsReported token (ok receipt, t) h =
      receive-success receipt (record_succeeds deps token body s receipt t h).is_uuid
  answer-IsReported token (err e, t) h = map_stable_import_error-IsReported e

  respond-IsReported :
      (token : Option Text) (is_json : Bool)
      → IsReported (respond (record_browser_import_report deps) token is_json body s).0
  respond-IsReported none is_json = missing_token-IsReported
  respond-IsReported (some token) false = media_type-IsReported
  respond-IsReported (some token) true = answer-IsReported token _ refl

-- Whatever POST /browser replies, and whatever the error handler replies to a body that could not be
-- parsed, the client reads back: the receipt of a success, and the error code of a failure.
pub receive-post_browser :
    {S : Type 0} (deps : ImportReportServiceDependencies S)
    (authorization content_type : Option Text) (body : Value) (s : S)
    (parse_error : Option (Value × Value))
    → IsReported
        (post_browser (record_browser_import_report deps) authorization content_type body s).0
      × IsReported (map_import_route_parse_error parse_error)
unfolding post_browser
receive-post_browser deps authorization content_type body s parse_error = (
  respond-IsReported deps body s (read_strict_bearer_token authorization)
      (has_json_content_type content_type),
  parse_error-IsReported parse_error,
)
