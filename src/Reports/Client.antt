-- ===== src/Reports/Client.antt =====
-- `recordBrowserImportReport` of packages/api-client/src/imports.ts: what the client makes of the
-- response of POST /imports/browser.
use unuvault.Prelude.Regexes.{matches}
use unuvault.Reports.Service.{canonical_lowercase_uuid_v4, Receipt}
use unuvault.Values.{
  named, bare, text, text_of, snapshot_plain_data_object, safe_count, callable, datum, whole,
  boolean, number, object, Value,
}
use unuvault.Prelude.{
  text_eq, [], not, leb, ◌==◌, ◌∷◌, if◌then◌else◌, map_get, Bool, ℕ, List, Result, codes, TextMap,
  Option, Text, none, some, ok, err, true, false, ◌&&◌,
}
use unuvault.Prelude.Options.{◌>>=◌, ◌>>◌, guard}
use unuvault.Http.{Reply, success, failure}

-- The properties that are read of a response, `none` where reading throws, and what its `json()` gives,
-- `none` where it throws or rejects.
pub record Response : Type 0 where
  pub status : Option Value
  pub is_ok : Option Value
  pub json : Option Value
  pub payload : Option Value

-- An allowed error code, or "import_report_record_failed:" with the status or "unknown".
pub data ClientError : Type 0 where
  reported : Text → ClientError
  record_failed : Option ℕ → ClientError

-- `readExactOwnDataPropertySnapshot`. An array has the own key "length", which no caller expects.
abbrev read_exact_own_data_property_snapshot : Value → List Text → Option (TextMap Value)
read_exact_own_data_property_snapshot payload expected_keys =
    snapshot_plain_data_object payload (expected_keys ∷ [])

abbrev client_receipt_of : TextMap Value → Option Receipt
client_receipt_of receipt = do
  job_id ← map_get (codes "job_id") receipt >>= text_of
  guard (matches canonical_lowercase_uuid_v4 job_id)
  status ← map_get (codes "status") receipt >>= text_of
  guard (text_eq status (codes "recorded"))
  some (record { job_id = job_id })

unfoldable pub read_browser_import_receipt : Value → Option Receipt
read_browser_import_receipt payload =
    read_exact_own_data_property_snapshot payload (codes "job_id" ∷ codes "status" ∷ [])
    >>= client_receipt_of

-- `IMPORT_REPORT_ERROR_STATUSES`; its keys are `IMPORT_REPORT_ERROR_CODES`.
abbrev import_report_error_statuses : TextMap ℕ
import_report_error_statuses =
    (codes "invalid_import_report", 400)
    ∷ (codes "missing_bearer_token", 401)
    ∷ (codes "invalid_token", 401)
    ∷ (codes "profile_not_found", 404)
    ∷ (codes "import_report_too_large", 413)
    ∷ (codes "unsupported_media_type", 415)
    ∷ (codes "import_report_create_failed", 500)
    ∷ []

abbrev is_false : Value → Bool
is_false (boolean b) = not b
is_false _ = false

abbrev allowed_error : Option ℕ → TextMap Value → Option Text
allowed_error status payload = do
  is_ok ← map_get (codes "ok") payload
  guard (is_false is_ok)
  error ← map_get (codes "error") payload >>= text_of
  allowed ← map_get error import_report_error_statuses
  given ← status
  guard (allowed == given)
  some error

unfoldable pub read_allowlisted_import_error : Value → Option ℕ → Option Text
read_allowlisted_import_error payload status =
    read_exact_own_data_property_snapshot payload (codes "ok" ∷ codes "error" ∷ [])
    >>= allowed_error status

unfoldable pub read_safe_http_status : Response → Option ℕ
read_safe_http_status response = do
  n ← response.status >>= safe_count
  guard (leb 100 n && leb n 599)
  some n

abbrev boolean_of : Value → Option Bool
boolean_of (boolean b) = some b
boolean_of _ = none

abbrev pub read_safe_response_ok : Response → Option Bool
read_safe_response_ok response = response.is_ok >>= boolean_of

abbrev is_callable : Value → Bool
is_callable callable = true
is_callable _ = false

-- `readResponsePayload`, with `none` for its error.
abbrev pub read_response_payload : Response → Option Value
read_response_payload response = do json ← response.json; guard (is_callable json); response.payload

abbrev receipt_or_failure : Option ℕ → Option Receipt → Result ClientError Receipt
receipt_or_failure status (some receipt) = ok receipt
receipt_or_failure status none = err (record_failed status)

abbrev error_or_failure : Option ℕ → Option Text → Result ClientError Receipt
error_or_failure status (some error) = err (reported error)
error_or_failure status none = err (record_failed status)

abbrev is_created : Option ℕ → Bool
is_created none = false
is_created (some status) = status == 201

-- What follows on the status and on `ok`.
abbrev receive_from : Response → Option ℕ → Option Bool → Result ClientError Receipt
receive_from response status (some true) =
    if is_created status
    then receipt_or_failure status (read_response_payload response >>= read_browser_import_receipt)
    else err (record_failed status)
receive_from response status (some false) =
    error_or_failure status
      (read_response_payload response >>= λ payload. read_allowlisted_import_error payload status)
receive_from response status none = err (record_failed status)

-- The rest of `recordBrowserImportReport` after the request; `none` where the fetcher throws.
unfoldable pub receive : Option Response → Result ClientError Receipt
unfolding read_safe_http_status
receive none = err (record_failed none)
receive (some response) =
    receive_from response (read_safe_http_status response) (read_safe_response_ok response)

-- The response that the API's reply arrives as: its status, and its JSON body.
abbrev receipt_body : Receipt → Value
receipt_body receipt = object true (
    datum (named (codes "job_id")) true (text receipt.job_id)
      (datum (named (codes "status")) true (text (codes "recorded")) bare))

abbrev error_body : Text → Value
error_body error = object true (
    datum (named (codes "ok")) true (boolean false)
      (datum (named (codes "error")) true (text error) bare))

abbrev pub response_of : Reply Receipt → Response
response_of (success receipt) = record {
  status = some (number (whole 201));
  is_ok = some (boolean true);
  json = some callable;
  payload = some (receipt_body receipt);
}
response_of (failure status error) = record {
  status = some (number (whole status));
  is_ok = some (boolean (leb 200 status && leb status 299));
  json = some callable;
  payload = some (error_body error);
}
