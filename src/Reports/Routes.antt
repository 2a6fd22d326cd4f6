-- ===== src/Reports/Routes.antt =====
-- apps/api/src/routes/imports.ts: POST /browser, and lib/bearer-token.ts. The status of a success is
-- 201.
use unuvault.Prelude.Regexes.{set, plus, matches}
use unuvault.Http.{answer, bearer_prefix, Handler, failure, Reply}
use unuvault.Reports.Service.{
  persistence, profile_not_found, unauthorized, validation, Receipt, ImportReportError,
}
use unuvault.Values.{is_text, is_whole, Value}
use unuvault.Prelude.{
  leb, codes, trim, map, is_space, ◌==◌, not, strip_prefix, text_eq, if◌then◌else◌, Bool, ℕ, Option,
  Text, none, some, false, true, [], ◌∷◌, ◌||◌, ◌&&◌,
}
use unuvault.Prelude.Actions.{Action}
use unuvault.Import.Analysis.{lower}

-- `[^\s\u0000-\u001f\u007f-\u009f]`.
abbrev is_token_unit : ℕ → Bool
is_token_unit c = not (is_space c || leb c 31 || (leb 127 c && leb c 159))

-- `readStrictBearerToken`: the rest after "Bearer ", where it matches `[…]+` from end to end.
abbrev token_if : Bool → Text → Option Text
token_if true token = some token
token_if false token = none

unfoldable pub read_strict_bearer_token : Option Text → Option Text
read_strict_bearer_token none = none
read_strict_bearer_token (some value) = elim (strip_prefix bearer_prefix value) [
  | none ↦ none
  | some token ↦ token_if (matches (plus (set is_token_unit)) token) token
]

-- `contentType.split(";", 1)[0]`.
abbrev before_semicolon : Text → Text
before_semicolon [] = []
before_semicolon (c ∷ s) = if c == 59 then [] else c ∷ before_semicolon s

unfoldable pub has_json_content_type : Option Text → Bool
has_json_content_type none = false
has_json_content_type (some content_type) =
    text_eq (map lower (trim (before_semicolon content_type))) (codes "application/json")

-- `mapImportRouteParseError`, of the error's `code` and `statusCode`, where they can be read.
unfoldable pub map_import_route_parse_error : {A : Type 0} → Option (Value × Value) → Reply A
map_import_route_parse_error none = failure 500 (codes "import_report_create_failed")
map_import_route_parse_error (some (code, status_code)) =
    if is_text (codes "FST_ERR_CTP_BODY_TOO_LARGE") code
    then failure 413 (codes "import_report_too_large")
    else if is_text (codes "FST_ERR_CTP_INVALID_MEDIA_TYPE") code
    then failure 415 (codes "unsupported_media_type")
    else if is_whole 400 status_code
    then failure 400 (codes "invalid_import_report")
    else failure 500 (codes "import_report_create_failed")

abbrev pub map_stable_import_error : {A : Type 0} → ImportReportError → Reply A
map_stable_import_error validation = failure 400 (codes "invalid_import_report")
map_stable_import_error unauthorized = failure 401 (codes "invalid_token")
map_stable_import_error profile_not_found = failure 404 (codes "profile_not_found")
map_stable_import_error persistence = failure 500 (codes "import_report_create_failed")

-- The body of the handler, on the token and on whether the content type is JSON.
abbrev pub respond :
    {S : Type 0}
    → (record_browser_import_report : Text → Value → Action S ImportReportError Receipt)
    → (token : Option Text) → (is_json : Bool) → (body : Value) → Handler S Receipt
respond record_browser_import_report none is_json body s =
    (failure 401 (codes "missing_bearer_token"), s)
respond record_browser_import_report (some token) false body s =
    (failure 415 (codes "unsupported_media_type"), s)
respond record_browser_import_report (some token) true body s =
    answer map_stable_import_error (record_browser_import_report token body) s

unfoldable pub post_browser :
    {S : Type 0}
    → (record_browser_import_report : Text → Value → Action S ImportReportError Receipt)
    → (authorization content_type : Option Text) → (body : Value) → Handler S Receipt
post_browser record_browser_import_report authorization content_type body s =
    respond record_browser_import_report (read_strict_bearer_token authorization)
      (has_json_content_type content_type) body s
