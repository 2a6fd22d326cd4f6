-- ===== src/Reports/Service.antt =====
-- `createImportReportService` of apps/api/src/services/import-service.ts. What the services behind it
-- give is `unknown`, so it is a value; what they throw is not looked at, so it is a unit.
use unuvault.Import.Analysis.{is_duplicate}
use unuvault.Values.{
  text_of, is_truthy, snapshot_plain_data_properties, snapshot_plain_data_object, text, Value,
}
use unuvault.Import.{Counts, Source, Issue}
use unuvault.Reports.{BrowserImportReportRequest}
use unuvault.Prelude.{
  text_eq, or_err, [], codes, is_empty, ◌∷◌, not, List, ◌==◌, err, Bool, select, map_get,
  if◌then◌else◌, ok, Option, ℕ, Result, TextMap, Text, ◌||◌, ◌&&◌, leb, none, some,
}
use unuvault.Prelude.Options.{◌>>=◌, ◌>>◌, guard}
use unuvault.Prelude.Actions.{Action}
use unuvault.Prelude.Regexes.{times, char, matches, Regex, set, seq}

-- `CANONICAL_LOWERCASE_UUID_V4`.
abbrev is_lower_hex : ℕ → Bool
is_lower_hex c = (leb 48 c && leb c 57) || (leb 97 c && leb c 102)

abbrev hex : ℕ → Regex
hex n = times n (set is_lower_hex)

abbrev dash : Regex
dash = char 45

abbrev variant : ℕ → Bool
variant c = c == 56 || c == 57 || c == 97 || c == 98

abbrev pub canonical_lowercase_uuid_v4 : Regex
canonical_lowercase_uuid_v4 = seq (hex 8) (
    seq dash (
      seq (hex 4) (
        seq dash (
          seq (char 52)
            (seq (hex 3) (seq dash (seq (set variant) (seq (hex 3) (seq dash (hex 12))))))))))

pub data ImportReportError : Type 0 where
  validation : ImportReportError
  unauthorized : ImportReportError
  profile_not_found : ImportReportError
  persistence : ImportReportError

-- `BrowserImportReportInsertRow`; its status is always "recorded".
pub record BrowserImportReportInsertRow : Type 0 where
  pub source : Source
  pub totals : Counts
  pub duplicates : List Issue
  pub malformed_rows : List Issue
  pub finished_at : Text

abbrev pub Rejection : Type 0
Rejection = Unit

-- `now` is that of `new Date(now()).toISOString()`, which throws for an invalid date.
pub record ImportReportServiceDependencies (S : Type 0) : Type 0 where
  pub get_user_by_token : Text → Action S Rejection Value
  pub get_user_profile_by_account_id : Text → Action S Rejection Value
  pub insert_browser_import_report : Text → BrowserImportReportInsertRow → Action S Rejection Value
  pub now_iso : S → Result Rejection Text

-- `BrowserImportReportReceiptResponse`; its status is always "recorded".
pub record Receipt : Type 0 where
  pub job_id : Text

-- `try { … } catch { throw new ImportReportPersistenceError() }`.
abbrev pub or_persistence : {S A : Type 0} → Result Rejection A × S → Result ImportReportError A × S
or_persistence (ok a, s) = (ok a, s)
or_persistence (err e, s) = (err persistence, s)

abbrev pub attempt : {S A : Type 0} → Action S Rejection A → Action S ImportReportError A
attempt m s = or_persistence (m s)

-- A string that is not empty.
abbrev pub full_text : Option Value → Option Text
full_text (some (text t)) = if is_empty t then none else some t
full_text _ = none

abbrev pub own_text : Value → Text → Option Text
own_text value name = snapshot_plain_data_properties value (name ∷ []) >>= λ snapshot.
    full_text (map_get name snapshot)

abbrev pub account_id_of : Value → Result ImportReportError Text
account_id_of user =
    if is_truthy user
    then or_err (own_text user (codes "account_id")) unauthorized
    else err unauthorized

abbrev pub profile_id_of : Value → Result ImportReportError Text
profile_id_of profile =
    if is_truthy profile
    then or_err (own_text profile (codes "id")) persistence
    else err profile_not_found

-- The row that is inserted: the issues in two lists, each in their order.
abbrev pub insert_row :
    BrowserImportReportRequest → (finished_at : Text) → BrowserImportReportInsertRow
insert_row request finished_at = record {
  source = request.source;
  totals = request.counts;
  duplicates = select is_duplicate request.issues;
  malformed_rows = select (λ issue. not (is_duplicate issue)) request.issues;
  finished_at = finished_at;
}

abbrev receipt_of : TextMap Value → Option Receipt
receipt_of snapshot = do
  id ← map_get (codes "id") snapshot >>= text_of
  guard (matches canonical_lowercase_uuid_v4 id)
  status ← map_get (codes "status") snapshot >>= text_of
  guard (text_eq status (codes "recorded"))
  some (record { job_id = id })

unfoldable pub read_recorded_adapter_result : Value → Option Receipt
read_recorded_adapter_result result =
    snapshot_plain_data_object result ((codes "id" ∷ codes "status" ∷ []) ∷ []) >>= receipt_of
