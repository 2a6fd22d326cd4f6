-- ===== src/Reports/Recording.antt =====
-- `recordBrowserImportReport` of apps/api/src/services/import-service.ts.
use unuvault.Import.Analysis.{is_duplicate}
use unuvault.Import.{refused, duplicate, Issue}
use unuvault.Reports.Consistency.{IsConsistent}
use unuvault.Values.{Value}
use unuvault.Reports.{
  malformed_count, duplicate_count, validate_and_rebuild_request, BrowserImportReportRequest,
}
use unuvault.Reports.Service.{
  BrowserImportReportInsertRow, persistence, validation, read_recorded_adapter_result,
  profile_id_of, account_id_of, insert_row, attempt, Receipt, ImportReportError,
  ImportReportServiceDependencies,
}
use unuvault.Prelude.{
  refl, [], suc, ap, not, ◌⊎◌, select, length, ◌∷◌, ◌+◌, ◌∙◌, ◌≡◌, ◌≤◌, List, or_err, Text,
}
use unuvault.Prelude.Actions.{Action, ◌>>=◌, lift}

module _ {S : Type 0} (deps : ImportReportServiceDependencies S) where
  -- The insertion and its result.
  abbrev pub insert_report : Text → BrowserImportReportRequest → Action S ImportReportError Receipt
  insert_report profile_id request = do
    finished_at ← attempt (λ s. (deps.now_iso s, s))
    result ← attempt (deps.insert_browser_import_report profile_id (insert_row request finished_at))
    lift (or_err (read_recorded_adapter_result result) persistence)

  unfoldable pub record_browser_import_report :
      (token : Text) (input : Value) → Action S ImportReportError Receipt
  record_browser_import_report token input = do
    user ← attempt (deps.get_user_by_token token)
    account_id ← lift (account_id_of user)
    profile ← attempt (deps.get_user_profile_by_account_id account_id)
    profile_id ← lift (profile_id_of profile)
    request ← lift (or_err (validate_and_rebuild_request input) validation)
    insert_report profile_id request

-- What a stored report promises: at most 3000 data rows, counts that add up, and as many malformed
-- rows and duplicates as counted, each list of its own kind.
pub record AddsUp (row : BrowserImportReportInsertRow) : Type 0 where
  pub few : row.totals.total_rows ≤ 3000
  pub adds_up :
      row.totals.accepted_rows + row.totals.malformed_rows + row.totals.duplicate_rows
      ≡ row.totals.total_rows
  pub malformed : length row.malformed_rows ≡ row.totals.malformed_rows
  pub duplicates : length row.duplicates ≡ row.totals.duplicate_rows

length-duplicates :
    (issues : List Issue) → length (select is_duplicate issues) ≡ duplicate_count issues
length-duplicates [] = refl
length-duplicates (refused row reason ∷ issues) = length-duplicates issues
length-duplicates (duplicate row first ∷ issues) = ap suc (length-duplicates issues)

length-malformed :
    (issues : List Issue)
    → length (select (λ issue. not (is_duplicate issue)) issues) ≡ malformed_count issues
length-malformed [] = refl
length-malformed (refused row reason ∷ issues) = ap suc (length-malformed issues)
length-malformed (duplicate row first ∷ issues) = length-malformed issues

pub insert_row-AddsUp :
    (request : BrowserImportReportRequest) (finished_at : Text)
    → IsConsistent request
    → AddsUp (insert_row request finished_at)
insert_row-AddsUp request finished_at i = record {
  few = i.few;
  adds_up = i.adds_up;
  malformed = length-malformed request.issues ∙ i.malformed;
  duplicates = length-duplicates request.issues ∙ i.duplicates;
}

-- What the database promises of the reports that it holds: looking a user or a profile up leaves them
-- alone, and an insertion adds the row for the profile, or leaves them alone.
pub record IsReportTable {S : Type 0} (deps : ImportReportServiceDependencies S)
    (reports : S → List (Text × BrowserImportReportInsertRow)) : Type 0 where
  pub finds_user : (token : Text) (s : S) → reports (deps.get_user_by_token token s).1 ≡ reports s
  pub finds_profile :
      (account_id : Text) (s : S)
      → reports (deps.get_user_profile_by_account_id account_id s).1 ≡ reports s
  pub inserts :
      (profile_id : Text) (row : BrowserImportReportInsertRow) (s : S)
      → (reports (deps.insert_browser_import_report profile_id row s).1
          ≡ (profile_id, row) ∷ reports s)
        ⊎ (reports (deps.insert_browser_import_report profile_id row s).1 ≡ reports s)
