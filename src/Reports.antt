-- ===== src/Reports.antt =====
-- apps/api/src/services/import-service.ts: how the report of a browser import is validated.
pub mod Wire
pub mod Consistency
pub mod Acceptance
pub mod Analyses
pub mod Service
pub mod Recording
pub mod Routes
pub mod Attempts
pub mod Stored
pub mod Receipts
pub mod Client
pub mod Replies
mod Tests
use unuvault.Prelude.{
  every, find, ℕ, suc, ◌+◌, Bool, true, false, not, ◌&&◌, ◌||◌, Option, none, some, List, [], ◌∷◌,
  ◌++◌, length, exists, ◌==◌, leb, ltb, if◌then◌else◌, Text, codes, text_eq, TextMap, map_get,
}
use unuvault.Prelude.Options.{◌>>=◌, ◌>>◌, guard}
use unuvault.Import.{Source, chrome, edge, Reason, Issue, refused, duplicate, Counts}
use unuvault.Values.{
  Value, snapshot_plain_data_object, snapshot_dense_plain_array, safe_count, text_of,
}

abbrev pub max_import_rows : ℕ
max_import_rows = 3000

-- `BrowserImportReportRequest`, its counts and issues as those of the analysis.
pub record BrowserImportReportRequest : Type 0 where
  pub source : Source
  pub counts : Counts
  pub issues : List Issue

-- `snapshot[name]`, of a snapshot that has the name.
abbrev pub read : Text → TextMap Value → Option Value
read name snapshot = map_get name snapshot

abbrev pub read_source : Text → Option Source
read_source source =
    if text_eq source (codes "chrome")
    then some chrome
    else if text_eq source (codes "edge")
    then some edge
    else none

-- The codes of `ALLOWED_REASON_CODES` but "duplicate".
abbrev pub reason_code : Reason → Text
reason_code Reason.empty_row = codes "empty_row"
reason_code Reason.malformed_row = codes "malformed_row"
reason_code Reason.empty_url = codes "empty_url"
reason_code Reason.empty_password = codes "empty_password"
reason_code Reason.url_too_long = codes "url_too_long"
reason_code Reason.username_too_long = codes "username_too_long"
reason_code Reason.password_too_long = codes "password_too_long"
reason_code Reason.name_too_long = codes "name_too_long"
reason_code Reason.unsupported_note = codes "unsupported_note"
reason_code Reason.invalid_url = codes "invalid_url"
reason_code Reason.unsupported_url_scheme = codes "unsupported_url_scheme"

abbrev pub reasons : List Reason
reasons =
    Reason.empty_row ∷ Reason.malformed_row ∷ Reason.empty_url ∷ Reason.empty_password
    ∷ Reason.url_too_long ∷ Reason.username_too_long ∷ Reason.password_too_long
    ∷ Reason.name_too_long ∷ Reason.unsupported_note ∷ Reason.invalid_url
    ∷ Reason.unsupported_url_scheme ∷ []

unfoldable pub read_reason : Text → Option Reason
read_reason code = find (λ reason. text_eq (reason_code reason) code) reasons

unfoldable pub read_bounded_count : Value → Option ℕ
read_bounded_count value = do n ← safe_count value; guard (leb n max_import_rows); some n

unfoldable pub read_logical_row_index : ℕ → Value → Option ℕ
read_logical_row_index total_rows value = do
  n ← safe_count value
  guard (leb 2 n && leb n (total_rows + 1))
  some n

unfoldable pub read_counts : Value → Option Counts
unfolding read_bounded_count
read_counts value = do
  snapshot ← snapshot_plain_data_object value (
      (codes "total_rows"
        ∷ codes "accepted_rows"
        ∷ codes "malformed_rows"
        ∷ codes "duplicate_rows"
        ∷ [])
      ∷ [])
  total ← read (codes "total_rows") snapshot >>= read_bounded_count
  accepted ← read (codes "accepted_rows") snapshot >>= read_bounded_count
  malformed ← read (codes "malformed_rows") snapshot >>= read_bounded_count
  repeated ← read (codes "duplicate_rows") snapshot >>= read_bounded_count
  some (record {
    total_rows = total;
    accepted_rows = accepted;
    malformed_rows = malformed;
    duplicate_rows = repeated;
  })

-- The target of a duplicate: an earlier data row.
abbrev pub read_target : ℕ → Value → Option ℕ
read_target row_index value = do n ← safe_count value; guard (leb 2 n && ltb n row_index); some n

abbrev pub issue_keys : List (List Text)
issue_keys =
    (codes "row_index" ∷ codes "reason_code" ∷ [])
    ∷ (codes "row_index" ∷ codes "reason_code" ∷ codes "duplicate_of_row_index" ∷ [])
    ∷ []

-- The issue of row `row_index`: only a duplicate has a target, and a duplicate has one.
abbrev pub issue_of : ℕ → Text → Option Value → Option Issue
issue_of row_index code (some target) = do
  guard (text_eq code (codes "duplicate"))
  first ← read_target row_index target
  some (duplicate row_index first)
issue_of row_index code none = read_reason code >>= λ reason. some (refused row_index reason)

-- One turn of the loop over the issues.
unfoldable pub read_issue : (total_rows previous_row_index : ℕ) → Value → Option Issue
unfolding read_logical_row_index read_reason
read_issue total_rows previous_row_index value = do
  candidate ← snapshot_plain_data_object value issue_keys
  row_index ← read (codes "row_index") candidate >>= read_logical_row_index total_rows
  guard (ltb previous_row_index row_index)
  code ← read (codes "reason_code") candidate >>= text_of
  issue_of row_index code (map_get (codes "duplicate_of_row_index") candidate)

abbrev pub row_of : Issue → ℕ
row_of (refused row_index reason) = row_index
row_of (duplicate row_index first) = row_index

-- The loop over the issues; the counters are taken from the result, below.
unfoldable pub read_issues : (total_rows previous_row_index : ℕ) → List Value → Option (List Issue)
read_issues total_rows previous_row_index [] = some []
read_issues total_rows previous_row_index (v ∷ vs) =
    elim (read_issue total_rows previous_row_index v) [
      | none ↦ none
      | some issue ↦ elim (read_issues total_rows (row_of issue) vs) [
        | none ↦ none
        | some rest ↦ some (issue ∷ rest)
      ]
    ]

abbrev pub duplicate_count : List Issue → ℕ
duplicate_count [] = 0
duplicate_count (refused row_index reason ∷ issues) = duplicate_count issues
duplicate_count (duplicate row_index first ∷ issues) = suc (duplicate_count issues)

abbrev pub malformed_count : List Issue → ℕ
malformed_count [] = 0
malformed_count (refused row_index reason ∷ issues) = suc (malformed_count issues)
malformed_count (duplicate row_index first ∷ issues) = malformed_count issues

-- `issueRows.has(row)`.
abbrev pub is_issue_row : List Issue → ℕ → Bool
is_issue_row issues row = exists (λ issue. row_of issue == row) issues

abbrev pub target_is_accepted : List Issue → Issue → Bool
target_is_accepted issues (refused row_index reason) = true
target_is_accepted issues (duplicate row_index first) = not (is_issue_row issues first)

unfoldable pub counts_agree : Counts → List Issue → Bool
counts_agree counts issues =
    counts.accepted_rows + counts.malformed_rows + counts.duplicate_rows == counts.total_rows
    && length issues == counts.malformed_rows + counts.duplicate_rows
    && duplicate_count issues == counts.duplicate_rows
    && malformed_count issues == counts.malformed_rows

-- `validateAndRebuildRequest`; `none` is the validation error.
unfoldable pub validate_and_rebuild_request : Value → Option BrowserImportReportRequest
unfolding counts_agree
validate_and_rebuild_request input = do
  request ← snapshot_plain_data_object input ((codes "source" ∷ codes "report" ∷ []) ∷ [])
  source ← read (codes "source") request >>= text_of >>= read_source
  report ← read (codes "report") request >>= λ value.
      snapshot_plain_data_object value ((codes "counts" ∷ codes "issues" ∷ []) ∷ [])
  counts ← read (codes "counts") report >>= read_counts
  values ←
      read (codes "issues") report >>= λ value. snapshot_dense_plain_array value max_import_rows
  issues ← read_issues counts.total_rows 1 values
  guard (counts_agree counts issues)
  guard (every (target_is_accepted issues) issues)
  some (record { source = source; counts = counts; issues = issues })
