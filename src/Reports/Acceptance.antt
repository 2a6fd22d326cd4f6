-- ===== src/Reports/Acceptance.antt =====
-- The validation lets every consistent request through, as it is sent.
use unuvault.Values.Arrays.{array_of, snapshot_dense_plain_array-array_of}
use unuvault.Reports.Wire.{
  code_of_source, wire_counts, to_browser_import_report_request, wire_issue,
}
use unuvault.Reports.Consistency.{InOrder, IsConsistent, HasEarlierTarget}
use unuvault.Reports.{
  target_is_accepted, is_issue_row, duplicate_count, read_source, malformed_count,
  validate_and_rebuild_request, BrowserImportReportRequest, read_issues, read_counts, counts_agree,
  read_bounded_count, issue_keys, row_of, read_target, reason_code, read_issue, read_reason,
  read_logical_row_index,
}
use unuvault.Values.{
  bare, named, datum, object, Value, text, text_of, snapshot_plain_data_object, same_key,
  descriptor, enumerable_value, snapshot_of, whole, own_keys, number, safe_count,
}
use unuvault.Prelude.{
  inl, inr, suc, every, ap, false, map, length, Elem, List, codes, ltb, text_eq, map_get, arith,
  ◌<◌, ◌≤◌, [], ◌∷◌, refl, ◌+◌, ◌≡◌, some, ℕ, true,
}
use unuvault.Import.{edge, chrome, Source, Counts, duplicate, refused, Reason, Issue}

read_reason-reason_code : (reason : Reason) → read_reason (reason_code reason) ≡ some reason
unfolding read_reason text_eq
read_reason-reason_code Reason.empty_row = refl
read_reason-reason_code Reason.malformed_row = refl
read_reason-reason_code Reason.empty_url = refl
read_reason-reason_code Reason.empty_password = refl
read_reason-reason_code Reason.url_too_long = refl
read_reason-reason_code Reason.username_too_long = refl
read_reason-reason_code Reason.password_too_long = refl
read_reason-reason_code Reason.name_too_long = refl
read_reason-reason_code Reason.unsupported_note = refl
read_reason-reason_code Reason.invalid_url = refl
read_reason-reason_code Reason.unsupported_url_scheme = refl

safe_count-whole : (n : ℕ) → n ≤ 3001 → safe_count (number (whole n)) ≡ some n
unfolding safe_count
safe_count-whole n few = ground arith

read_row-whole :
    (total n : ℕ)
    → total ≤ 3000
    → 2 ≤ n
    → n ≤ total + 1
    → read_logical_row_index total (number (whole n)) ≡ some n
unfolding read_logical_row_index
read_row-whole total n few low high =
    rw (safe_count-whole n (omega (arith, few, high))) (ground arith)

read_target-whole :
    (row n : ℕ) → row ≤ 3001 → 2 ≤ n → n < row → read_target row (number (whole n)) ≡ some n
read_target-whole row n few low high =
    rw (safe_count-whole n (omega (arith, few, high))) (ground arith)

wire_refused-snapshot :
    (row : ℕ) (reason : Reason)
    → snapshot_plain_data_object (wire_issue (refused row reason)) issue_keys
      ≡ some (
          (codes "row_index", number (whole row))
          ∷ (codes "reason_code", text (reason_code reason))
          ∷ [])
unfolding snapshot_plain_data_object own_keys snapshot_of enumerable_value descriptor same_key
    text_eq
wire_refused-snapshot row reason = refl

wire_duplicate-snapshot :
    (row first : ℕ)
    → snapshot_plain_data_object (wire_issue (duplicate row first)) issue_keys
      ≡ some (
          (codes "row_index", number (whole row))
          ∷ (codes "reason_code", text (codes "duplicate"))
          ∷ (codes "duplicate_of_row_index", number (whole first))
          ∷ [])
unfolding snapshot_plain_data_object own_keys snapshot_of enumerable_value descriptor same_key
    text_eq
wire_duplicate-snapshot row first = refl

read_issue-wire :
    (total previous : ℕ) (issue : Issue)
    → total ≤ 3000
    → 1 ≤ previous
    → previous < row_of issue
    → row_of issue ≤ total + 1
    → HasEarlierTarget issue
    → read_issue total previous (wire_issue issue) ≡ some issue
unfolding read_issue text_of map_get text_eq
read_issue-wire total previous (refused row reason) few past later high earlier =
    let row_read = read_row-whole total row few (omega (arith, past, later)) high in
    let rises : ltb previous row ≡ true = ground (arith, later) in
    rw (wire_refused-snapshot row reason, row_read, rises, read_reason-reason_code reason) refl
read_issue-wire total previous (duplicate row first) few past later high earlier =
    let row_read = read_row-whole total row few (omega (arith, past, later)) high in
    let rises : ltb previous row ≡ true = ground (arith, later) in
    rw
      (
        wire_duplicate-snapshot row first,
        row_read,
        rises,
        read_target-whole row first (omega (arith, few, high)) earlier.0 earlier.1,
      )
      refl

read_issues-wire :
    (total previous : ℕ) (issues : List Issue)
    → total ≤ 3000
    → 1 ≤ previous
    → InOrder total previous issues
    → read_issues total previous (map wire_issue issues) ≡ some issues
unfolding read_issues
read_issues-wire total previous [] few past h = refl
read_issues-wire total previous (issue ∷ issues) few past (later, high, earlier, h) = ground (
  arith,
  read_issue-wire total previous issue few past later high earlier,
  read_issues-wire total (row_of issue) issues few (omega (arith, past, later)) h,
)

read_bounded_count-whole : (n : ℕ) → n ≤ 3000 → read_bounded_count (number (whole n)) ≡ some n
unfolding read_bounded_count
read_bounded_count-whole n few = rw (safe_count-whole n (omega (arith, few))) (ground (arith, few))

wire_counts-snapshot :
    (counts : Counts)
    → snapshot_plain_data_object (wire_counts counts) (
        (codes "total_rows"
          ∷ codes "accepted_rows"
          ∷ codes "malformed_rows"
          ∷ codes "duplicate_rows"
          ∷ [])
        ∷ [])
      ≡ some (
          (codes "total_rows", number (whole counts.total_rows))
          ∷ (codes "accepted_rows", number (whole counts.accepted_rows))
          ∷ (codes "malformed_rows", number (whole counts.malformed_rows))
          ∷ (codes "duplicate_rows", number (whole counts.duplicate_rows))
          ∷ [])
unfolding snapshot_plain_data_object own_keys snapshot_of enumerable_value descriptor same_key
    text_eq
wire_counts-snapshot counts = refl

read_counts-wire :
    (counts : Counts)
    → counts.total_rows ≤ 3000
    → counts.accepted_rows + counts.malformed_rows + counts.duplicate_rows ≡ counts.total_rows
    → read_counts (wire_counts counts) ≡ some counts
unfolding read_counts map_get text_eq
read_counts-wire counts few sum =
    rw
      (
        wire_counts-snapshot counts,
        read_bounded_count-whole counts.total_rows few,
        read_bounded_count-whole counts.accepted_rows (omega (arith, few, sum)),
        read_bounded_count-whole counts.malformed_rows (omega (arith, few, sum)),
        read_bounded_count-whole counts.duplicate_rows (omega (arith, few, sum)),
      )
      refl

pub length-counts :
    (issues : List Issue) → length issues ≡ malformed_count issues + duplicate_count issues
length-counts [] = refl
length-counts (refused row reason ∷ issues) = omega (arith, length-counts issues)
length-counts (duplicate row first ∷ issues) = omega (arith, length-counts issues)

targets_complete :
    (all issues : List Issue)
    → ((row first : ℕ) → Elem (duplicate row first) issues → is_issue_row all first ≡ false)
    → every (target_is_accepted all) issues ≡ true
targets_complete all [] h = refl
targets_complete all (refused row reason ∷ issues) h =
    targets_complete all issues (λ r f there. h r f (inr there))
targets_complete all (duplicate row first ∷ issues) h =
    rw (h row first (inl refl)) (targets_complete all issues (λ r f there. h r f (inr there)))

counts_agree_complete :
    (counts : Counts) (issues : List Issue)
    → counts.accepted_rows + counts.malformed_rows + counts.duplicate_rows ≡ counts.total_rows
    → malformed_count issues ≡ counts.malformed_rows
    → duplicate_count issues ≡ counts.duplicate_rows
    → counts_agree counts issues ≡ true
unfolding counts_agree
counts_agree_complete counts issues sum malformed duplicates =
    ground (arith, length-counts issues, sum, malformed, duplicates)

length-map : (issues : List Issue) → length (map wire_issue issues) ≡ length issues
length-map [] = refl
length-map (issue ∷ issues) = ap suc (length-map issues)

read_source-code_of_source : (source : Source) → read_source (code_of_source source) ≡ some source
unfolding text_eq
read_source-code_of_source chrome = refl
read_source-code_of_source edge = refl

abbrev wire_report : BrowserImportReportRequest → Value
wire_report request = object true (
    datum (named (codes "counts")) true (wire_counts request.counts)
      (datum (named (codes "issues")) true (array_of (map wire_issue request.issues)) bare))

request-snapshot :
    (request : BrowserImportReportRequest)
    → snapshot_plain_data_object
        (to_browser_import_report_request request.source request.counts request.issues)
        ((codes "source" ∷ codes "report" ∷ []) ∷ [])
      ≡ some (
          (codes "source", text (code_of_source request.source))
          ∷ (codes "report", wire_report request)
          ∷ [])
unfolding to_browser_import_report_request snapshot_plain_data_object own_keys snapshot_of
    enumerable_value descriptor same_key text_eq
request-snapshot request = refl

report-snapshot :
    (request : BrowserImportReportRequest)
    → snapshot_plain_data_object (wire_report request) ((codes "counts" ∷ codes "issues" ∷ []) ∷ [])
      ≡ some (
          (codes "counts", wire_counts request.counts)
          ∷ (codes "issues", array_of (map wire_issue request.issues))
          ∷ [])
unfolding snapshot_plain_data_object own_keys snapshot_of enumerable_value descriptor same_key
    text_eq
report-snapshot request = refl

-- A consistent request, sent as `toBrowserImportReportRequest` writes it, is rebuilt as it is.
pub validate-to_browser_import_report_request :
    (request : BrowserImportReportRequest)
    → IsConsistent request
    → validate_and_rebuild_request
        (to_browser_import_report_request request.source request.counts request.issues)
      ≡ some request
unfolding validate_and_rebuild_request map_get text_of text_eq
validate-to_browser_import_report_request request i =
    let few_issues : length (map wire_issue request.issues) ≤ 3000 = omega (
      arith,
      length-map request.issues,
      length-counts request.issues,
      i.few,
      i.adds_up,
      i.malformed,
      i.duplicates,
    ) in
    rw
      (
        request-snapshot request,
        read_source-code_of_source request.source,
        report-snapshot request,
        read_counts-wire request.counts i.few i.adds_up,
        snapshot_dense_plain_array-array_of (map wire_issue request.issues) 3000 few_issues
            (omega (arith, few_issues)),
        read_issues-wire request.counts.total_rows 1 request.issues i.few (omega arith) i.in_order,
        counts_agree_complete request.counts request.issues i.adds_up i.malformed i.duplicates,
        targets_complete request.issues request.issues i.targets,
      )
      refl
