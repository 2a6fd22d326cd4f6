-- ===== src/Reports/Consistency.antt =====
-- Which requests the validation lets through.
use unuvault.Values.{snapshot_plain_data_object}
use unuvault.Prelude.Options.{◌>>=◌, guard-some_inv, bind-some_inv}
use unuvault.Import.{Counts, duplicate, refused, Issue}
use unuvault.Reports.{
  max_import_rows, snapshot_dense_plain_array, read_source, target_is_accepted, text_of,
  counts_agree, read_counts, validate_and_rebuild_request, read, read_reason, issue_keys, issue_of,
  read_issue, read_target, read_issues, is_issue_row, duplicate_count, row_of, malformed_count,
  Value, read_logical_row_index, read_bounded_count, BrowserImportReportRequest,
}
use unuvault.Prelude.{
  and-eq-true_split, true, ltb, every, none, codes, text_eq, inr, inl, Option-cases, Option, Text,
  false, Elem, arith, ◌<◌, List, [], ◌∷◌, ℕ, some, ◌≡◌, ◌+◌, ◌≤◌,
}

-- A duplicate names an earlier data row.
abbrev pub HasEarlierTarget : Issue → Type 0
HasEarlierTarget (refused row_index reason) = Unit
HasEarlierTarget (duplicate row_index first) = (2 ≤ first) × (first < row_index)

-- The rows of the issues rise, after `previous`, and are among the `total` data rows.
abbrev pub InOrder : (total previous : ℕ) → List Issue → Type 0
InOrder total previous [] = Unit
InOrder total previous (issue ∷ issues) =
    (previous < row_of issue)
    × (row_of issue ≤ total + 1)
    × HasEarlierTarget issue
    × InOrder total (row_of issue) issues

pub record IsConsistent (request : BrowserImportReportRequest) : Type 0 where
  pub few : request.counts.total_rows ≤ 3000
  pub adds_up :
      request.counts.accepted_rows + request.counts.malformed_rows + request.counts.duplicate_rows
      ≡ request.counts.total_rows
  pub malformed : malformed_count request.issues ≡ request.counts.malformed_rows
  pub duplicates : duplicate_count request.issues ≡ request.counts.duplicate_rows
  pub in_order : InOrder request.counts.total_rows 1 request.issues
  pub targets :
      (row first : ℕ)
      → Elem (duplicate row first) request.issues
      → is_issue_row request.issues first ≡ false

read_bounded_count_sound : (v : Value) (n : ℕ) → read_bounded_count v ≡ some n → n ≤ 3000
unfolding read_bounded_count
read_bounded_count_sound v n h = ground arith

read_row_sound :
    (total : ℕ) (v : Value) (n : ℕ)
    → read_logical_row_index total v ≡ some n
    → (2 ≤ n) × (n ≤ total + 1)
unfolding read_logical_row_index
read_row_sound total v n h = ground arith

read_target_sound : (row : ℕ) (v : Value) (n : ℕ) → read_target row v ≡ some n → (2 ≤ n) × (n < row)
unfolding read_logical_row_index
read_target_sound row v n h = ground arith

issue_of_sound :
    (row : ℕ) (code : Text) (target : Option Value) (issue : Issue)
    → issue_of row code target ≡ some issue
    → (row_of issue ≡ row) × HasEarlierTarget issue
issue_of_sound row code none issue h =
    let (reason, found, same) = bind-some_inv (read_reason code) _ issue h in ground arith
issue_of_sound row code (some target) issue h =
    let (t, rest) = guard-some_inv (text_eq code (codes "duplicate")) _ issue h in
    let (first, found, same) = bind-some_inv (read_target row target) _ issue rest in
    let earlier = read_target_sound row target first found in ground arith

read_issue_sound :
    (total previous : ℕ) (v : Value) (issue : Issue)
    → read_issue total previous v ≡ some issue
    → (previous < row_of issue) × (row_of issue ≤ total + 1) × HasEarlierTarget issue
unfolding read_issue
read_issue_sound total previous v issue h =
    let (candidate, _, h1) = bind-some_inv (snapshot_plain_data_object v issue_keys) _ issue h in
    let (row, at_row, h2) =
      bind-some_inv (read (codes "row_index") candidate >>= read_logical_row_index total) _ issue
        h1 in
    let (later, h3) = guard-some_inv (ltb previous row) _ issue h2 in
    let (code, _, h4) =
      bind-some_inv (read (codes "reason_code") candidate >>= text_of) _ issue h3 in
    let (same, earlier) = issue_of_sound row code _ issue h4 in
    let (value, _, is_row) =
      bind-some_inv (read (codes "row_index") candidate) (read_logical_row_index total) row
        at_row in
    let (_, low) = read_row_sound total value row is_row in
    (ground (arith, later, same), ground (arith, low, same), earlier)

read_issues-InOrder :
    (total previous : ℕ) (vs : List Value) (issues : List Issue)
    → read_issues total previous vs ≡ some issues
    → InOrder total previous issues
unfolding read_issues
read_issues-InOrder total previous [] issues h = ground arith
read_issues-InOrder total previous (v ∷ vs) issues h =
    elim (Option-cases (read_issue total previous v)) [
      | inl n ↦ absurd (ground arith)
      | inr (issue, e) ↦ elim (Option-cases (read_issues total (row_of issue) vs)) [
        | inl n ↦ absurd (ground arith)
        | inr (rest, e') ↦
            let same : issues ≡ issue ∷ rest = ground arith in
            let (later, low, earlier) = read_issue_sound total previous v issue e in
            rw same (later, low, earlier, read_issues-InOrder total (row_of issue) vs rest e')
      ]
    ]

-- No duplicate names a row that has an issue itself.
targets_sound :
    (all issues : List Issue)
    → every (target_is_accepted all) issues ≡ true
    → (row first : ℕ) → Elem (duplicate row first) issues
    → is_issue_row all first ≡ false
targets_sound all [] h row first there = absurd there
targets_sound all (issue ∷ issues) h row first (inl same) = ground arith
targets_sound all (issue ∷ issues) h row first (inr there) =
    targets_sound all issues (and-eq-true_split _ _ h).1 row first there

read_counts_sound :
    (v : Value) (counts : Counts) → read_counts v ≡ some counts → counts.total_rows ≤ 3000
unfolding read_counts
read_counts_sound v counts h =
    let (snapshot, _, h1) = bind-some_inv (snapshot_plain_data_object v _) _ counts h in
    let (total, at_total, h2) =
      bind-some_inv (read (codes "total_rows") snapshot >>= read_bounded_count) _ counts h1 in
    let (value, _, is_total) =
      bind-some_inv (read (codes "total_rows") snapshot) read_bounded_count total at_total in
    let (accepted, _, h3) =
      bind-some_inv (read (codes "accepted_rows") snapshot >>= read_bounded_count) _ counts h2 in
    let (malformed, _, h4) =
      bind-some_inv (read (codes "malformed_rows") snapshot >>= read_bounded_count) _ counts h3 in
    let (repeated, _, h5) =
      bind-some_inv (read (codes "duplicate_rows") snapshot >>= read_bounded_count) _ counts h4 in
    let few = read_bounded_count_sound value total is_total in ground (arith, h5, few)

counts_agree_sound :
    (counts : Counts) (issues : List Issue)
    → counts_agree counts issues ≡ true
    → (counts.accepted_rows + counts.malformed_rows + counts.duplicate_rows ≡ counts.total_rows)
      × (malformed_count issues ≡ counts.malformed_rows)
      × (duplicate_count issues ≡ counts.duplicate_rows)
unfolding counts_agree
counts_agree_sound counts issues h = (ground arith, ground arith, ground arith)

-- A request that the validation rebuilds is consistent: it has at most 3000 data rows; the counts add
-- up, and count the issues; the rows of the issues rise and are data rows; and a duplicate names an
-- earlier data row that has no issue.
pub validate_sound :
    (input : Value) (request : BrowserImportReportRequest)
    → validate_and_rebuild_request input ≡ some request
    → IsConsistent request
unfolding validate_and_rebuild_request
validate_sound input request h =
    let (snapshot, _, h1) = bind-some_inv (snapshot_plain_data_object input _) _ request h in
    let (source, _, h2) =
      bind-some_inv (read (codes "source") snapshot >>= text_of >>= read_source) _ request h1 in
    let (report, _, h3) =
      bind-some_inv
        (read (codes "report") snapshot >>= λ value.
          snapshot_plain_data_object value ((codes "counts" ∷ codes "issues" ∷ []) ∷ []))
        _ request h2 in
    let (counts, at_counts, h4) =
      bind-some_inv (read (codes "counts") report >>= read_counts) _ request h3 in
    let (value, _, is_counts) =
      bind-some_inv (read (codes "counts") report) read_counts counts at_counts in
    let (values, _, h5) =
      bind-some_inv
        (read (codes "issues") report >>= λ v. snapshot_dense_plain_array v max_import_rows) _
        request h4 in
    let (issues, are_issues, h6) =
      bind-some_inv (read_issues counts.total_rows 1 values) _ request h5 in
    let (agree, h7) = guard-some_inv (counts_agree counts issues) _ request h6 in
    let (accepted, h8) = guard-some_inv (every (target_is_accepted issues) issues) _ request h7 in
    let same : request ≡ record { source = source; counts = counts; issues = issues } =
      ground (arith, h8) in
    let (adds_up, malformed, duplicates) = counts_agree_sound counts issues agree in
    rw same (record {
      few = read_counts_sound value counts is_counts;
      adds_up = adds_up;
      malformed = malformed;
      duplicates = duplicates;
      in_order = read_issues-InOrder counts.total_rows 1 values issues are_issues;
      targets = targets_sound issues issues accepted;
    })
