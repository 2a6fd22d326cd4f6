-- ===== src/Reports/Analyses.antt =====
-- What the analysis of an export reports (packages/domain/src/browser-import.ts), the API accepts.
use unuvault.Reports.Wire.{to_browser_import_report_request}
use unuvault.Reports.Acceptance.{validate-to_browser_import_report_request, length-counts}
use unuvault.Import.Report.{counts_add_up, analyze-Sorted}
use mathlib.Core.Option.{none}
use unuvault.Import.Order.{start-IsOrderly, add_rows-IsOrderly, add_row-IsOrderly, IsOrderly}
use unuvault.Bridge.{Url}
use unuvault.Reports.{validate_and_rebuild_request, duplicate_count, is_issue_row, row_of}
use unuvault.Reports.Consistency.{IsConsistent, HasEarlierTarget, InOrder}
use unuvault.Import.Analysis.{
  judge_row, is_duplicate, add_row, analyze_browser_import, add_rows, add_candidate, entry_of,
  add_judged, duplicate_key, accept, Candidate, report_issue, nothing_yet, Progress,
}
use mathlib.Core.Path.{subst}
use unuvault.Prelude.{
  ◌==◌, ◌∙◌, sym, ap, select, length, ◌||◌, inr, none, ok, inl, err, Elem-snoc, map_get, Result,
  ◌≤◌, ◌++◌, Elem, Option, ◌<◌, suc, arith, Text, List, [], ◌∷◌, refl, ◌+◌, ◌≡◌, some, ℕ, false,
}
use unuvault.Import.{
  ParsedCsvRecord, BrowserImportAnalysis, Reason, Source, AcceptedEntry, Issue, refused, duplicate,
}

-- The rows of the issues rise, after `previous`, and are all before row `n`.
abbrev Rising : (previous n : ℕ) → List Issue → Type 0
Rising previous n [] = previous < n
Rising previous n (issue ∷ issues) =
    (previous < row_of issue) × HasEarlierTarget issue × Rising (row_of issue) n issues

Rising-next :
    (previous n : ℕ) (issues : List Issue)
    → Rising previous n issues
    → Rising previous (suc n) issues
Rising-next previous n [] h = omega (arith, h)
Rising-next previous n (issue ∷ issues) (later, earlier, h) =
    (later, earlier, Rising-next (row_of issue) n issues h)

Rising-snoc :
    (previous n : ℕ) (issues : List Issue) (issue : Issue)
    → row_of issue ≡ n
    → HasEarlierTarget issue
    → Rising previous n issues
    → Rising previous (suc n) (issues ++ issue ∷ [])
Rising-snoc previous n [] issue at_n earlier h =
    (omega (arith, h, at_n), earlier, omega (arith, at_n))
Rising-snoc previous n (first ∷ issues) issue at_n earlier (later, e, h) =
    (later, e, Rising-snoc (row_of first) n issues issue at_n earlier h)

Rising-after : (previous n : ℕ) (issues : List Issue) → Rising previous n issues → previous < n
Rising-after previous n [] h = h
Rising-after previous n (issue ∷ issues) (later, _, h) =
    omega (arith, later, Rising-after (row_of issue) n issues h)

Rising-InOrder :
    (previous total : ℕ) (issues : List Issue)
    → Rising previous (2 + total) issues
    → InOrder total previous issues
Rising-InOrder previous total [] h = tt
Rising-InOrder previous total (issue ∷ issues) (later, earlier, h) = (
  later,
  omega (arith, Rising-after (row_of issue) (2 + total) issues h),
  earlier,
  Rising-InOrder (row_of issue) total issues h,
)

is_issue_row-Rising :
    (previous n : ℕ) (issues : List Issue)
    → Rising previous n issues
    → is_issue_row issues n ≡ false
is_issue_row-Rising previous n [] h = refl
is_issue_row-Rising previous n (issue ∷ issues) (_, _, h) =
    ground
      (arith, is_issue_row-Rising (row_of issue) n issues h, Rising-after (row_of issue) n issues h)

is_issue_row-snoc :
    (issues : List Issue) (issue : Issue) (row : ℕ)
    → is_issue_row (issues ++ issue ∷ []) row ≡ (is_issue_row issues row || row_of issue == row)
is_issue_row-snoc [] issue row = ground arith
is_issue_row-snoc (first ∷ issues) issue row = ground (arith, is_issue_row-snoc issues issue row)

-- What is known of the issues once all rows before row `n` are sorted.
record IsListed (n : ℕ) (p : Progress) : Type 0 where
  rising : Rising 1 n p.issues
  apart :
      (e : AcceptedEntry)
      → Elem e p.accepted
      → (2 ≤ e.row_index) × (is_issue_row p.issues e.row_index ≡ false)

start-IsListed : IsListed 2 nothing_yet
start-IsListed = record { rising = omega arith; apart = λ e h. absurd h }

module _ {new_url : Text → Option Url} (n : ℕ) (p : Progress) (o : IsOrderly new_url n p)
    (i : IsListed n p) where
  report_issue-IsListed :
      (issue : Issue)
      → row_of issue ≡ n
      → HasEarlierTarget issue
      → IsListed (suc n) (report_issue issue p)
  report_issue-IsListed issue at_n earlier = record {
    rising = Rising-snoc 1 n p.issues issue at_n earlier i.rising;
    apart = λ e there.
        let (late, free) = i.apart e there in
        (
          late,
          ground (arith, is_issue_row-snoc p.issues issue e.row_index, free, o.below e there, at_n),
        );
  }

  accept-IsListed : (source : Source) (c : Candidate) → IsListed (suc n) (accept source n c p)
  accept-IsListed source c = record {
    rising = Rising-next 1 n p.issues i.rising;
    apart = λ e there. elim ((Elem-snoc p.accepted (entry_of source n c) e).0 there) [
      | inl old ↦ i.apart e old
      | inr same ↦
          rw same (Rising-after 1 n p.issues i.rising, is_issue_row-Rising 1 n p.issues i.rising)
    ];
  }

  add_candidate-IsListed :
      (source : Source) (c : Candidate) (found : Option ℕ)
      → map_get (duplicate_key c.website_origin c.username) p.first_row_by_duplicate_key ≡ found
      → IsListed (suc n) (add_candidate source n c found p)
  add_candidate-IsListed source c none new = accept-IsListed source c
  add_candidate-IsListed source c (some first) old =
      let (e, there, _, row) = o.tracked (duplicate_key c.website_origin c.username) first old in
      let (late, _) = i.apart e there in
      report_issue-IsListed (duplicate n first) refl
        (omega (arith, late, row), omega (arith, o.below e there, row))

  add_judged-IsListed :
      (source : Source) (r : Result Reason Candidate) → IsListed (suc n) (add_judged source n r p)
  add_judged-IsListed source (err reason) = report_issue-IsListed (refused n reason) refl tt
  add_judged-IsListed source (ok c) = add_candidate-IsListed source c _ refl

duplicate_count-select :
    (issues : List Issue) → duplicate_count issues ≡ length (select is_duplicate issues)
duplicate_count-select [] = refl
duplicate_count-select (refused row reason ∷ issues) = duplicate_count-select issues
duplicate_count-select (duplicate row first ∷ issues) = ap suc (duplicate_count-select issues)

module _ (new_url : Text → Option Url) (nfc : Text → Text) where
  add_rows-IsListed :
      (source : Source) (headers : List Text) (n : ℕ) (rows : List ParsedCsvRecord) (p : Progress)
      → IsOrderly new_url n p
      → IsListed n p
      → IsListed (n + length rows) (add_rows new_url nfc source headers n rows p)
  unfolding add_rows add_row
  add_rows-IsListed source headers n [] p o i = subst (λ k. IsListed k p) (omega arith) i
  add_rows-IsListed source headers n (row ∷ rows) p o i =
      let q = add_row new_url nfc source headers n row p in
      subst (λ k. IsListed k (add_rows new_url nfc source headers (suc n) rows q)) (omega arith)
        (add_rows-IsListed source headers (suc n) rows q
          (add_row-IsOrderly new_url nfc source headers n row p o)
          (add_judged-IsListed n p o i source (judge_row new_url nfc headers row)))

  -- Of any analysis, the report is consistent.
  analysis-IsConsistent :
      (sent : Source) (source csv : Text) (a : BrowserImportAnalysis)
      → analyze_browser_import new_url nfc source csv ≡ ok a
      → IsConsistent (record { source = sent; counts = a.counts; issues = a.issues })
  analysis-IsConsistent sent source csv a h =
      let (known, headers, rows, few, same) = analyze-Sorted new_url nfc source csv a h in
      let (adds_up, _, listed, duplicates, small) = counts_add_up new_url nfc source csv a h in
      let p = add_rows new_url nfc known headers 2 rows nothing_yet in
      let o =
        add_rows-IsOrderly new_url nfc known headers 2 rows nothing_yet
          (start-IsOrderly new_url 2) in
      let i =
        add_rows-IsListed known headers 2 rows nothing_yet (start-IsOrderly new_url 2)
          start-IsListed in
      record {
        few = small;
        adds_up = sym adds_up;
        malformed =
            omega
              (arith, listed, duplicates, length-counts a.issues, duplicate_count-select a.issues);
        duplicates = duplicate_count-select a.issues ∙ sym duplicates;
        in_order = rw same (Rising-InOrder 1 (length rows) p.issues i.rising);
        targets = rw same (λ row first there.
            let (_, (e, accepted, at_first)) = o.repeats row first there in
            rw (sym at_first) (i.apart e accepted).1);
      }

  -- Whatever export the web client analyses, the API accepts the report of the analysis, as
  -- `toBrowserImportReportRequest` writes it, and rebuilds exactly its source, counts and issues.
  pub validate-analyze :
      (sent : Source) (source csv : Text) (a : BrowserImportAnalysis)
      → analyze_browser_import new_url nfc source csv ≡ ok a
      → validate_and_rebuild_request (to_browser_import_report_request sent a.counts a.issues)
        ≡ some (record { source = sent; counts = a.counts; issues = a.issues })
  validate-analyze sent source csv a h =
      validate-to_browser_import_report_request
        (record { source = sent; counts = a.counts; issues = a.issues })
        (analysis-IsConsistent sent source csv a h)
