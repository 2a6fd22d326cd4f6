-- ===== src/Reports/Wire.antt =====
-- `toBrowserImportReportRequest` of packages/api-client/src/imports.ts: the request as a plain value.
use unuvault.Reports.{reason_code}
use unuvault.Values.{whole, text, number, bare, named, datum, object, Properties, Value}
use unuvault.Import.{duplicate, refused, Counts, Source, Issue, chrome, edge}
use unuvault.Values.Arrays.{array_of}
use unuvault.Prelude.{map, true, List, ℕ, codes, Text}

abbrev pub code_of_source : Source → Text
code_of_source chrome = codes "chrome"
code_of_source edge = codes "edge"

abbrev count : Text → ℕ → Properties → Properties
count name n rest = datum (named name) true (number (whole n)) rest

abbrev pub wire_counts : Counts → Value
wire_counts counts = object true (
    count (codes "total_rows") counts.total_rows (
      count (codes "accepted_rows") counts.accepted_rows (
        count (codes "malformed_rows") counts.malformed_rows
          (count (codes "duplicate_rows") counts.duplicate_rows bare))))

abbrev pub wire_issue : Issue → Value
wire_issue (refused row_index reason) = object true (
    count (codes "row_index") row_index
      (datum (named (codes "reason_code")) true (text (reason_code reason)) bare))
wire_issue (duplicate row_index first) = object true (
    count (codes "row_index") row_index (
      datum (named (codes "reason_code")) true (text (codes "duplicate"))
        (count (codes "duplicate_of_row_index") first bare)))

unfoldable pub to_browser_import_report_request : Source → Counts → List Issue → Value
to_browser_import_report_request source counts issues = object true (
    datum (named (codes "source")) true (text (code_of_source source)) (
      datum (named (codes "report")) true
        (object true (
          datum (named (codes "counts")) true (wire_counts counts)
            (datum (named (codes "issues")) true (array_of (map wire_issue issues)) bare)))
        bare))
