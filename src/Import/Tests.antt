-- ===== src/Import/Tests.antt =====
-- Imports of concrete exports.
use unuvault.Reports.Analyses.{validate-analyze}
use unuvault.Reports.Wire.{to_browser_import_report_request}
use unuvault.Reports.{validate_and_rebuild_request}
use unuvault.Import.Csv.{
  finish, finish_row, finish_field, captures_current_field, append_field_character, step, scan,
  parse_csv,
}
use unuvault.Import.Printing.{print_csv, as_record, parse-print}
use unuvault.Prelude.{
  ◌≤◌, List, map, arith, map_set, map_get, trim, text_eq, ◌+◌, ◌<◌, ℕ, Elem, refl, ◌≡◌, ◌∷◌, [],
  ◌++◌, ok, some, Text, codes, Option,
}
use unuvault.Import.Analysis.{source_of}
use unuvault.Import.Origin.{IsFrom}
use unuvault.Import.Report.{parsed, headers_in, rows_of, entries_lem}
use unuvault.Import.Rows.{IsAcceptable}
use unuvault.Import.Order.{key_of}
use unuvault.Bridge.{Url}
use unuvault.Import.{
  ParsedCsvRecord, Source, BrowserImportAnalysis, AcceptedEntry, chrome, duplicate, refused,
  empty_password,
}
use unuvault.Import.Analysis.{
  value_for, analyze_rows, judge_row, add_row, add_rows, headers_of, utf8_byte_length,
  analyze_browser_import,
}

-- Each URL is its own origin; the texts are ASCII, which NFC leaves alone.
abbrev web : Text → Option Url
web text = some (record { protocol = codes "https:"; origin = text })

abbrev same : Text → Text
same text = text

-- A header, an entry with a quoted comma, the same again, and a row without a password.
abbrev export : Text
export =
    codes "URL,username,password"
    ++ 13 ∷ 10 ∷ codes "https://a,ada,\"s,3\""
    ++ 10 ∷ codes "https://a,ada,x"
    ++ 10 ∷ codes "https://b,ada,"

abbrev entry : AcceptedEntry
entry = record {
  row_index = 2;
  source = chrome;
  name = [];
  website_origin = codes "https://a";
  username = codes "ada";
  password = codes "s,3";
}

abbrev report : BrowserImportAnalysis
report = record {
  accepted_entries = entry ∷ [];
  counts = record { total_rows = 3; accepted_rows = 1; malformed_rows = 1; duplicate_rows = 1 };
  issues = duplicate 3 2 ∷ refused 4 empty_password ∷ [];
}

analyzes : analyze_browser_import web same (codes "chrome") export ≡ ok report
unfolding analyze_browser_import text_eq utf8_byte_length parse_csv scan step append_field_character
    captures_current_field finish_field finish_row finish headers_of trim add_rows add_row judge_row
    map_get map_set analyze_rows value_for
analyzes = refl

validate-analyze_example :
    validate_and_rebuild_request
      (to_browser_import_report_request chrome report.counts report.issues)
    ≡ some (record { source = chrome; counts = report.counts; issues = report.issues })
validate-analyze_example = validate-analyze web same chrome (codes "chrome") export report analyzes

entries_lem_example :
    (known : Source) × (records : List ParsedCsvRecord) × (source_of web same (codes "chrome")
      ≡ ok known)
    × (parsed web same export ≡ ok records)
    × ((e : AcceptedEntry)
        → Elem e report.accepted_entries
        → IsAcceptable web e.name e.website_origin e.username e.password
          × (2 ≤ e.row_index)
          × (e.row_index < 2 + report.counts.total_rows)
          × IsFrom web same known (headers_in records) 2 (rows_of records) e)
    × ((e e' : AcceptedEntry)
        → Elem e report.accepted_entries
        → Elem e' report.accepted_entries
        → key_of e ≡ key_of e'
        → e ≡ e')
    × ((i j : ℕ)
        → Elem (duplicate i j) report.issues
        → (j < i) × ((e : AcceptedEntry) × Elem e report.accepted_entries × (e.row_index ≡ j)))
entries_lem_example = entries_lem web same (codes "chrome") export report analyzes

-- A line feed, a comma and a quote within fields; the second row is short.
abbrev odd_rows : List (Text × List Text)
odd_rows = (10 ∷ codes ",", codes "say \"x\"" ∷ []) ∷ (codes "c", []) ∷ []

parse-print_example :
    parse_csv 3000 256 (print_csv ((codes "a", codes "b" ∷ []) ∷ odd_rows))
    ≡ ok (map as_record ((codes "a", codes "b" ∷ []) ∷ odd_rows))
parse-print_example =
    parse-print 3000 256 (codes "a") (codes "b" ∷ []) odd_rows (omega arith)
      (omega arith, (omega arith, tt)) (omega arith)
