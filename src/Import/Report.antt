-- ===== src/Import/Report.antt =====
-- What the report of an import says.
use unuvault.Prelude.{
  inl, inr, Result, Result-cases, select, Option, refl, ◌≡◌, ◌∷◌, [], ◌+◌, ◌≤◌, ◌<◌, ok, arith,
  Text, length, length-select-le, Elem,
}
use unuvault.Bridge.{Url}
use unuvault.Import.{
  header_columns, ImportError, ℕ, List, Source, ParsedCsvRecord, BrowserImportAnalysis,
  AcceptedEntry, data_rows, duplicate,
}
use unuvault.Import.Origin.{IsFrom, add_rows-origin}
use unuvault.Import.Csv.{parse_csv}
use unuvault.Import.Analysis.{
  without_mark, source_of, analyze_rows, analyze_records, analyze_browser_import, analysis_of,
  add_rows, headers_of, nothing_yet, is_duplicate,
}
use unuvault.Import.Rows.{length-add_rows, IsAcceptable}
use unuvault.Import.Order.{key_of, start-IsOrderly, add_rows-IsOrderly}

-- The records of a file after the header, and the header's names.
abbrev pub rows_of : List ParsedCsvRecord → List ParsedCsvRecord
rows_of [] = []
rows_of (header ∷ rows) = rows

abbrev pub headers_in : List ParsedCsvRecord → List Text
headers_in [] = headers_of []
headers_in (header ∷ rows) = headers_of header.values

module _ (new_url : Text → Option Url) (nfc : Text → Text) where
  -- The analysis is what sorting the data rows, from row 2 on, gives.
  abbrev SortedFrom : Source → List ParsedCsvRecord → BrowserImportAnalysis → Type 0
  SortedFrom source records a =
      (length (rows_of records) ≤ data_rows)
      × (a
          ≡ analysis_of (length (rows_of records))
              (add_rows new_url nfc source (headers_in records) 2 (rows_of records) nothing_yet))

  analyze_records-SortedFrom :
      (source : Source) (records : List ParsedCsvRecord) (a : BrowserImportAnalysis)
      → analyze_records new_url nfc source records ≡ ok a
      → SortedFrom source records a
  unfolding analyze_rows
  analyze_records-SortedFrom source [] a h = (ground arith, ground arith)
  analyze_records-SortedFrom source (header ∷ rows) a h = (ground arith, ground arith)

  abbrev pub parsed : Text → Result ImportError (List ParsedCsvRecord)
  parsed csv = parse_csv data_rows header_columns (without_mark new_url nfc csv)

  -- The file is parsed, and its rows are sorted.
  analyze_sound :
      (source csv : Text) (a : BrowserImportAnalysis)
      → analyze_browser_import new_url nfc source csv ≡ ok a
      → (known : Source) × (records : List ParsedCsvRecord) × (source_of new_url nfc source
          ≡ ok known)
        × (parsed csv ≡ ok records)
        × SortedFrom known records a
  unfolding analyze_browser_import
  analyze_sound source csv a h = elim (Result-cases (source_of new_url nfc source)) [
    | inr (e, n) ↦ absurd (ground arith)
    | inl (known, k) ↦ elim (Result-cases (parsed csv)) [
      | inr (e, n) ↦ absurd (ground arith)
      | inl (records, q) ↦
          (known, records, k, q, analyze_records-SortedFrom known records a (ground arith))
    ]
  ]

  abbrev Sorted : BrowserImportAnalysis → Type 0
  Sorted a =
      (source : Source) × (headers : List Text) × (rows : List ParsedCsvRecord) × (length rows
        ≤ data_rows)
      × (a ≡ analysis_of (length rows) (add_rows new_url nfc source headers 2 rows nothing_yet))

  pub analyze-Sorted :
      (source csv : Text) (a : BrowserImportAnalysis)
      → analyze_browser_import new_url nfc source csv ≡ ok a
      → Sorted a
  analyze-Sorted source csv a h =
      let (known, records, _, _, (few, same)) = analyze_sound source csv a h in
      (known, headers_in records, rows_of records, few, same)

  -- When an export is analysed, every data row is accepted, malformed or a duplicate, and counted as
  -- that once: the counts add up to the number of data rows, which is at most 3000, and they are the
  -- lengths of the lists of accepted entries and of issues.
  pub counts_add_up :
      (source csv : Text) (a : BrowserImportAnalysis)
      → analyze_browser_import new_url nfc source csv ≡ ok a
      → (a.counts.total_rows
          ≡ a.counts.accepted_rows + a.counts.malformed_rows + a.counts.duplicate_rows)
        × (a.counts.accepted_rows ≡ length a.accepted_entries)
        × (a.counts.malformed_rows + a.counts.duplicate_rows ≡ length a.issues)
        × (a.counts.duplicate_rows ≡ length (select is_duplicate a.issues))
        × (a.counts.total_rows ≤ 3000)
  counts_add_up source csv a h =
      let (known, headers, rows, few, same) = analyze-Sorted source csv a h in
      let p = add_rows new_url nfc known headers 2 rows nothing_yet in
      rw same (
        omega (
          arith,
          length-add_rows new_url nfc known headers 2 rows nothing_yet,
          length-select-le is_duplicate p.issues,
        ),
        refl,
        omega (arith, length-select-le is_duplicate p.issues),
        refl,
        few,
      )

  -- When an export is analysed: its source is known, and its text is parsed into records; each accepted
  -- entry has the number of one of the records after the header, counted from 2 on, and is what
  -- `judge_row` makes of that record under the header's names; it has the origin of a parsed http or
  -- https URL, a password that is not empty, and no value beyond its limit in UTF-8 bytes; two accepted
  -- entries with the same duplicate key are the same; and a row that is reported as a duplicate names an
  -- earlier row, which is accepted.
  pub entries_lem :
      (source csv : Text) (a : BrowserImportAnalysis)
      → analyze_browser_import new_url nfc source csv ≡ ok a
      → (known : Source) × (records : List ParsedCsvRecord) × (source_of new_url nfc source
          ≡ ok known)
        × (parsed csv ≡ ok records)
        × ((e : AcceptedEntry)
            → Elem e a.accepted_entries
            → IsAcceptable new_url e.name e.website_origin e.username e.password
              × (2 ≤ e.row_index)
              × (e.row_index < 2 + a.counts.total_rows)
              × IsFrom new_url nfc known (headers_in records) 2 (rows_of records) e)
        × ((e e' : AcceptedEntry)
            → Elem e a.accepted_entries
            → Elem e' a.accepted_entries
            → key_of e ≡ key_of e'
            → e ≡ e')
        × ((i j : ℕ)
            → Elem (duplicate i j) a.issues
            → (j < i) × ((e : AcceptedEntry) × Elem e a.accepted_entries × (e.row_index ≡ j)))
  entries_lem source csv a h =
      let (known, records, named, read, (few, same)) = analyze_sound source csv a h in
      let headers = headers_in records in
      let rows = rows_of records in
      let i =
        add_rows-IsOrderly new_url nfc known headers 2 rows nothing_yet
          (start-IsOrderly new_url 2) in
      rw same (
        known,
        records,
        named,
        read,
        λ e there.
            let from = from_rows known headers rows e there in
            let (_, _, _, _, at', _) = from in
            (i.acceptable e there, omega (arith, at'), i.below e there, from),
        λ e e' there there' key.
            i.single e e' there there' (ground (arith, i.known e there, i.known e' there')),
        i.repeats,
      )
    where
      from_rows :
          (known : Source) (headers : List Text) (rows : List ParsedCsvRecord) (e : AcceptedEntry)
          → Elem e (add_rows new_url nfc known headers 2 rows nothing_yet).accepted
          → IsFrom new_url nfc known headers 2 rows e
      from_rows known headers rows e there =
          elim (add_rows-origin new_url nfc known headers 2 rows nothing_yet e there) [
            | inl old ↦ absurd old
            | inr from ↦ from
          ]
