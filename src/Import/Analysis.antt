-- ===== src/Import/Analysis.antt =====
-- `analyzeBrowserImport` of browser-import.ts.
use unuvault.Prelude.{
  ℕ, suc, ◌+◌, ◌-◌, Bool, true, false, not, ◌&&◌, ◌||◌, List, [], ◌∷◌, ◌++◌, map, select, every,
  exists, Option, none, some, length, ltb, leb, ◌==◌, if◌then◌else◌, Result, ok, err, ◌>>=◌, Text,
  codes, text_eq, is_empty, trim, TextMap, map_get, map_set,
}
use unuvault.Bridge.{Url}
use unuvault.Import.{
  unsupported_note, name_too_long, password_too_long, username_too_long, url_too_long,
  empty_password, missing_required_header, empty_url, malformed_row, unsupported_url_scheme,
  duplicate_header, empty_csv, empty_row, invalid_url, too_many_rows, file_too_large,
  unsupported_source, ImportError, Reason, Issue, Source, AcceptedEntry, BrowserImportAnalysis,
  ParsedCsvRecord, refused, duplicate, chrome, edge, csv_bytes, data_rows, header_columns,
  url_bytes, username_bytes, password_bytes, name_bytes,
}
use unuvault.Import.Csv.{parse_csv}

abbrev pub is_high : ℕ → Bool
is_high c = leb 0xd800 c && leb c 0xdbff

abbrev pub is_low : ℕ → Bool
is_low c = leb 0xdc00 c && leb c 0xdfff

abbrev unit_bytes : ℕ → ℕ
unit_bytes c = if ltb c 0x80 then 1 else if ltb c 0x800 then 2 else 3

-- `TextEncoder`: a surrogate pair takes four bytes, and a lone surrogate becomes U+FFFD. `open` says
-- that the unit before was a high surrogate, counted as three bytes so far.
bytes_after : Bool → Text → ℕ
bytes_after open' [] = 0
bytes_after open' (c ∷ s) =
    let paired = bytes_after false s in
    let single = bytes_after (is_high c) s in
    if open' && is_low c then suc paired else unit_bytes c + single

unfoldable pub utf8_byte_length : Text → ℕ
unfolding bytes_after
utf8_byte_length value = bytes_after false value

abbrev pub lower : ℕ → ℕ
lower c = if leb 65 c && leb c 90 then c + 32 else c

unfoldable pub headers_of : List Text → List Text
headers_of raw = map (λ header. map lower (trim header)) raw

-- `new Set(headers).size`.
set_size : List Text → ℕ
set_size [] = 0
set_size (h ∷ hs) = let rest = set_size hs in if exists (text_eq h) hs then rest else suc rest

-- `values[headers.indexOf(header)] ?? ""`.
unfoldable pub value_for : List Text → List Text → Text → Text
value_for [] values header = []
value_for (h ∷ hs) [] header = []
value_for (h ∷ hs) (v ∷ vs) header =
    let rest = value_for hs vs header in if text_eq h header then v else rest

-- What a row is accepted as, before it is compared with the rows before it.
pub record Candidate : Type 0 where
  pub name : Text
  pub website_origin : Text
  pub username : Text
  pub password : Text

module _ (new_url : Text → Option Url) (nfc : Text → Text) where
  abbrev by_url : (name username password : Text) → Option Url → Result Reason Candidate
  by_url name username password none = err invalid_url
  by_url name username password (some url) =
      if not (text_eq url.protocol (codes "http:")) && not (text_eq url.protocol (codes "https:"))
      then err unsupported_url_scheme
      else ok (record {
        name = name;
        website_origin = url.origin;
        username = username;
        password = password;
      })

  abbrev too_long : ℕ → Text → Bool
  too_long limit value = ltb limit (utf8_byte_length value)

  -- The early returns of the row's function, in their order.
  unfoldable pub judge_row : List Text → ParsedCsvRecord → Result Reason Candidate
  unfolding value_for
  judge_row headers row =
      let value = value_for headers row.values in
      let raw_url = value (codes "url") in
      let raw_username = value (codes "username") in
      let password = value (codes "password") in
      let raw_name = value (codes "name") in
      let note = value (codes "note") in
      let url = trim raw_url in
      let username = nfc (trim raw_username) in
      let name = trim raw_name in
      if every is_empty row.values && not row.discarded_field_has_content
      then err empty_row
      else if row.has_extra_fields
      then err malformed_row
      else if is_empty url
      then err empty_url
      else if is_empty password
      then err empty_password
      else if too_long url_bytes raw_url || too_long url_bytes url
      then err url_too_long
      else if too_long username_bytes raw_username || too_long username_bytes username
      then err username_too_long
      else if too_long password_bytes password
      then err password_too_long
      else if too_long name_bytes raw_name || too_long name_bytes name
      then err name_too_long
      else if not (is_empty note)
      then err unsupported_note
      else by_url name username password (new_url url)

pub record Progress : Type 0 where
  pub accepted : List AcceptedEntry
  pub issues : List Issue
  pub first_row_by_duplicate_key : TextMap ℕ

-- `${parsedUrl.origin}\u0000${username}`.
abbrev pub duplicate_key : (origin username : Text) → Text
duplicate_key origin username = origin ++ 0 ∷ username

abbrev pub report_issue : Issue → Progress → Progress
report_issue issue p = record p { issues = p.issues ++ issue ∷ [] }

abbrev pub entry_of : Source → ℕ → Candidate → AcceptedEntry
entry_of source row_index c = record {
  row_index = row_index;
  source = source;
  name = c.name;
  website_origin = c.website_origin;
  username = c.username;
  password = c.password;
}

abbrev pub accept : Source → ℕ → Candidate → Progress → Progress
accept source row_index c p = record {
  accepted = p.accepted ++ entry_of source row_index c ∷ [];
  issues = p.issues;
  first_row_by_duplicate_key =
      map_set (duplicate_key c.website_origin c.username) row_index p.first_row_by_duplicate_key;
}

abbrev pub add_candidate : Source → ℕ → Candidate → Option ℕ → Progress → Progress
add_candidate source row_index c (some first) p = report_issue (duplicate row_index first) p
add_candidate source row_index c none p = accept source row_index c p

abbrev pub add_judged : Source → ℕ → Result Reason Candidate → Progress → Progress
add_judged source row_index (err reason) p = report_issue (refused row_index reason) p
add_judged source row_index (ok c) p =
    add_candidate source row_index c
      (map_get (duplicate_key c.website_origin c.username) p.first_row_by_duplicate_key) p

abbrev pub nothing_yet : Progress
nothing_yet = record { accepted = []; issues = []; first_row_by_duplicate_key = [] }

abbrev pub is_duplicate : Issue → Bool
is_duplicate (refused row_index reason) = false
is_duplicate (duplicate row_index first) = true

abbrev pub analysis_of : ℕ → Progress → BrowserImportAnalysis
analysis_of total p =
    let duplicate_rows = length (select is_duplicate p.issues) in
    record {
      accepted_entries = p.accepted;
      counts = record {
        total_rows = total;
        accepted_rows = length p.accepted;
        malformed_rows = length p.issues - duplicate_rows;
        duplicate_rows = duplicate_rows;
      };
      issues = p.issues;
    }

module _ (new_url : Text → Option Url) (nfc : Text → Text) where
  unfoldable pub add_row : Source → List Text → ℕ → ParsedCsvRecord → Progress → Progress
  add_row source headers row_index row p =
      add_judged source row_index (judge_row new_url nfc headers row) p

  -- `dataRows.forEach`, from a row index on.
  unfoldable pub add_rows : Source → List Text → ℕ → List ParsedCsvRecord → Progress → Progress
  add_rows source headers row_index [] p = p
  add_rows source headers row_index (row ∷ rows) p =
      add_rows source headers (suc row_index) rows (add_row source headers row_index row p)

  abbrev required : List Text
  required = codes "url" ∷ codes "username" ∷ codes "password" ∷ []

  unfoldable pub analyze_rows :
      Source → List Text → List ParsedCsvRecord → Result ImportError BrowserImportAnalysis
  unfolding set_size
  analyze_rows source raw_headers rows =
      let headers = headers_of raw_headers in
      if ltb data_rows (length rows)
      then err too_many_rows
      else if not (set_size headers == length headers)
      then err duplicate_header
      else if not (every (λ header. exists (text_eq header) headers) required)
      then err missing_required_header
      else ok (analysis_of (length rows) (add_rows source headers 2 rows nothing_yet))

  abbrev pub analyze_records :
      Source → List ParsedCsvRecord → Result ImportError BrowserImportAnalysis
  analyze_records source [] = analyze_rows source [] []
  analyze_records source (header ∷ rows) = analyze_rows source header.values rows

  abbrev pub source_of : Text → Result ImportError Source
  source_of source =
      if text_eq source (codes "chrome")
      then ok chrome
      else if text_eq source (codes "edge")
      then ok edge
      else err unsupported_source

  -- `csv.startsWith("\uFEFF") ? csv.slice(1) : csv`.
  abbrev pub without_mark : Text → Text
  without_mark [] = []
  without_mark (c ∷ s) = if c == 0xfeff then s else c ∷ s

  unfoldable pub analyze_browser_import :
      (source csv : Text) → Result ImportError BrowserImportAnalysis
  unfolding analyze_rows
  analyze_browser_import source csv = do
    known ← source_of source
    if ltb csv_bytes (utf8_byte_length csv)
        then err file_too_large
        else (if is_empty (without_mark csv)
            then err empty_csv
            else (parse_csv data_rows header_columns (without_mark csv) >>= analyze_records known))
