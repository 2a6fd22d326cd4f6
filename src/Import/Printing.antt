-- ===== src/Import/Printing.antt =====
-- An export that is printed with quoted fields is parsed into the rows that were printed.
use mathlib.Core.List.{append-nil, append_assoc}
use unuvault.Prelude.{
  length-append, ◌-◌, ltb, refl, sym, ap, ◌∙◌, ◌≡◌, ◌∷◌, [], ◌++◌, ◌+◌, ◌≤◌, suc, true, false, ok,
  arith, Text, List, length, map, All,
}
use unuvault.Import.{ℕ, ParsedCsvRecord}
use unuvault.Import.Csv.{
  next_is, Parser, quote, comma, step, scan, captures_current_field, finish_field, finish_row,
  finish, parse_csv,
}
use unuvault.Import.Quoting.{escaped, run, scan-step, scan-escaped}

-- A row of quoted fields, ended by a line feed, and what follows it.
abbrev pub print_row : Text → List Text → Text → Text
print_row f [] rest = quote ∷ escaped f ++ quote ∷ 10 ∷ rest
print_row f (g ∷ gs) rest = quote ∷ escaped f ++ quote ∷ comma ∷ print_row g gs rest

-- A row has a first field and others.
abbrev pub print_csv : List (Text × List Text) → Text
print_csv [] = []
print_csv ((f, fs) ∷ rows) = print_row f fs (print_csv rows)

abbrev pub as_record : Text × List Text → ParsedCsvRecord
as_record (f, fs) = record {
  values = f ∷ fs;
  has_extra_fields = false;
  discarded_field_has_content = false;
}

-- The parser at the start of a field, after the fields `r` of a row.
abbrev before_field : List ParsedCsvRecord → List Text → Parser
before_field rows r = record {
  rows = rows;
  row = r;
  field = [];
  in_quotes = false;
  just_closed_quote = false;
  field_has_unquoted_content = false;
  has_extra_fields = false;
  discarded_field_has_content = false;
}

abbrev after_field : List ParsedCsvRecord → List Text → Text → Parser
after_field rows r f = record (before_field rows r) { field = f; just_closed_quote = true }

module _ (max_data_rows max_header_columns : ℕ) where
  -- There is room for `k` more fields in the row.
  abbrev HasRoom : List ParsedCsvRecord → List Text → ℕ → Type 0
  HasRoom [] r k = length r + k ≤ max_header_columns
  HasRoom (header ∷ rows) r k = length r + k ≤ length header.values

  captures :
      (rows : List ParsedCsvRecord) (r : List Text) (k : ℕ) (f : Text)
      → HasRoom rows r (suc k)
      → captures_current_field (after_field rows r f) ≡ true
  unfolding captures_current_field
  captures [] r k f room = refl
  captures (header ∷ rows) r k f room = ground arith

  step_opens :
      (s : Text) (rows : List ParsedCsvRecord) (r : List Text)
      → step max_data_rows max_header_columns quote s (before_field rows r)
        ≡ ok (false, record (before_field rows r) { in_quotes = true })
  unfolding step
  step_opens s rows r = refl

  field_ends :
      (rows : List ParsedCsvRecord) (r : List Text) (k : ℕ) (f : Text)
      → HasRoom rows r (suc k)
      → finish_field max_header_columns (after_field rows r f)
        ≡ ok (before_field rows (r ++ f ∷ []))
  unfolding finish_field captures_current_field
  field_ends [] r k f room = ground arith
  field_ends (header ∷ rows) r k f room = ground arith

  -- A quoted field, whatever ends it.
  run-quoted :
      (rows : List ParsedCsvRecord) (r : List Text) (k : ℕ) (f rest : Text)
      → HasRoom rows r (suc k)
      → next_is quote rest ≡ false
      → run max_data_rows max_header_columns
          (quote ∷ escaped f ++ quote ∷ rest)
          (before_field rows r)
        ≡ run max_data_rows max_header_columns rest (after_field rows r f)
  unfolding captures_current_field
  run-quoted rows r k f rest room n =
      scan-step max_data_rows max_header_columns quote (escaped f ++ quote ∷ rest) _ _ false
        (step_opens (escaped f ++ quote ∷ rest) rows r)
      ∙ scan-escaped max_data_rows max_header_columns f rest
          (record (before_field rows r) { in_quotes = true }) refl (captures rows r k [] room) n

  room_next :
      (rows : List ParsedCsvRecord) (r : List Text) (k : ℕ) (f : Text)
      → HasRoom rows r (suc k)
      → HasRoom rows (r ++ f ∷ []) k
  room_next [] r k f room = omega (arith, length-append r (f ∷ []))
  room_next (header ∷ rows) r k f room = omega (arith, length-append r (f ∷ []))

  separator_ends :
      (s : Text) (rows : List ParsedCsvRecord) (r : List Text) (k : ℕ) (f : Text)
      → HasRoom rows r (suc k)
      → step max_data_rows max_header_columns comma s (after_field rows r f)
        ≡ ok (false, before_field rows (r ++ f ∷ []))
  unfolding step
  separator_ends s rows r k f room = rw (field_ends rows r k f room) refl

  -- The rows with one more.
  abbrev pub with_row : List ParsedCsvRecord → List Text → List ParsedCsvRecord
  with_row rows values =
      rows
      ++ record { values = values; has_extra_fields = false; discarded_field_has_content = false }
        ∷ []

  step_newline :
      (s : Text) (rows : List ParsedCsvRecord) (r : List Text) (k : ℕ) (f : Text)
      → HasRoom rows r (suc k)
      → length rows ≤ max_data_rows
      → step max_data_rows max_header_columns 10 s (after_field rows r f)
        ≡ ok (false, before_field (with_row rows (r ++ f ∷ [])) [])
  unfolding step finish_row
  step_newline s rows r k f room few =
      let longer = length-append rows (
        record {
          values = r ++ f ∷ [];
          has_extra_fields = false;
          discarded_field_has_content = false;
        }
        ∷ []) in
      let small : ltb max_data_rows (length (with_row rows (r ++ f ∷ [])) - 1) ≡ false =
        ground (arith, longer) in
      rw (field_ends rows r k f room, small) refl

  run-row :
      (rows : List ParsedCsvRecord) (r : List Text) (f : Text) (fs : List Text) (rest : Text)
      → HasRoom rows r (suc (length fs))
      → length rows ≤ max_data_rows
      → run max_data_rows max_header_columns (print_row f fs rest) (before_field rows r)
        ≡ run max_data_rows max_header_columns rest (before_field (with_row rows (r ++ f ∷ fs)) [])
  run-row rows r f [] rest room few =
      run-quoted rows r 0 f (10 ∷ rest) room refl
      ∙ scan-step max_data_rows max_header_columns 10 rest _ _ false
          (step_newline rest rows r 0 f room few)
  run-row rows r f (g ∷ gs) rest room few =
      run-quoted rows r (suc (length gs)) f (comma ∷ print_row g gs rest) room refl
      ∙ scan-step max_data_rows max_header_columns comma (print_row g gs rest) _ _ false
          (separator_ends (print_row g gs rest) rows r (suc (length gs)) f room)
      ∙ run-row rows (r ++ f ∷ []) g gs rest (room_next rows r (suc (length gs)) f room) few
      ∙ ap (λ v. run max_data_rows max_header_columns rest (before_field (with_row rows v) []))
          (append_assoc r (f ∷ []) (g ∷ gs))

  finishes :
      (rows : List ParsedCsvRecord)
      → run max_data_rows max_header_columns [] (before_field rows []) ≡ ok rows
  unfolding scan finish
  finishes rows = refl

  -- The rows after the header, each at most as wide as it.
  run-rows :
      (header : ParsedCsvRecord) (done' : List ParsedCsvRecord) (rows : List (Text × List Text))
      → All (λ row. suc (length row.1) ≤ length header.values) rows
      → length done' + length rows ≤ max_data_rows
      → run max_data_rows max_header_columns (print_csv rows) (before_field (header ∷ done') [])
        ≡ ok (header ∷ done' ++ map as_record rows)
  run-rows header done' [] wide few =
      finishes (header ∷ done') ∙ ap (λ d. ok (header ∷ d)) (sym (append-nil done'))
  run-rows header done' ((f, fs) ∷ rows) (fits, wide) few =
      run-row (header ∷ done') [] f fs (print_csv rows) (omega (arith, fits)) (omega (arith, few))
      ∙ run-rows header (with_row done' (f ∷ fs)) rows wide
          (omega (arith, few, length-append done' (as_record (f, fs) ∷ [])))
      ∙ ap (λ d. ok (header ∷ d)) (append_assoc done' (as_record (f, fs) ∷ []) (map as_record rows))

-- An export printed with every field between quotes, its quotes doubled, commas between fields and
-- a line feed after each row, is parsed into exactly its rows, for any characters in its fields: the
-- header has at most as many columns as the limit allows, the rows after it are at most as wide as
-- the header, and there are at most as many of them as the limit allows.
pub parse-print :
    (max_data_rows max_header_columns : ℕ) (f : Text) (fs : List Text)
    (rows : List (Text × List Text))
    → suc (length fs) ≤ max_header_columns
    → All (λ row. suc (length row.1) ≤ suc (length fs)) rows
    → length rows ≤ max_data_rows
    → parse_csv max_data_rows max_header_columns (print_csv ((f, fs) ∷ rows))
      ≡ ok (map as_record ((f, fs) ∷ rows))
unfolding parse_csv
parse-print max_data_rows max_header_columns f fs rows columns wide few =
    run-row max_data_rows max_header_columns [] [] f fs (print_csv rows) (omega (arith, columns))
      (omega arith)
    ∙ run-rows max_data_rows max_header_columns (as_record (f, fs)) [] rows wide
        (omega (arith, few))
