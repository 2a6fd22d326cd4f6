-- ===== src/Import/Csv.antt =====
-- `parseCsv` of browser-import.ts.
use unuvault.Prelude.{
  ℕ, ◌-◌, Bool, true, false, not, ◌&&◌, ◌||◌, List, [], ◌∷◌, ◌++◌, length, ltb, leb, ◌==◌,
  if◌then◌else◌, Result, ok, err, ◌>>=◌, Text, is_empty,
}
use unuvault.Import.{ImportError, ParsedCsvRecord, malformed_csv, too_many_columns, too_many_rows}

-- The variables of the loop.
pub record Parser : Type 0 where
  pub rows : List ParsedCsvRecord
  pub row : List Text
  pub field : Text
  pub in_quotes : Bool
  pub just_closed_quote : Bool
  pub field_has_unquoted_content : Bool
  pub has_extra_fields : Bool
  pub discarded_field_has_content : Bool

abbrev pub start : Parser
start = record {
  rows = [];
  row = [];
  field = [];
  in_quotes = false;
  just_closed_quote = false;
  field_has_unquoted_content = false;
  has_extra_fields = false;
  discarded_field_has_content = false;
}

abbrev pub quote : ℕ
quote = 34

abbrev pub comma : ℕ
comma = 44

abbrev is_newline : ℕ → Bool
is_newline c = c == 10 || c == 13

unfoldable pub captures_current_field : Parser → Bool
captures_current_field p = elim p.rows [
  | [] ↦ true
  | header ∷ rest ↦ ltb (length p.row) (length header.values)
]

unfoldable pub append_field_character : ℕ → Parser → Parser
append_field_character c p =
    if captures_current_field p
    then record p { field = p.field ++ c ∷ [] }
    else record p { discarded_field_has_content = true }

abbrev is_first : Parser → Bool
is_first p = elim p.rows [ [] ↦ true | header ∷ rest ↦ false ]

abbrev fresh_field : Parser → Parser
fresh_field p = record p {
  field = [];
  just_closed_quote = false;
  field_has_unquoted_content = false;
}

unfoldable pub finish_field : ℕ → Parser → Result ImportError Parser
finish_field max_header_columns p =
    if is_first p && leb max_header_columns (length p.row)
    then err too_many_columns
    else if captures_current_field p
    then ok (fresh_field (record p { row = p.row ++ p.field ∷ [] }))
    else ok (
        fresh_field (record p {
          has_extra_fields = true;
          discarded_field_has_content = p.discarded_field_has_content || not (is_empty p.field);
        }))

abbrev record_of : Parser → ParsedCsvRecord
record_of p = record {
  values = p.row;
  has_extra_fields = p.has_extra_fields;
  discarded_field_has_content = p.discarded_field_has_content;
}

-- `rows.length - 1` is not negative here, since a row has just been added.
abbrev push_row : ℕ → Parser → Result ImportError Parser
push_row max_data_rows p =
    let rows = p.rows ++ record_of p ∷ [] in
    if ltb max_data_rows (length rows - 1)
    then err too_many_rows
    else ok (record p {
      rows = rows;
      row = [];
      has_extra_fields = false;
      discarded_field_has_content = false;
    })

unfoldable pub finish_row : ℕ → ℕ → Parser → Result ImportError Parser
finish_row max_data_rows max_header_columns p =
    finish_field max_header_columns p >>= push_row max_data_rows

-- The character after the current one, `input[index + 1]`.
abbrev pub next_is : ℕ → Text → Bool
next_is c [] = false
next_is c (d ∷ s) = d == c

module _ (max_data_rows max_header_columns : ℕ) where
  abbrev line_end : ℕ → Text → Parser → Result ImportError (Bool × Parser)
  line_end c rest p =
      finish_row max_data_rows max_header_columns p >>= λ q. ok (c == 13 && next_is 10 rest, q)

  -- One turn of the loop; the result says whether it also skips the next character.
  unfoldable pub step : ℕ → Text → Parser → Result ImportError (Bool × Parser)
  step c rest p =
      if p.in_quotes
      then (if c == quote
          then (if next_is quote rest
              then ok (true, append_field_character quote p)
              else ok (false, record p { in_quotes = false; just_closed_quote = true }))
          else ok (false, append_field_character c p))
      else if p.just_closed_quote
      then (if c == comma
          then (finish_field max_header_columns p >>= λ q. ok (false, q))
          else if is_newline c
          then line_end c rest p
          else err malformed_csv)
      else if c == quote
      then (if p.field_has_unquoted_content
          then err malformed_csv
          else ok (false, record p { in_quotes = true }))
      else if c == comma
      then (finish_field max_header_columns p >>= λ q. ok (false, q))
      else if is_newline c
      then line_end c rest p
      else ok (false, record (append_field_character c p) { field_has_unquoted_content = true })

  abbrev has_open_row : Parser → Bool
  has_open_row p =
      not (is_empty p.field)
      || p.field_has_unquoted_content
      || not (length p.row == 0)
      || p.has_extra_fields
      || p.just_closed_quote

  unfoldable pub finish : Parser → Result ImportError (List ParsedCsvRecord)
  finish p =
      if p.in_quotes
      then err malformed_csv
      else if has_open_row p
      then (finish_row max_data_rows max_header_columns p >>= λ q. ok q.rows)
      else ok p.rows

  unfoldable pub scan : Bool → Text → Parser → Result ImportError (List ParsedCsvRecord)
  scan skip [] p = finish p
  scan true (c ∷ s) p = scan false s p
  scan false (c ∷ s) p = elim (step c s p) [ err e ↦ err e | ok (skip, q) ↦ scan skip s q ]

  unfoldable pub parse_csv : Text → Result ImportError (List ParsedCsvRecord)
  parse_csv input = scan false input start
