-- ===== src/Import.antt =====
-- packages/domain/src/browser-import.ts: the limits, the errors and the report of the import of a
-- password export of a browser.
pub mod Csv
pub mod Quoting
pub mod Printing
pub mod Analysis
pub mod Rows
pub mod Order
pub mod Origin
pub mod Report
mod Tests
use unuvault.Prelude.{Bool, ℕ, ◌*◌, List, [], ◌∷◌, Text}

abbrev pub csv_bytes : ℕ
csv_bytes = 10 * 1024 * 1024

abbrev pub data_rows : ℕ
data_rows = 3000

abbrev pub header_columns : ℕ
header_columns = 256

abbrev pub url_bytes : ℕ
url_bytes = 8 * 1024

abbrev pub username_bytes : ℕ
username_bytes = 4 * 1024

abbrev pub password_bytes : ℕ
password_bytes = 16 * 1024

abbrev pub name_bytes : ℕ
name_bytes = 4 * 1024

pub data ImportError : Type 0 where
  unsupported_source : ImportError
  file_too_large : ImportError
  empty_csv : ImportError
  malformed_csv : ImportError
  missing_required_header : ImportError
  duplicate_header : ImportError
  too_many_columns : ImportError
  too_many_rows : ImportError

-- The reasons but `duplicate`, which carries the row that it repeats.
pub data Reason : Type 0 where
  empty_row : Reason
  malformed_row : Reason
  empty_url : Reason
  empty_password : Reason
  url_too_long : Reason
  username_too_long : Reason
  password_too_long : Reason
  name_too_long : Reason
  unsupported_note : Reason
  invalid_url : Reason
  unsupported_url_scheme : Reason

pub data Issue : Type 0 where
  refused : (row_index : ℕ) → Reason → Issue
  duplicate : (row_index duplicate_of_row_index : ℕ) → Issue

pub data Source : Type 0 where
  chrome edge : Source

pub record AcceptedEntry : Type 0 where
  pub row_index : ℕ
  pub source : Source
  pub name : Text
  pub website_origin : Text
  pub username : Text
  pub password : Text

pub record Counts : Type 0 where
  pub total_rows : ℕ
  pub accepted_rows : ℕ
  pub malformed_rows : ℕ
  pub duplicate_rows : ℕ

pub record BrowserImportAnalysis : Type 0 where
  pub accepted_entries : List AcceptedEntry
  pub counts : Counts
  pub issues : List Issue

pub record ParsedCsvRecord : Type 0 where
  pub values : List Text
  pub has_extra_fields : Bool
  pub discarded_field_has_content : Bool
