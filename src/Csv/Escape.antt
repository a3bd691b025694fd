-- ===== src/Csv/Escape.antt =====
-- lib/csv/escape.ts, and the lines that app/api/contacts/segments/export/route.ts makes of the cells.
use signalstack_sms.Prelude.{
  ℕ, Bool, false, ◌||◌, List, [], ◌∷◌, ◌++◌, ◌==◌, any, leb, if◌then◌else◌,
}
use signalstack_sms.Text.{Text, is_space}
use signalstack_sms.Csv.Parse.{is_quote, is_line_feed, is_return}

unfoldable pub has_spreadsheet_formula_prefix : Text → Bool
has_spreadsheet_formula_prefix [] = false
has_spreadsheet_formula_prefix (c ∷ s) =
    let later = has_spreadsheet_formula_prefix s in
    if leb c 0x20 || is_space c then later else c == b'=' || c == b'+' || c == b'-' || c == b'@'

-- The cell with an apostrophe before a formula.
unfoldable pub safe_cell : Text → Text
safe_cell value = if has_spreadsheet_formula_prefix value then 39 ∷ value else value

-- `safe.replace(/"/g, '""')`
unfoldable pub double_quotes : Text → Text
double_quotes [] = []
double_quotes (c ∷ s) = if is_quote c then c ∷ c ∷ double_quotes s else c ∷ double_quotes s

-- `[",\r\n]`
unfoldable pub is_special : ℕ → Bool
is_special c = is_quote c || c == b',' || is_line_feed c || is_return c

unfoldable pub escape_csv_cell : Bool → Text → Text
escape_csv_cell always_quote value =
    if always_quote || any is_special (safe_cell value)
    then 34 ∷ (double_quotes (safe_cell value) ++ (34 ∷ []))
    else double_quotes (safe_cell value)

-- The cells of a row after its first, each behind a comma, and the end of the line.
unfoldable pub more_cells : Bool → List Text → Text
more_cells always_quote [] = 10 ∷ []
more_cells always_quote (value ∷ rest) =
    b',' ∷ (escape_csv_cell always_quote value ++ more_cells always_quote rest)

-- The rows as lines: a row has a first cell.
unfoldable pub csv_lines : Bool → List (Text × List Text) → Text
csv_lines always_quote [] = []
csv_lines always_quote ((value, rest) ∷ rows) =
    escape_csv_cell always_quote value
    ++ (more_cells always_quote rest ++ csv_lines always_quote rows)
