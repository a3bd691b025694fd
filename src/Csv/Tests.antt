-- ===== src/Csv/Tests.antt =====
-- A table with a quote, a comma, a line end, an empty cell and a formula.
use signalstack_sms.Prelude.{false, List, [], ◌∷◌, ◌≡◌, map, codes}
use signalstack_sms.Text.{Text}
use signalstack_sms.Csv.Parse.{parse_csv_cells}
use signalstack_sms.Csv.Escape.{csv_lines}
use signalstack_sms.Csv.RoundTrip.{safe_row, parse_csv_cells-csv_lines}

abbrev table : List (Text × List Text)
table =
    (codes "+1555", codes "a,\"b\"" ∷ (10 ∷ 13 ∷ []) ∷ [] ∷ [])
    ∷ (codes "x", [])
    ∷ ([], codes " =1" ∷ [])
    ∷ []

parse_csv_cells-csv_lines_example : parse_csv_cells (csv_lines false table) ≡ map safe_row table
parse_csv_cells-csv_lines_example = parse_csv_cells-csv_lines false table
