-- ===== src/Csv/RoundTrip.antt =====
-- What is written as a row is read as that row.
use signalstack_sms.Prelude.{
  ℕ, Bool, true, false, ◌||◌, List, [], ◌∷◌, ◌++◌, ◌≡◌, refl, sym, ◌∙◌, ap, arith, any, map, inl,
  inr, Bool-cases,
}
use mathlib.Core.List.{append_assoc, append-nil}
use signalstack_sms.Text.{Text}
use signalstack_sms.Csv.Parse.{Scan, is_quote, next_is, step, scan, finish, parse_csv_cells}
use signalstack_sms.Csv.Escape.{
  safe_cell, double_quotes, is_special, escape_csv_cell, more_cells, csv_lines,
}

module _ (rows : List (List Text)) (row : List Text) where
  abbrev outside : Text → Scan
  outside cell = record { rows = rows; row = row; cell = cell; in_quotes = false; skip = false }

  abbrev inside : Text → Scan
  inside cell = record { rows = rows; row = row; cell = cell; in_quotes = true; skip = false }

  abbrev skipping : Text → Scan
  skipping cell = record { rows = rows; row = row; cell = cell; in_quotes = true; skip = true }

  step-outside :
      (cell : Text) (c : ℕ) (s : Text)
      → is_special c ≡ false
      → step (outside cell) c s ≡ outside (cell ++ c ∷ [])
  unfolding step is_special
  step-outside cell c s h = ground arith

  step-inside :
      (cell : Text) (c : ℕ) (s : Text)
      → is_quote c ≡ false
      → step (inside cell) c s ≡ inside (cell ++ c ∷ [])
  unfolding step
  step-inside cell c s h = ground arith

  step-doubled :
      (cell : Text) (c : ℕ) (s : Text)
      → is_quote c ≡ true
      → step (inside cell) c (c ∷ s) ≡ skipping (cell ++ c ∷ [])
  unfolding step
  step-doubled cell c s h = rw h refl

  step-skipping : (cell : Text) (c : ℕ) (s : Text) → step (skipping cell) c s ≡ inside cell
  unfolding step
  step-skipping cell c s = refl

  step-opening : (s : Text) → step (outside []) 34 s ≡ inside []
  unfolding step
  step-opening s = refl

  step-line :
      (cell s : Text)
      → step (outside cell) 10 s ≡ record {
        rows = rows ++ (row ++ cell ∷ []) ∷ [];
        row = [];
        cell = [];
        in_quotes = false;
        skip = false;
      }
  unfolding step
  step-line cell s = refl

  step-comma :
      (cell s : Text)
      → step (outside cell) b',' s
        ≡ record { rows = rows; row = row ++ cell ∷ []; cell = []; in_quotes = false; skip = false }
  unfolding step
  step-comma cell s = refl

  step-closing :
      (cell s : Text) → next_is is_quote s ≡ false → step (inside cell) 34 s ≡ outside cell
  unfolding step
  step-closing cell s h = rw h refl

  -- Characters that are not special are read as they are.
  scan-plain :
      (cell s rest : Text)
      → any is_special s ≡ false
      → scan (outside cell) (double_quotes s ++ rest) ≡ scan (outside (cell ++ s)) rest
  unfolding scan is_special double_quotes
  scan-plain cell [] rest h = rw (append-nil cell) refl
  scan-plain cell (c ∷ s) rest h =
      let plain : is_special c ≡ false = ground arith in
      let unquoted : is_quote c ≡ false = ground arith in
      rw unquoted (
        ap (λ t. scan t (double_quotes s ++ rest)) (step-outside cell c _ plain)
        ∙ scan-plain (cell ++ c ∷ []) s rest (ground arith)
        ∙ ap (λ x. scan (outside x) rest) (append_assoc cell (c ∷ []) s))

  -- Inside quotes every character is read as it is, and a doubled quote as one.
  scan-quoted :
      (cell s rest : Text)
      → next_is is_quote rest ≡ false
      → scan (inside cell) (double_quotes s ++ 34 ∷ rest) ≡ scan (outside (cell ++ s)) rest
  unfolding scan double_quotes
  scan-quoted cell [] rest h =
      ap (λ t. scan t rest) (step-closing cell rest h)
      ∙ ap (λ x. scan (outside x) rest) (sym (append-nil cell))
  scan-quoted cell (c ∷ s) rest h =
      let later =
        scan-quoted (cell ++ c ∷ []) s rest h
        ∙ ap (λ x. scan (outside x) rest) (append_assoc cell (c ∷ []) s) in
      elim (Bool-cases (is_quote c)) [
        | inl quote ↦ rw quote (
            ap (λ t. scan (step t c (double_quotes s ++ 34 ∷ rest)) (double_quotes s ++ 34 ∷ rest))
              (step-doubled cell c _ quote)
            ∙ ap (λ t. scan t (double_quotes s ++ 34 ∷ rest)) (step-skipping (cell ++ c ∷ []) c _)
            ∙ later)
        | inr other ↦
            rw other
              (ap (λ t. scan t (double_quotes s ++ 34 ∷ rest)) (step-inside cell c _ other) ∙ later)
      ]

  -- An escaped cell is read as the safe cell, before anything but a quote.
  scan-escape_csv_cell :
      (always_quote : Bool) (value rest : Text)
      → next_is is_quote rest ≡ false
      → scan (outside []) (escape_csv_cell always_quote value ++ rest)
        ≡ scan (outside (safe_cell value)) rest
  unfolding escape_csv_cell scan
  scan-escape_csv_cell always_quote value rest h =
      elim (Bool-cases (always_quote || any is_special (safe_cell value))) [
        | inl quoted ↦ rw quoted (
            let doubled = double_quotes (safe_cell value) in
            ap (λ t. scan t ((doubled ++ 34 ∷ []) ++ rest)) (step-opening _)
            ∙ ap (scan (inside [])) (append_assoc doubled (34 ∷ []) rest)
            ∙ scan-quoted [] (safe_cell value) rest h)
        | inr bare ↦ rw bare (scan-plain [] (safe_cell value) rest (ground arith))
      ]

more_cells-next :
    (always_quote : Bool) (values : List Text) (rest : Text)
    → next_is is_quote (more_cells always_quote values ++ rest) ≡ false
unfolding more_cells
more_cells-next always_quote [] rest = refl
more_cells-next always_quote (value ∷ values) rest = refl

-- The cells after the first, and the end of the line.
scan-more_cells :
    (rows : List (List Text)) (row : List Text) (cell : Text) (always_quote : Bool)
    (values : List Text) (rest : Text)
    → scan (outside rows row cell) (more_cells always_quote values ++ rest)
      ≡ scan (outside (rows ++ (row ++ cell ∷ map safe_cell values) ∷ []) [] []) rest
unfolding more_cells scan
scan-more_cells rows row cell always_quote [] rest =
    ap (λ t. scan t rest) (step-line rows row cell rest)
scan-more_cells rows row cell always_quote (value ∷ values) rest =
    let escaped = escape_csv_cell always_quote value in
    let more = more_cells always_quote values in
    ap (λ t. scan t ((escaped ++ more) ++ rest)) (step-comma rows row cell _)
    ∙ ap (scan (outside rows (row ++ cell ∷ []) [])) (append_assoc escaped more rest)
    ∙ scan-escape_csv_cell rows (row ++ cell ∷ []) always_quote value (more ++ rest)
        (more_cells-next always_quote values rest)
    ∙ scan-more_cells rows (row ++ cell ∷ []) (safe_cell value) always_quote values rest
    ∙ ap (λ r. scan (outside (rows ++ r ∷ []) [] []) rest)
        (append_assoc row (cell ∷ []) (map safe_cell (value ∷ values)))

-- A row of the table, as it is written.
abbrev pub safe_row : Text × List Text → List Text
safe_row (value, rest) = map safe_cell (value ∷ rest)

scan-csv_lines :
    (rows : List (List Text)) (always_quote : Bool) (table : List (Text × List Text))
    → scan (outside rows [] []) (csv_lines always_quote table)
      ≡ outside (rows ++ map safe_row table) [] []
unfolding csv_lines scan
scan-csv_lines rows always_quote [] = ap (λ r. outside r [] []) (sym (append-nil rows))
scan-csv_lines rows always_quote ((value, values) ∷ table) =
    let rest = csv_lines always_quote table in
    scan-escape_csv_cell rows [] always_quote value (more_cells always_quote values ++ rest)
      (more_cells-next always_quote values rest)
    ∙ scan-more_cells rows [] (safe_cell value) always_quote values rest
    ∙ scan-csv_lines (rows ++ safe_row (value, values) ∷ []) always_quote table
    ∙ ap (λ r. outside r [] [])
        (append_assoc rows (safe_row (value, values) ∷ []) (map safe_row table))

-- Whatever the cells of a table contain (quotes, commas, line ends, any character) and whether or
-- not every cell is quoted, the lines that are written for it are parsed back to its rows, each cell
-- as it was or with the apostrophe that keeps a spreadsheet from reading it as a formula.
pub parse_csv_cells-csv_lines :
    (always_quote : Bool) (table : List (Text × List Text))
    → parse_csv_cells (csv_lines always_quote table) ≡ map safe_row table
unfolding parse_csv_cells finish
parse_csv_cells-csv_lines always_quote table = ap finish (scan-csv_lines [] always_quote table)
