-- ===== src/Csv/Parse.antt =====
-- lib/csv/parse.ts. The loop's `index += 1` inside an iteration is the flag `skip`, under which the
-- next character is passed over.
use signalstack_sms.Prelude.{
  ℕ, Bool, true, false, not, ◌&&◌, ◌||◌, List, [], ◌∷◌, ◌++◌, ◌==◌, if◌then◌else◌,
}
use signalstack_sms.Text.{Text}

pub record Scan : Type 0 where
  pub rows : List (List Text)
  pub row : List Text
  pub cell : Text
  pub in_quotes : Bool
  pub skip : Bool

abbrev pub is_quote : ℕ → Bool
is_quote c = c == 34

abbrev pub is_line_feed : ℕ → Bool
is_line_feed c = c == 10

abbrev pub is_return : ℕ → Bool
is_return c = c == 13

abbrev pub next_is : (ℕ → Bool) → Text → Bool
next_is p [] = false
next_is p (c ∷ s) = p c

-- One iteration, at the character `c` with the characters `s` after it.
unfoldable pub step : Scan → ℕ → Text → Scan
step t c s =
    if t.skip
    then record t { skip = false }
    else if is_quote c && t.in_quotes && next_is is_quote s
    then record t { cell = t.cell ++ c ∷ []; skip = true }
    else if is_quote c
    then record t { in_quotes = not t.in_quotes }
    else if c == b',' && not t.in_quotes
    then record t { row = t.row ++ t.cell ∷ []; cell = [] }
    else if (is_line_feed c || is_return c) && not t.in_quotes
    then record t {
      rows = t.rows ++ (t.row ++ t.cell ∷ []) ∷ [];
      row = [];
      cell = [];
      skip = is_return c && next_is is_line_feed s;
    }
    else record t { cell = t.cell ++ c ∷ [] }

unfoldable pub scan : Scan → Text → Scan
scan t [] = t
scan t (c ∷ s) = scan (step t c s) s

abbrev is_empty {ℓ} : {A : Type ℓ} → List A → Bool
is_empty [] = true
is_empty (a ∷ s) = false

-- The last row, when the text does not end with a line.
unfoldable pub finish : Scan → List (List Text)
finish t =
    if is_empty t.cell && is_empty t.row then t.rows else t.rows ++ (t.row ++ t.cell ∷ []) ∷ []

unfoldable pub parse_csv_cells : Text → List (List Text)
parse_csv_cells input =
    finish (scan (record { rows = []; row = []; cell = []; in_quotes = false; skip = false }) input)
