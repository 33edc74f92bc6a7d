-- ===== src/Checks/Rows.antt =====
-- python/zpq.py: a library that is found in its third place, and a response of two rows with a decimal column, one of them with an integer there.
use zpq.Common.{false, inr, some, none, ◌≡◌, refl, true, List, [], ◌∷◌, map}
use zpq.Common.Tests.{if◌then◌else◌}
use zpq.Common.Lists.{All}
use zpq.Common.Int.{pos}
use zpq.Common.Result.{Result, ok}
use zpq.Binding.Rows.{
  Value, int, float, decimal_of_int, decimal_of_text, dict, Columns, no_columns, column,
  with_decimals, as_decimal, exact_row, query,
}
use zpq.Binding.Calls.{Candidate, candidates, load_library}
use zpq.Binding.Rows.Lines.{is_line, written}
use zpq.Binding.Rows.Exactness.{NoFloat, Shows, IsRow, query-exact}
use Prim.Native.String.{String}
use text.Mathlib.Text.{◌==◌ as str_eq}

abbrev one_text : String
one_text = "{p: 1.10, x: 0.5}"

abbrev two_text : String
two_text = "{p: 2, x: 1}"

-- The columns p and x of the two texts, as json.loads reads them.
abbrev columns_of : String → Columns
columns_of s =
    if str_eq s "{p: 1.10, x: 0.5}"
    then column "p" (float "1.10") (column "x" (float "0.5") no_columns)
    else column "p" (int (pos 2)) (column "x" (int (pos 1)) no_columns)

abbrev loads : String → Result Value
loads s = ok (dict (columns_of s))

abbrev two_rows : List String
two_rows = one_text ∷ two_text ∷ []

-- What a caller is given: p exactly, x as it was.
query-run :
    query loads (record { ndjson = written two_rows; decimal = "p" ∷ [] }) true
    ≡ ok (
        dict (column "p" (decimal_of_text "1.10") (column "x" (float "0.5") no_columns))
        ∷ dict (column "p" (decimal_of_int (pos 2)) (column "x" (int (pos 1)) no_columns))
        ∷ [])
unfolding query written exact_row
query-run = refl

two_rows-read : All (IsRow loads ("p" ∷ []) columns_of) two_rows
unfolding is_line
two_rows-read = ((refl, refl), ((refl, refl), tt))

query-exact_example :
    (result : String → Columns) × (query loads
        (record { ndjson = written two_rows; decimal = "p" ∷ [] })
        true
      ≡ ok (map (λ row. dict (result row)) two_rows))
    × All (λ row. Shows ("p" ∷ []) (columns_of row) (result row)) two_rows
    × ((v : Value) → NoFloat (as_decimal (with_decimals v)))
query-exact_example = query-exact loads ("p" ∷ []) columns_of two_rows refl two_rows-read

abbrev a_library : Candidate
a_library = record { is_bare = true; exists = false; loads = true; abi = 1 }

abbrev three_places : List Candidate
three_places =
    record { is_bare = false; exists = false; loads = true; abi = 1 }
    ∷ record { is_bare = false; exists = true; loads = false; abi = 1 }
    ∷ a_library
    ∷ []

three_places-load :
    load_library none (candidates none none three_places) ≡ (inr a_library, some a_library)
unfolding load_library candidates
three_places-load = refl
