-- ===== src/Binding/Rows.antt =====
-- python/zpq.py: the rows of query, with the exact values of its decimal columns. json.loads is a parameter: a
-- text to the value it stands for, in which `float t` is the float of the number written as t. With parse_float
-- the same text gives the Decimal of t there.
pub mod Lines
pub mod Exactness
use zpq.Common.{ℕ, Bool, true, false, not, ◌&&◌, Option, none, some, List, [], ◌∷◌}
use zpq.Common.Tests.{◌==◌, if◌then◌else◌}
use zpq.Common.Int.{ℤ}
use zpq.Common.Result.{Result, ok, raised, ◌>>=◌, key_error, attribute_error, type_error}
use zpq.Bench.Names.{elem, is_nil}
use Prim.Native.Char.{Char, code}
use Prim.Native.String.{String}
use text.Mathlib.Text.{◌==◌ as str_eq}

mutual
  -- A decimal is Decimal(z) of an int or Decimal(t) of a text.
  pub data Value : Type 0 where
    null : Value
    bool : Bool → Value
    int : ℤ → Value
    float : String → Value
    decimal_of_int : ℤ → Value
    decimal_of_text : String → Value
    string : String → Value
    array : Values → Value
    dict : Columns → Value

  pub data Values : Type 0 where
    no_values : Values
    item : Value → Values → Values

  pub data Columns : Type 0 where
    no_columns : Columns
    column : String → Value → Columns → Columns

unfoldable pub lookup : String → Columns → Option Value
lookup key no_columns = none
lookup key (column k v rest) = if str_eq k key then some v else lookup key rest

-- What json.loads gives with parse_float=Decimal, from what it gives without.
unfoldable mutual
  pub with_decimals : Value → Value
  with_decimals null = null
  with_decimals (bool b) = bool b
  with_decimals (int z) = int z
  with_decimals (float t) = decimal_of_text t
  with_decimals (decimal_of_int z) = decimal_of_int z
  with_decimals (decimal_of_text t) = decimal_of_text t
  with_decimals (string s) = string s
  with_decimals (array vs) = array (all_with_decimals vs)
  with_decimals (dict cs) = dict (columns_with_decimals cs)

  pub all_with_decimals : Values → Values
  all_with_decimals no_values = no_values
  all_with_decimals (item v vs) = item (with_decimals v) (all_with_decimals vs)

  pub columns_with_decimals : Columns → Columns
  columns_with_decimals no_columns = no_columns
  columns_with_decimals (column k v cs) = column k (with_decimals v) (columns_with_decimals cs)

-- _as_decimal
unfoldable mutual
  pub as_decimal : Value → Value
  as_decimal null = null
  as_decimal (bool b) = bool b
  as_decimal (int z) = decimal_of_int z
  as_decimal (float t) = float t
  as_decimal (decimal_of_int z) = decimal_of_int z
  as_decimal (decimal_of_text t) = decimal_of_text t
  as_decimal (string s) = string s
  as_decimal (array vs) = array vs
  as_decimal (dict cs) = dict (state_as_decimal cs)

  -- An avg_state keeps its count.
  pub state_as_decimal : Columns → Columns
  state_as_decimal no_columns = no_columns
  state_as_decimal (column k v cs) =
      let rest = state_as_decimal cs in
      let exact = as_decimal v in column k (if str_eq k "count" then v else exact) rest

-- exact[k]
unfoldable pub exact_at : Option Value → Result Value
unfolding as_decimal
exact_at none = raised key_error
exact_at (some v) = ok (as_decimal v)

-- _exact_columns, of a row
unfoldable pub exact_row : List String → Columns → Columns → Result Columns
unfolding exact_at lookup
exact_row names exact no_columns = ok no_columns
exact_row names exact (column k v cs) = do
  x ← if elem k names then exact_at (lookup k exact) else ok v
  rest ← exact_row names exact cs
  ok (column k x rest)

-- _exact_columns; zip ends with the shorter list.
unfoldable mutual
  pub exact_columns : List String → Value → Value → Result Value
  exact_columns names exact (array ps) = exact_list names exact ps >>= λ vs. ok (array vs)
  exact_columns names (dict es) (dict ps) = exact_row names es ps >>= λ cs. ok (dict cs)
  exact_columns names _ (dict ps) = raised type_error
  exact_columns names exact _ = raised attribute_error

  pub exact_list : List String → Value → Values → Result Values
  exact_list names (array (item e es)) (item p ps) = do
    v ← exact_columns names e p
    vs ← exact_list names (array es) ps
    ok (item v vs)
  exact_list names (array es) ps = ok no_values
  exact_list names _ ps = raised type_error

unfoldable pub attach : Char → List String → List String
attach c [] = String.◌∷◌ c "" ∷ []
attach c (line ∷ lines) = String.◌∷◌ c line ∷ lines

-- text.split("\n")
unfoldable pub split_lines : String → List String
unfolding attach
split_lines String.[] = "" ∷ []
split_lines (String.◌∷◌ c s) =
    let rest = split_lines s in if code c == 10 then "" ∷ rest else attach c rest

-- if lines[-1] == "": lines.pop()
unfoldable pub drop_last_empty : List String → List String
drop_last_empty [] = []
drop_last_empty (line ∷ []) = if str_eq line "" then [] else line ∷ []
drop_last_empty (line ∷ next ∷ lines) = line ∷ drop_last_empty (next ∷ lines)

unfoldable pub lines_of : String → List String
unfolding split_lines drop_last_empty
lines_of s = drop_last_empty (split_lines s)

-- What query reads of a response; without `decimal` no column is named.
pub record Response : Type 0 where
  pub ndjson : String
  pub decimal : List String

module _ (loads : String → Result Value) where
  -- One line: read once, or twice where columns are named.
  unfoldable pub row_of : List String → String → Result Value
  unfolding exact_columns with_decimals
  row_of names line = do
    plain ← loads line
    if is_nil names then ok plain else exact_columns names (with_decimals plain) plain

  unfoldable pub rows_of : List String → List String → Result (List Value)
  unfolding row_of
  rows_of names [] = ok []
  rows_of names (line ∷ lines) = do
    row ← row_of names line
    rows ← rows_of names lines
    ok (row ∷ rows)

  -- query, behind the answer to its request
  unfoldable pub query : Response → (decimal : Bool) → Result (List Value)
  unfolding lines_of rows_of
  query response decimal =
      rows_of (if decimal then response.decimal else []) (lines_of response.ndjson)
