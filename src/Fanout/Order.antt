-- ===== src/Fanout/Order.antt =====
-- tools/serverless/fanout.py, order: ORDER BY over the merged rows, nulls last, then LIMIT.
pub mod Laws
use zpq.Common.{ℕ, Bool, true, false, not, ◌&&◌, Option, none, some, List, [], ◌∷◌, ◌++◌, map}
use zpq.Common.Tests.{if◌then◌else◌}
use zpq.Common.Slices.{slice_to}
use zpq.Common.Int.{ℤ}
use zpq.Common.Result.{Result, ok, raised, type_error, key_error, refused, ◌>>=◌, ◌>>◌, guard}
use zpq.Fanout.Merge.{Scalars, Cell, plain, state}
use Prim.Native.String.{String}
use text.Mathlib.Text.{◌==◌ as str_eq}

-- An output row: names with values.
abbrev pub OutRow : Type 0 → Type 0
OutRow S = List (String × Cell S)

-- row[name]
abbrev pub at_name : {S : Type 0} → String → OutRow S → Option (Cell S)
at_name name [] = none
at_name name ((n, v) ∷ row) = if str_eq n name then some v else at_name name row

-- One item of the ORDER BY list: a name, and whether it is DESC.
pub record Item : Type 0 where
  pub name : String
  pub desc : Bool

module _ (scalars : Scalars) where
  open scalars use {Scalar, lt}

  -- The value that a row is sorted by: null, or a number or text. An object has no order.
  unfoldable pub sort_value : String → OutRow Scalar → Result (Option Scalar)
  sort_value name row = elim (at_name name row) [
    | none ↦ raised key_error
    | some c ↦ elim c [ plain v ↦ ok v | state s n ↦ raised type_error ]
  ]

  -- A row with its sort value.
  abbrev pub Keyed : Type 0
  Keyed = Scalar × OutRow Scalar

  -- The rows with a value under the name, and those without.
  unfoldable pub partition :
      String → List (OutRow Scalar) → Result (List Keyed × List (OutRow Scalar))
  unfolding sort_value
  partition name [] = ok ([], [])
  partition name (row ∷ rows) = do
    v ← sort_value name row
    (present, nulls) ← partition name rows
    ok (elim v [ none ↦ (present, row ∷ nulls) | some x ↦ ((x, row) ∷ present, nulls) ])

  -- Whether the first of two must give way to the second.
  unfoldable pub gives_way : Bool → Keyed → Keyed → Bool
  gives_way desc (x, _) (y, _) = if desc then lt x y else lt y x

  -- sorted(..., key=..., reverse=desc): stable either way.
  unfoldable pub insert_row : Bool → Keyed → List Keyed → List Keyed
  unfolding gives_way
  insert_row desc r [] = r ∷ []
  insert_row desc r (s ∷ rows) =
      if gives_way desc r s then s ∷ insert_row desc r rows else r ∷ s ∷ rows

  unfoldable pub sort_rows : Bool → List Keyed → List Keyed
  unfolding insert_row
  sort_rows desc [] = []
  sort_rows desc (r ∷ rows) = insert_row desc r (sort_rows desc rows)

  abbrev pub rows_of_keyed : List Keyed → List (OutRow Scalar)
  rows_of_keyed = map λ r. r.1

  -- "name not in rows[0]"
  unfoldable pub has_name : String → List (OutRow Scalar) → Bool
  has_name name [] = true
  has_name name (row ∷ rows) = elim (at_name name row) [ none ↦ false | some c ↦ true ]

  -- One round of the loop over the items.
  unfoldable pub order_by_one : Item → List (OutRow Scalar) → Result (List (OutRow Scalar))
  unfolding partition sort_rows has_name
  order_by_one item rows = do
    guard (has_name item.name rows) refused
    (present, nulls) ← partition item.name rows
    ok (rows_of_keyed (sort_rows item.desc present) ++ nulls)

  -- The loop takes the items from the last to the first.
  unfoldable pub order_by : List Item → List (OutRow Scalar) → Result (List (OutRow Scalar))
  unfolding order_by_one
  order_by [] rows = ok rows
  order_by (item ∷ items) rows = do later ← order_by items rows; order_by_one item later

  -- order, from the items of the ORDER BY text
  unfoldable pub order : List Item → Option ℤ → List (OutRow Scalar) → Result (List (OutRow Scalar))
  unfolding order_by
  order items limit rows = do
    sorted ← order_by items rows
    ok (elim limit [ none ↦ sorted | some n ↦ slice_to n sorted ])
