-- ===== src/Binding/Rows/Exactness.antt =====
-- The named columns of a row are exact, and the others as they were.
use zpq.Common.{
  ◌≡◌, refl, sym, ap, ◌∙◌, Bool, true, false, Option, none, some, List, [], ◌∷◌, map, inl, inr,
}
use zpq.Common.Tests.{if◌then◌else◌, Bool-cases}
use zpq.Common.Lists.{All, All-of-Mem, All-weaken}
use zpq.Common.Result.{Result, ok}
use zpq.Bench.Names.{elem, is_nil}
use zpq.Binding.Rows.{
  Value, null, bool, int, float, decimal_of_int, decimal_of_text, string, array, dict, Values,
  no_values, item, Columns, no_columns, column, lookup, with_decimals, all_with_decimals,
  columns_with_decimals, as_decimal, state_as_decimal, exact_at, exact_row, exact_columns, row_of,
  rows_of, query,
}
use zpq.Binding.Rows.Lines.{is_line, written, lines_of-written}
use Prim.Native.String.{String}
use text.Mathlib.Text.{◌==◌ as str_eq}
use text.Mathlib.TextEquality.{eq_iff}

-- No float stands anywhere in a value.
unfoldable mutual
  pub NoFloat : Value → Type 0
  NoFloat null = Unit
  NoFloat (bool b) = Unit
  NoFloat (int z) = Unit
  NoFloat (float t) = ⊥
  NoFloat (decimal_of_int z) = Unit
  NoFloat (decimal_of_text t) = Unit
  NoFloat (string s) = Unit
  NoFloat (array vs) = NoFloats vs
  NoFloat (dict cs) = NoFloatColumns cs

  NoFloats : Values → Type 0
  NoFloats no_values = Unit
  NoFloats (item v vs) = NoFloat v × NoFloats vs

  NoFloatColumns : Columns → Type 0
  NoFloatColumns no_columns = Unit
  NoFloatColumns (column k v cs) = NoFloat v × NoFloatColumns cs

mutual
  unfolding NoFloat with_decimals

  with_decimals-NoFloat : (v : Value) → NoFloat (with_decimals v)
  with_decimals-NoFloat null = tt
  with_decimals-NoFloat (bool b) = tt
  with_decimals-NoFloat (int z) = tt
  with_decimals-NoFloat (float t) = tt
  with_decimals-NoFloat (decimal_of_int z) = tt
  with_decimals-NoFloat (decimal_of_text t) = tt
  with_decimals-NoFloat (string s) = tt
  with_decimals-NoFloat (array vs) = all_with_decimals-NoFloats vs
  with_decimals-NoFloat (dict cs) = columns_with_decimals-NoFloatColumns cs

  all_with_decimals-NoFloats : (vs : Values) → NoFloats (all_with_decimals vs)
  all_with_decimals-NoFloats no_values = tt
  all_with_decimals-NoFloats (item v vs) = (with_decimals-NoFloat v, all_with_decimals-NoFloats vs)

  columns_with_decimals-NoFloatColumns : (cs : Columns) → NoFloatColumns (columns_with_decimals cs)
  columns_with_decimals-NoFloatColumns no_columns = tt
  columns_with_decimals-NoFloatColumns (column k v cs) =
      (with_decimals-NoFloat v, columns_with_decimals-NoFloatColumns cs)

mutual
  unfolding NoFloat as_decimal

  as_decimal-NoFloat : (v : Value) → NoFloat v → NoFloat (as_decimal v)
  as_decimal-NoFloat null h = tt
  as_decimal-NoFloat (bool b) h = tt
  as_decimal-NoFloat (int z) h = tt
  as_decimal-NoFloat (float t) h = h
  as_decimal-NoFloat (decimal_of_int z) h = tt
  as_decimal-NoFloat (decimal_of_text t) h = tt
  as_decimal-NoFloat (string s) h = tt
  as_decimal-NoFloat (array vs) h = h
  as_decimal-NoFloat (dict cs) h = state_as_decimal-NoFloatColumns cs h

  state_as_decimal-NoFloatColumns :
      (cs : Columns) → NoFloatColumns cs → NoFloatColumns (state_as_decimal cs)
  state_as_decimal-NoFloatColumns no_columns h = tt
  state_as_decimal-NoFloatColumns (column k v cs) (h, hs) = elim (Bool-cases (str_eq k "count")) [
    | inl counts ↦ rw counts (h, state_as_decimal-NoFloatColumns cs hs)
    | inr other ↦ rw other (as_decimal-NoFloat v h, state_as_decimal-NoFloatColumns cs hs)
  ]

lookup-columns_with_decimals :
    (key : String) (cs : Columns) {v : Value}
    → lookup key cs ≡ some v
    → lookup key (columns_with_decimals cs) ≡ some (with_decimals v)
unfolding lookup columns_with_decimals
lookup-columns_with_decimals key no_columns h = cc
lookup-columns_with_decimals key (column k v cs) h = elim (Bool-cases (str_eq k key)) [
  | inl same ↦ rw same (ap some (ap with_decimals (some_injective (rw same at h))))
  | inr other ↦ rw other (lookup-columns_with_decimals key cs (rw other at h))
]
  where
    some_injective : {a b : Value} → some a ≡ some b → a ≡ b
    some_injective e = cc

-- What a column's value becomes.
abbrev pub shown : List String → String → Value → Value
shown names key v = if elem key names then as_decimal (with_decimals v) else v

-- What a row holds under a key, by what it held when it was read plainly.
abbrev pub Shows : List String → Columns → Columns → Type 0
Shows names plain row =
    (key : String)
    → lookup key row ≡ elim (lookup key plain) [ none ↦ none | some v ↦ some (shown names key v) ]

-- Each key of a row has a value in another reading of it.
unfoldable KeysIn : Columns → Columns → Type 0
KeysIn es no_columns = Unit
KeysIn es (column k v cs) = ((x : Value) × (lookup k es ≡ some x)) × KeysIn es cs

KeysIn-more : (k : String) (x : Value) (es cs : Columns) → KeysIn es cs → KeysIn (column k x es) cs
unfolding KeysIn lookup
KeysIn-more k x es no_columns h = tt
KeysIn-more k x es (column l v cs) ((y, is_y), hs) = elim (Bool-cases (str_eq k l)) [
  | inl same ↦ ((x, rw same refl), KeysIn-more k x es cs hs)
  | inr other ↦ ((y, rw other is_y), KeysIn-more k x es cs hs)
]

KeysIn-with_decimals : (cs : Columns) → KeysIn (columns_with_decimals cs) cs
unfolding KeysIn lookup columns_with_decimals
KeysIn-with_decimals no_columns = tt
KeysIn-with_decimals (column k v cs) = (
  (with_decimals v, rw ((eq_iff k k).1 refl) refl),
  KeysIn-more k (with_decimals v) (columns_with_decimals cs) cs (KeysIn-with_decimals cs),
)

-- The value under a key of a row, by the two readings.
abbrev by_readings : List String → String → Option Value → Option Value → Option Value
by_readings names key none exact = none
by_readings names key (some v) exact =
    if elem key names then (elim exact [ none ↦ none | some x ↦ some (as_decimal x) ]) else some v

exact_row-gives :
    (names : List String) (es cs : Columns)
    → KeysIn es cs
    → (row : Columns) × (exact_row names es cs ≡ ok row)
      × ((key : String) → lookup key row ≡ by_readings names key (lookup key cs) (lookup key es))
unfolding exact_row exact_at lookup KeysIn
exact_row-gives names es no_columns h = (no_columns, refl, λ key. refl)
exact_row-gives names es (column k v cs) ((x, is_x), hs) =
    let (row, made, looks) = exact_row-gives names es cs hs in
    elim (Bool-cases (elem k names)) [
      | inl named ↦ (
        column k (as_decimal x) row,
        (rw (named, is_x, made) refl),
        λ key. elim (Bool-cases (str_eq k key)) [
          | inl same ↦
              let e = (eq_iff k key).0 same in
              (rw
                (same, ap (λ k. elem k names) (sym e) ∙ named, ap (λ k. lookup k es) (sym e) ∙ is_x)
                refl)
          | inr other ↦ (rw other (looks key))
        ],
      )
      | inr plain ↦ (
        column k v row,
        (rw (plain, made) refl),
        λ key. elim (Bool-cases (str_eq k key)) [
          | inl same ↦
              (rw (same, ap (λ k. elem k names) (sym ((eq_iff k key).0 same)) ∙ plain) refl)
          | inr other ↦ (rw other (looks key))
        ],
      )
    ]

exact_row-Shows :
    (names : List String) (cs : Columns)
    → (row : Columns) × (exact_row names (columns_with_decimals cs) cs ≡ ok row)
      × Shows names cs row
exact_row-Shows names cs =
    let (row, made, looks) =
      exact_row-gives names (columns_with_decimals cs) cs (KeysIn-with_decimals cs) in
    (row, made, λ key. looks key ∙ go key (lookup key cs) refl)
  where
    go :
        (key : String) (o : Option Value)
        → lookup key cs ≡ o
        → by_readings names key o (lookup key (columns_with_decimals cs))
          ≡ elim o [ none ↦ none | some v ↦ some (shown names key v) ]
    go key none h = refl
    go key (some v) h = rw (lookup-columns_with_decimals key cs h) (chosen (elem key names))
      where
        chosen :
            (b : Bool)
            → (if b then some (as_decimal (with_decimals v)) else some v)
              ≡ some (if b then as_decimal (with_decimals v) else v)
        chosen true = refl
        chosen false = refl

module _ (loads : String → Result Value) (names : List String) (columns : String → Columns) where
  -- A row that is a line and reads as its columns.
  abbrev pub IsRow : String → Type 0
  IsRow row = (is_line row ≡ true) × (loads row ≡ ok (dict (columns row)))

  -- What query makes of a row.
  abbrev read : String → Columns
  read row = (exact_row-Shows names (columns row)).0

  row_of-read :
      is_nil names ≡ false
      → (row : String) → IsRow row
      → row_of loads names row ≡ ok (dict (read row))
  unfolding row_of exact_columns with_decimals
  row_of-read some_names row (_, reads) =
      rw (reads, some_names, (exact_row-Shows names (columns row)).1) refl

  rows_of-read :
      is_nil names ≡ false
      → (rows : List String) → All IsRow rows
      → rows_of loads names rows ≡ ok (map (λ row. dict (read row)) rows)
  unfolding rows_of
  rows_of-read some_names [] h = refl
  rows_of-read some_names (row ∷ rows) (h, hs) =
      rw (row_of-read some_names row h, rows_of-read some_names rows hs) refl

  -- Of rows written one to a line, each a JSON object, with some columns named as decimal: query gives one dict for
  -- each, in their order; under each key it has the plainly read value where the key is not named, and the exact
  -- reading of it as a decimal where it is, in which no float stands.
  pub query-exact :
      (rows : List String)
      → is_nil names ≡ false
      → All IsRow rows
      → (result : String → Columns) × (query loads
            (record { ndjson = written rows; decimal = names })
            true
          ≡ ok (map (λ row. dict (result row)) rows))
        × All (λ row. Shows names (columns row) (result row)) rows
        × ((v : Value) → NoFloat (as_decimal (with_decimals v)))
  unfolding query
  query-exact rows some_names h = (
    read,
    ap (rows_of loads names) (lines_of-written rows (All-weaken rows (λ row p. p.0) h))
        ∙ rows_of-read some_names rows h,
    All-of-Mem rows (λ row m. (exact_row-Shows names (columns row)).2),
    λ v. as_decimal-NoFloat (with_decimals v) (with_decimals-NoFloat v),
  )
