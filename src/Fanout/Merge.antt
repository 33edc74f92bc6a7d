-- ===== src/Fanout/Merge.antt =====
-- tools/serverless/fanout.py: add, fold, finish and merge, over partial answers from the workers.
pub mod Laws
pub mod Stages
pub mod Groups
use zpq.Common.{
  ℕ, zero, suc, ◌+◌, ◌≡◌, Bool, true, false, ◌||◌, ◌&&◌, Option, none, some, List, [], ◌∷◌, ◌++◌,
  map,
}
use zpq.Common.Tests.{if◌then◌else◌, ◌==◌}
use zpq.Common.Result.{Result, ok, raised, type_error, key_error, ◌>>=◌}
use Prim.Native.String.{String}
use mathlib.Core.List.{flatten}
use text.Mathlib.Text.{◌==◌ as str_eq}

-- What the merge uses of Python's numbers and strings as they come out of JSON: integers, Decimals,
-- floats and text in one type, `+`, `<` and the float quotient on it, and `json.dumps` of a value or null.
pub record Scalars : Type 1 where
  pub Scalar : Type 0
  pub is_float : Scalar → Bool
  pub is_zero : Scalar → Bool
  pub to_float : Scalar → Scalar
  pub plus : Scalar → Scalar → Scalar
  pub lt : Scalar → Scalar → Bool
  pub dump : Option Scalar → String
  pub mean : Scalar → ℕ → Scalar

-- MERGEABLE
pub data Function : Type 0 where
  count sum min_of max_of avg : Function

-- A member of an answer or an accumulator: a value or null, or AVG's {"sum", "count"}. A key that is
-- not there reads as null.
pub data Cell (S : Type 0) : Type 0 where
  plain : Option S → Cell S
  state : Option S → ℕ → Cell S

-- The group keys of a row, and its aggregates.
pub record Row (S : Type 0) : Type 0 where
  pub group : List (Option S)
  pub cells : List (Cell S)

-- An entry of `groups`: the key, the group's values and the accumulator.
pub record Entry (S : Type 0) : Type 0 where
  pub key : List String
  pub values : List (Option S)
  pub acc : List (Cell S)

abbrev pub head_cell : {S : Type 0} → List (Cell S) → Cell S
head_cell [] = plain none
head_cell (c ∷ cs) = c

abbrev pub tail_cells : {S : Type 0} → List (Cell S) → List (Cell S)
tail_cells [] = []
tail_cells (c ∷ cs) = cs

abbrev pub keys_eq : List String → List String → Bool
keys_eq [] [] = true
keys_eq [] (k ∷ ks) = false
keys_eq (j ∷ js) [] = false
keys_eq (j ∷ js) (k ∷ ks) = str_eq j k && keys_eq js ks

-- row[name] = v: a name that is there keeps its place.
unfoldable pub set_name :
    {S : Type 0} → String → Cell S → List (String × Cell S) → List (String × Cell S)
set_name name v [] = (name, v) ∷ []
set_name name v ((other, w) ∷ row) =
    if str_eq other name then (name, v) ∷ row else (other, w) ∷ set_name name v row

-- The members of a request's plan: an aggregate's function and output name.
pub record Aggregate : Type 0 where
  pub function : Function
  pub name : String

abbrev pub functions : List Aggregate → List Function
functions = map λ a. a.function

module _ (scalars : Scalars) where
  open scalars use {Scalar, is_float, is_zero, to_float, plus, lt, dump, mean}

  -- add
  unfoldable pub add : Option Scalar → Option Scalar → Option Scalar
  add none b = b
  add (some a) none = some a
  add (some a) (some b) =
      if is_float a || is_float b then some (plus (to_float a) (to_float b)) else some (plus a b)

  -- acc.get(k) or {"sum": None, "count": 0}: a zero is false, and any other plain value has no "sum".
  unfoldable pub state_or_new : Cell Scalar → Result (Option Scalar × ℕ)
  state_or_new (plain none) = ok (none, 0)
  state_or_new (plain (some v)) = if is_zero v then ok (none, 0) else raised type_error
  state_or_new (state s n) = ok (s, n)

  -- add(acc.get(k), v), where a part of the wrong shape may be AVG's object.
  unfoldable pub add_cell : Cell Scalar → Cell Scalar → Result (Cell Scalar)
  unfolding add
  add_cell (plain a) (plain b) = ok (plain (add a b))
  add_cell (plain none) (state s n) = ok (state s n)
  add_cell (state s n) (plain none) = ok (state s n)
  add_cell _ _ = raised type_error

  -- The branches of MIN and MAX; `better v have` is the test by which `v` replaces `have`.
  unfoldable pub pick_cell :
      (Scalar → Scalar → Bool) → Cell Scalar → Cell Scalar → Result (Cell Scalar)
  pick_cell better acc (plain none) = ok acc
  pick_cell better (plain none) part = ok part
  pick_cell better (plain (some have)) (plain (some v)) =
      ok (plain (some (if better v have then v else have)))
  pick_cell better _ _ = raised type_error

  -- One aggregate in the body of `fold`; a part of the wrong shape is a TypeError.
  unfoldable pub fold_cell : Function → Cell Scalar → Cell Scalar → Result (Cell Scalar)
  unfolding add state_or_new add_cell pick_cell
  fold_cell avg acc (state s n) = do (have, m) ← state_or_new acc; ok (state (add have s) (m + n))
  fold_cell avg acc (plain v) = raised type_error
  fold_cell count acc part = add_cell acc part
  fold_cell sum acc part = add_cell acc part
  fold_cell min_of acc part = pick_cell lt acc part
  fold_cell max_of acc part = pick_cell (λ v have. lt have v) acc part

  -- fold: `acc` and `part` by the positions of the aggregates.
  unfoldable pub fold :
      List Function → List (Cell Scalar) → List (Cell Scalar) → Result (List (Cell Scalar))
  fold [] acc part = ok []
  fold (fn ∷ fns) acc part = do
    c ← fold_cell fn (head_cell acc) (head_cell part)
    cs ← fold fns (tail_cells acc) (tail_cells part)
    ok (c ∷ cs)

  -- The loop of `merge` without groups.
  unfoldable pub fold_all :
      List Function → List (Cell Scalar) → List (List (Cell Scalar)) → Result (List (Cell Scalar))
  fold_all fns acc [] = ok acc
  fold_all fns acc (a ∷ answers) = do acc' ← fold fns acc a; fold_all fns acc' answers

  -- groups.setdefault(key, …), and the row folded into it
  unfoldable pub fold_row :
      List Function → List String → Row Scalar → List (Entry Scalar) → Result (List (Entry Scalar))
  fold_row fns key row [] = do
    acc ← fold fns [] row.cells
    ok (record { key = key; values = row.group; acc = acc } ∷ [])
  fold_row fns key row (e ∷ groups) = elim (keys_eq e.key key) [
    | true ↦ do acc ← fold fns e.acc row.cells; ok (record e { acc = acc } ∷ groups)
    | false ↦ do rest ← fold_row fns key row groups; ok (e ∷ rest)
  ]

  -- tuple(json.dumps(row[…]) for …)
  unfoldable pub key_of : Row Scalar → List String
  key_of row = map dump row.group

  -- The loops of `merge` with groups, over the rows of all answers.
  unfoldable pub fold_rows :
      List Function → List (Entry Scalar) → List (Row Scalar) → Result (List (Entry Scalar))
  fold_rows fns groups [] = ok groups
  fold_rows fns groups (r ∷ rows) = do
    groups' ← fold_row fns (key_of r) r groups
    fold_rows fns groups' rows

  -- The answer's value of an aggregate: AVG's object is divided, and nothing else changes.
  unfoldable pub finish_cell : Function → Cell Scalar → Result (Cell Scalar)
  finish_cell avg (plain none) = ok (plain none)
  finish_cell avg (plain (some v)) = if is_zero v then ok (plain none) else raised type_error
  finish_cell avg (state none n) = ok (plain none)
  finish_cell avg (state (some s) n) = ok (plain (if n == 0 then none else some (mean s n)))
  finish_cell _ c = ok c

  -- row = {name: acc[…] for …}
  unfoldable pub name_groups :
      List String
      → List (Option Scalar)
      → List (String × Cell Scalar)
      → Result (List (String × Cell Scalar))
  unfolding set_name
  name_groups [] values row = ok row
  name_groups (name ∷ names) [] row = raised key_error
  name_groups (name ∷ names) (v ∷ values) row =
      name_groups names values (set_name name (plain v) row)

  unfoldable pub name_cells :
      List Aggregate
      → List (Cell Scalar)
      → List (String × Cell Scalar)
      → Result (List (String × Cell Scalar))
  unfolding set_name finish_cell
  name_cells [] acc row = ok row
  name_cells (a ∷ aggs) acc row = do
    v ← finish_cell a.function (head_cell acc)
    name_cells aggs (tail_cells acc) (set_name a.name v row)

  -- finish
  unfoldable pub finish :
      List (Option Scalar)
      → List (Cell Scalar)
      → List Aggregate
      → List String
      → Result (List (String × Cell Scalar))
  unfolding name_groups name_cells
  finish values acc aggs group = do row ← name_groups group values []; name_cells aggs acc row

  unfoldable pub finish_all :
      List Aggregate
      → List String
      → List (Entry Scalar)
      → Result (List (List (String × Cell Scalar)))
  unfolding finish
  finish_all aggs group [] = ok []
  finish_all aggs group (e ∷ groups) = do
    row ← finish e.values e.acc aggs group
    rows ← finish_all aggs group groups
    ok (row ∷ rows)

  -- merge without groups: one object an answer.
  unfoldable pub merge_total :
      List (List (Cell Scalar)) → List Aggregate → Result (List (String × Cell Scalar))
  unfolding fold_all finish
  merge_total answers aggs = do acc ← fold_all (functions aggs) [] answers; finish [] acc aggs []

  -- merge with groups: an array of group rows an answer.
  unfoldable pub merge_groups :
      List (List (Row Scalar))
      → List Aggregate
      → List String
      → Result (List (List (String × Cell Scalar)))
  unfolding fold_rows finish_all
  merge_groups answers aggs group = do
    groups ← fold_rows (functions aggs) [] (flatten answers)
    finish_all aggs group groups
