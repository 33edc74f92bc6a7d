-- ===== src/Fanout/Plan.antt =====
-- tools/serverless/fanout.py: what the coordinator sends and is answered, and what `run` computes between
-- two requests.
use zpq.Common.{ℕ, Bool, true, false, not, ◌&&◌, ◌||◌, Option, none, some, List, [], ◌∷◌, map}
use zpq.Common.Tests.{◌==◌, if◌then◌else◌}
use zpq.Common.Lists.{get_elem?}
use zpq.Common.Int.{ℤ, pos, eqb_ℤ}
use zpq.Common.Result.{
  Result, Exn, ok, raised, refused, key_error, index_error, type_error, attribute_error, ◌>>=◌,
}
use zpq.Fanout.Split.{Piece}
use zpq.Fanout.Merge.{Function, count, sum, min_of, max_of, avg, Cell, Row, Aggregate}
use zpq.Fanout.Order.{OutRow}
use Prim.Native.String.{String}
use text.Mathlib.Text.{◌==◌ as str_eq}
use Prim.Native.Char.{code}

-- PLAN_VERSION
abbrev pub plan_version : ℤ
plan_version = pos 1

-- A JSON value where a version is expected: `== 1` also holds of true and of 1.0.
pub data Loose : Type 0 where
  int : ℤ → Loose
  bool : Bool → Loose
  float : (is_one : Bool) → Loose
  other : Loose

-- type(v) is int and v == PLAN_VERSION
unfoldable pub is_version : Loose → Bool
is_version (int z) = eqb_ℤ z plan_version
is_version _ = false

-- v == PLAN_VERSION
unfoldable pub equals_version : Loose → Bool
equals_version (int z) = eqb_ℤ z plan_version
equals_version (bool b) = b
equals_version (float is_one) = is_one
equals_version other = false

-- any(…)
unfoldable pub any_version : List Loose → Bool
unfolding is_version
any_version [] = false
any_version (v ∷ vs) = is_version v || any_version vs

-- The "agg" member: an object, or an array of group rows.
pub data Agg (S : Type 0) : Type 0 where
  object : List (Cell S) → Agg S
  rows : List (Row S) → Agg S

-- What the coordinator reads of a worker's response, when it is a dict; a missing member is `none`, and
-- `versions` is `none` too where it is no list. `P` is the type of prepared plans.
pub record Reply (P S : Type 0) : Type 0 where
  pub prepare_aggregate_version : Option Loose
  pub structured_plan_versions : Option (List Loose)
  pub version : Option Loose
  pub plan : Option P
  pub aggregates : Option (List (String × String))
  pub groups : Option (List String)
  pub inputs : Option (List String)
  pub row_group_counts : Option (List ℕ)
  pub agg : Option (Agg S)

-- A request to a worker.
pub data Payload (P : Type 0) : Type 0 where
  capabilities : Payload P
  prepare_aggregate : (inputs : Option (List String)) → Payload P
  partial : P → List String → (row_groups : Option (List (ℕ × ℕ))) → Payload P

-- The request: what `run` tests of it, and its inputs.
pub record Request : Type 0 where
  pub sql : Bool
  pub row_groups : Bool
  pub has_aggregate : Bool
  pub inputs : List String

-- The process: what was sent, and whether this worker's capability key is in CAPABILITIES.
pub record Process (P : Type 0) : Type 0 where
  pub sent : List (Payload P)
  pub known : Bool

-- `function` of an aggregate, if it is in MERGEABLE
unfoldable pub mergeable : String → Option Function
mergeable name =
    if str_eq name "count"
    then some count
    else if str_eq name "sum"
    then some sum
    else if str_eq name "min"
    then some min_of
    else if str_eq name "max"
    then some max_of
    else if str_eq name "avg"
    then some avg
    else none

-- A value that must be there.
abbrev pub found {ℓ} : {A : Type ℓ} → Exn → Option A → Result A
found e none = raised e
found e (some a) = ok a

abbrev pub member {ℓ} : {A : Type ℓ} → Option A → Result A
member = found key_error

unfoldable pub aggregates_of : List (String × String) → Result (List Aggregate)
unfolding mergeable
aggregates_of [] = ok []
aggregates_of ((function, name) ∷ members) = do
  f ← found refused (mergeable function)
  aggs ← aggregates_of members
  ok (record { function = f; name = name } ∷ aggs)

-- [inputs[i] for i, _, _ in r] and [[s, e] for _, s, e in r]
unfoldable pub inputs_of : List String → List Piece → Result (List String)
inputs_of inputs [] = ok []
inputs_of inputs ((i, s, e) ∷ run) = do
  u ← found index_error (get_elem? inputs i)
  us ← inputs_of inputs run
  ok (u ∷ us)

abbrev pub ranges_of : List Piece → List (ℕ × ℕ)
ranges_of = map λ p. (p.1, p.2)

unfoldable pub payloads_of :
    {P : Type 0} → P → List String → List (List Piece) → Result (List (Payload P))
unfolding inputs_of
payloads_of plan inputs [] = ok []
payloads_of plan inputs (run ∷ runs) = do
  us ← inputs_of inputs run
  ps ← payloads_of plan inputs runs
  ok (partial plan us (some (ranges_of run)) ∷ ps)

-- No row group anywhere: one worker answers the empty table.
unfoldable pub or_base : {P : Type 0} → P → List String → List (Payload P) → List (Payload P)
or_base plan inputs [] = partial plan inputs none ∷ []
or_base plan inputs (p ∷ ps) = p ∷ ps

-- The merged answer: one row, or the ordered group rows.
pub data Answer (S : Type 0) : Type 0 where
  one_row : OutRow S → Answer S
  group_rows : List (OutRow S) → Answer S

-- "*" in u
unfoldable pub has_star : String → Bool
has_star String.[] = false
has_star (String.◌∷◌ c u) = code c == 42 || has_star u

unfoldable pub any_star : List String → Bool
unfolding has_star
any_star [] = false
any_star (u ∷ us) = has_star u || any_star us

unfoldable pub same_texts : List String → List String → Bool
same_texts [] [] = true
same_texts (s ∷ ss) (t ∷ ts) = str_eq s t && same_texts ss ts
same_texts _ _ = false

unfoldable pub same_aggregates : List (String × String) → List (String × String) → Bool
same_aggregates [] [] = true
same_aggregates ((f, n) ∷ as1) ((g, m) ∷ as2) = str_eq f g && str_eq n m && same_aggregates as1 as2
same_aggregates _ _ = false

abbrev pub same_member : {A : Type 0} → (A → A → Bool) → Option A → Option A → Bool
same_member eq none none = true
same_member eq (some a) (some b) = eq a b
same_member eq _ _ = false

-- The members of `answers` for a query without groups: an object each.
unfoldable pub objects_of : {S : Type 0} → List (Agg S) → Result (List (List (Cell S)))
objects_of [] = ok []
objects_of (object cells ∷ answers) = do rest ← objects_of answers; ok (cells ∷ rest)
objects_of (rows _ ∷ answers) = raised attribute_error

-- With groups, an array of rows each.
unfoldable pub arrays_of : {S : Type 0} → List (Agg S) → Result (List (List (Row S)))
arrays_of [] = ok []
arrays_of (rows rs ∷ answers) = do rest ← arrays_of answers; ok (rs ∷ rest)
arrays_of (object _ ∷ answers) = raised type_error

-- counts is not None and inputs and not any("*" in u for u in inputs)
unfoldable pub is_early : Option (List ℕ) → List String → Bool
unfolding any_star
is_early none inputs = false
is_early (some counts) [] = false
is_early (some counts) (u ∷ us) = not (any_star (u ∷ us))

-- run: the members of the preparation, read in order; when `early`, the request's inputs stay.
pub record Planned (P : Type 0) : Type 0 where
  pub plan : P
  pub aggs : List Aggregate
  pub group : List String
  pub inputs : List String
  pub counts : List ℕ
