-- ===== src/Bench/Export/Attempts.antt =====
-- bench/export.py, engine_summary: what is exported of an engine's attempts at a case. The statistics of the times
-- are left out, and of a time only what the check looks at.
use zpq.Common.{ℕ, max, Bool, true, false, not, ◌&&◌, ◌||◌, Option, none, some, List, [], ◌∷◌, map}
use zpq.Common.Tests.{leb, ◌==◌, if◌then◌else◌}
use zpq.Common.Lists.{length}
use zpq.Common.Result.{Result, ok, ◌>>◌, guard, value_error, key_error}
use zpq.Bench.Names.{elem, filter, is_nil}
use Prim.Native.String.{String}
use text.Mathlib.Text.{◌==◌ as str_eq}

-- The value under the metric's key.
pub data Timing : Type 0 where
  missing no_number below_zero number : Timing

-- The members of a saved record that are looked at; a round or a repetition that is not there counts as 0.
pub record Row : Type 0 where
  pub status : Option String
  pub validation : Option String
  pub env_validity : Option Bool
  pub contention_valid : Option Bool
  pub round : ℕ
  pub rep : ℕ
  pub timing : Timing

pub record SavedAttempt : Type 0 where
  pub case : String
  pub engine : String
  pub raw : Row
  pub sequence : ℕ

-- A saved run, as load_run gives it; native runs have a score.
pub record SavedRun : Type 0 where
  pub is_native : Bool
  pub quarantined : List String
  pub pending_rerun : List String
  pub reps : String → ℕ
  pub records : List SavedAttempt

abbrev pub says : String → Option String → Bool
says s none = false
says s (some t) = str_eq t s

-- value is not False
abbrev pub not_false : Option Bool → Bool
not_false none = true
not_false (some b) = b

unfoldable pub accepted : Row → Bool
accepted r =
    says "ok" r.status
    && says "ok" r.validation
    && not_false r.env_validity
    && not_false r.contention_valid

-- max((x.get("round", 0) for x in rows), default=0)
unfoldable pub latest : List SavedAttempt → ℕ
latest [] = 0
latest (x ∷ xs) = max x.raw.round (latest xs)

abbrev pub at_case : String → SavedAttempt → Bool
at_case c x = str_eq x.case c

abbrev pub by_engine : String → String → SavedAttempt → Bool
by_engine c e x = str_eq x.case c && str_eq x.engine e

-- Legacy rounds rotate repetition order; only the native format uses rounds as replacement cohorts.
abbrev pub is_in_cohort : SavedRun → String → SavedAttempt → Bool
is_in_cohort run c x =
    leb 1 x.raw.rep
    && (not run.is_native || (x.raw.round == latest (filter (at_case c) run.records)))

unfoldable pub cohort_of : SavedRun → String → String → List SavedAttempt
unfolding latest
cohort_of run c e = filter (is_in_cohort run c) (filter (by_engine c e) run.records)

unfoldable pub is_repeated : ℕ → List SavedAttempt → Bool
is_repeated n [] = false
is_repeated n (x ∷ xs) = (n == x.raw.rep) || is_repeated n xs

-- len(identities) == len(set(identities))
unfoldable pub has_distinct_reps : List SavedAttempt → Bool
unfolding is_repeated
has_distinct_reps [] = true
has_distinct_reps (x ∷ xs) = not (is_repeated x.raw.rep xs) && has_distinct_reps xs

unfoldable pub is_failure : SavedAttempt → Bool
is_failure x =
    says "failed" x.raw.status
    || says "wrong" x.raw.status
    || says "incorrect" x.raw.status
    || says "timeout" x.raw.status

pub data CellState : Type 0 where
  failed complete pending quarantined : CellState

unfoldable pub cell_state : (bad good : List SavedAttempt) → ℕ → CellState
cell_state bad good n =
    if not (is_nil bad) then failed else if length good == n then complete else pending

-- A native run's score has the last word.
unfoldable pub with_score : SavedRun → String → CellState → CellState
with_score run c s =
    if not run.is_native
    then s
    else if elem c run.quarantined
    then quarantined
    else if elem c run.pending_rerun
    then pending
    else s

unfoldable pub times_there : List SavedAttempt → Bool
times_there [] = true
times_there (x ∷ xs) = elim x.raw.timing [ missing ↦ false | _ ↦ times_there xs ]

unfoldable pub times_valid : List SavedAttempt → Bool
times_valid [] = true
times_valid (x ∷ xs) = elim x.raw.timing [
  | no_number ↦ false
  | below_zero ↦ false
  | _ ↦ times_valid xs
]

abbrev pub is_complete : CellState → Bool
is_complete complete = true
is_complete _ = false

-- state, n and the accepted sequences
pub record Summary : Type 0 where
  pub state : CellState
  pub count : ℕ
  pub sequences : List ℕ

unfoldable pub engine_summary : SavedRun → String → String → Result Summary
unfolding cohort_of has_distinct_reps is_failure cell_state with_score times_there times_valid
    accepted
engine_summary run c e = do
  let good = filter (λ x. accepted x.raw) (cohort_of run c e)
  let state =
      with_score run c (cell_state (filter is_failure (cohort_of run c e)) good (run.reps c))
  guard (has_distinct_reps good) value_error
  guard (times_there good) key_error
  guard (times_valid good) value_error
  ok (record {
    state = state;
    count = length good;
    sequences = if is_complete state then map (λ x. x.sequence) good else [];
  })
