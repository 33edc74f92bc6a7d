-- ===== src/Bench/Quick/Report.antt =====
-- bench/quick.py: the timings that count, the cells and the verdict of a report. A median is kept twofold, and
-- the allowance for noise is a whole number of percent; a ratio is compared exactly, where the code divides floats.
pub mod Laws
use zpq.Common.{
  ℕ, ◌+◌, ◌*◌, Bool, true, false, not, ◌&&◌, ◌||◌, Option, none, some, List, [], ◌∷◌, map,
}
use zpq.Common.Tests.{ltb, ◌==◌, if◌then◌else◌}
use zpq.Common.Lists.{length}
use zpq.Bench.Names.{filter, is_nil}
use zpq.Bench.Score.{median_twofold, least, greatest}
use zpq.Bench.Quick.{
  Engine, candidate, base, Phase, hash_first, hot_fresh, Case, Row, same_engine, same_phase,
  is_passed, same_identity,
}
use zpq.Bench.Quick.Worker.{State, complete, flagged, Ending}
use Prim.Native.String.{String}
use text.Mathlib.Text.{◌==◌ as str_eq}

-- A row of a case, a repetition, a phase and an engine, that passed.
abbrev pub stands_at : String → ℕ → Phase → Engine → Row → Bool
stands_at case_id rep ph e other =
    str_eq other.case_id case_id
    && (other.rep == rep)
    && same_phase other.phase ph
    && same_engine other.engine e
    && is_passed other.status

unfoldable pub any_row : (Row → Bool) → List Row → Bool
any_row test [] = false
any_row test (r ∷ rows) = test r || any_row test rows

unfoldable pub all_engines : (Engine → Bool) → List Engine → Bool
all_engines test [] = true
all_engines test (e ∷ es) = test e && all_engines test es

-- selected
unfoldable pub selected : Case → Row → List Row → (hash_complete : Bool) → Bool
unfolding any_row all_engines same_engine same_phase
selected c r rows hash_complete =
    hash_complete
    && same_phase r.phase hot_fresh
    && is_passed r.status
    && all_engines (λ e. any_row (stands_at r.case_id r.rep r.phase e) rows) c.engines

-- An engine's part of a cell. `only_answers` is whether the set of its native outcomes is {"answer"}.
pub record EngineCell : Type 0 where
  pub engine : Engine
  pub is_complete : Bool
  pub n : ℕ
  pub median_twofold_ns : Option ℕ
  pub min_ns : Option ℕ
  pub max_ns : Option ℕ
  pub only_answers : Bool

abbrev pub of_cell : Case → Engine → Row → Bool
of_cell c e r = str_eq r.case_id c.id && same_engine r.engine e

abbrev pub outcome_is_answer : Row → Bool
outcome_is_answer r = elim r.native_outcome [ none ↦ false | some o ↦ str_eq o "answer" ]

unfoldable pub all_rows : (Row → Bool) → List Row → Bool
all_rows test [] = true
all_rows test (r ∷ rows) = test r && all_rows test rows

-- min(times) if times else None
abbrev pub of_times : (List ℕ → ℕ) → List ℕ → Option ℕ
of_times f [] = none
of_times f (t ∷ ts) = some (f (t ∷ ts))

unfoldable pub engine_cell :
    Case → List Row → (reps : ℕ) → (hash_complete : Bool) → Engine → EngineCell
unfolding selected all_rows median_twofold least greatest
engine_cell c rows reps hash_complete e =
    let attempts = filter (of_cell c e) rows in
    let times = map Row.wall_ns (filter (λ r. selected c r rows hash_complete) attempts) in
    let is_complete = length times == reps in
    record {
      engine = e;
      is_complete = is_complete;
      n = length times;
      median_twofold_ns = if is_complete then of_times median_twofold times else none;
      min_ns = of_times least times;
      max_ns = of_times greatest times;
      only_answers = not (is_nil attempts) && all_rows outcome_is_answer attempts;
    }

-- The terms of candidate_over_base: none unless both engines are complete with answers, or if the base's is 0.
unfoldable pub ratio_of : List EngineCell → Option (ℕ × ℕ)
ratio_of (a ∷ b ∷ []) =
    if a.is_complete && a.only_answers && b.is_complete && b.only_answers
    then (elim a.median_twofold_ns [
      | none ↦ none
      | some x ↦ elim b.median_twofold_ns [
        | none ↦ none
        | some y ↦ if y == 0 then none else some (x, y)
      ]
    ])
    else none
ratio_of _ = none

-- The rows of the hash pass that passed, and whether two have the same identity.
unfoldable pub byte_identical : Case → List Row → Option Bool
unfolding same_phase same_identity
byte_identical c rows =
    elim (filter (λ r. str_eq r.case_id c.id && same_phase r.phase hash_first && is_passed r.status)
      rows) [
        | [] ↦ none
        | r ∷ rest ↦ elim rest [
          | [] ↦ none
          | s ∷ more ↦ if is_nil more then some (same_identity r s) else none
        ]
      ]

pub record Cell : Type 0 where
  pub case_id : String
  pub engines : List EngineCell
  pub identical : Option Bool
  pub ratio : Option (ℕ × ℕ)
  pub flagged : Bool

-- ratio is not None and ratio > 1 + noise_pct / 100
abbrev pub is_flagged : ℕ → Option (ℕ × ℕ) → Bool
is_flagged noise none = false
is_flagged noise (some (x, y)) = ltb ((100 + noise) * y) (100 * x)

-- cells_for
unfoldable pub cell_for : List Row → ℕ → Bool → ℕ → Case → Cell
unfolding engine_cell ratio_of byte_identical
cell_for rows reps hash_complete noise c =
    let engines = map (engine_cell c rows reps hash_complete) c.engines in
    record {
      case_id = c.id;
      engines = engines;
      identical = byte_identical c rows;
      ratio = ratio_of engines;
      flagged = is_flagged noise (ratio_of engines);
    }

unfoldable pub cells_for : List Case → List Row → ℕ → Bool → ℕ → List Cell
unfolding cell_for
cells_for cases rows reps hash_complete noise = map (cell_for rows reps hash_complete noise) cases

unfoldable pub all_complete : List EngineCell → Bool
all_complete [] = true
all_complete (e ∷ es) = e.is_complete && all_complete es

unfoldable pub all_covered : List Cell → Bool
unfolding all_complete
all_covered [] = true
all_covered (c ∷ cells) = all_complete c.engines && all_covered cells

unfoldable pub any_flagged : List Cell → Bool
any_flagged [] = false
any_flagged (c ∷ cells) = c.flagged || any_flagged cells

abbrev pub is_complete_state : State → Bool
is_complete_state complete = true
is_complete_state _ = false

-- result: coverage_complete and the verdict
unfoldable pub coverage : List Cell → Bool
unfolding all_covered
coverage cells = not (is_nil cells) && all_covered cells

unfoldable pub verdict : List Cell → State → State
unfolding coverage any_flagged
verdict cells state =
    if coverage cells && any_flagged cells && is_complete_state state then flagged else state

pub data Gate : Type 0 where
  not_applicable pass : Gate
  other : State → Gate

unfoldable pub any_pair : List Cell → Bool
any_pair [] = false
any_pair (c ∷ cells) = (length c.engines == 2) || any_pair cells

-- result: merge_gate
unfoldable pub merge_gate : List Cell → State → Gate
unfolding verdict any_pair
merge_gate cells state =
    if not (any_pair cells)
    then not_applicable
    else elim (verdict cells state) [ complete ↦ pass | s ↦ other s ]

-- The exit status of worker.
unfoldable pub exit_status : State → ℕ
exit_status complete = 0
exit_status State.flagged = 3
exit_status State.failed_state = 3
exit_status State.incomplete = 2
exit_status State.deferred_state = 2

-- result, of the run's ending
unfoldable pub report : List Case → ℕ → ℕ → Ending → List Cell × State
unfolding cells_for verdict
report cases reps noise w =
    let cells = cells_for cases w.attempts reps w.hash_complete noise in
    (cells, verdict cells w.state)
