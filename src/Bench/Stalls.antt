-- ===== src/Bench/Stalls.antt =====
-- bench/stalls.py: the evidence that the host and not the engine made a repetition slow, the cases to run
-- again and the quarantine. Times are in nanoseconds; 0.5 and 1.1 times a count are compared exactly, as the
-- floats do below 2^50. The text of an evidence is left aside.
pub mod Laws
use zpq.Common.{
  ℕ, ◌+◌, ◌-◌, ◌*◌, max, Bool, true, false, not, ◌&&◌, ◌||◌, Option, none, some, List, [], ◌∷◌,
  ◌++◌, map,
}
use zpq.Common.Tests.{ltb, leb, ◌==◌, if◌then◌else◌}
use zpq.Bench.Names.{elem, filter, keys, flat_map, is_nil}
use Prim.Native.String.{String}
use text.Mathlib.Text.{◌==◌ as str_eq}

-- The stall counters of a cgroup or of the host, in microseconds.
pub record Pressure : Type 0 where
  pub io_some : ℕ
  pub io_full : ℕ
  pub memory_some : ℕ

pub data Status : Type 0 where
  ok_status failed wrong timeout disturbed_status : Status

-- What the journal keeps of a repetition, as far as stalls and scores read it.
pub record Record : Type 0 where
  pub case_id : String
  pub engine : String
  pub rep : ℕ
  pub round : ℕ
  pub status : Status
  pub elapsed_ns : Option ℕ
  pub read_bytes : ℕ
  pub host : Option Pressure
  pub scope : Option Pressure

abbrev pub host_full_ns : ℕ
host_full_ns = 1000000000

-- psi_ns, for a key that the pressure has.
unfoldable pub psi_ns : Option Pressure → (Pressure → ℕ) → Option ℕ
psi_ns none key = none
psi_ns (some psi) key = some (key psi * 1000)

pub data Why : Type 0 where
  reasons : Why  -- the lane found the repetition disturbed
  host_stalled : Why
  no_pressure : Why
  scope_stalled : Why

-- The first test: the host's full stall.
unfoldable pub host_full : Record → Bool
unfolding psi_ns
host_full rec = elim (psi_ns rec.host Pressure.io_full) [
  | none ↦ false
  | some full ↦ ltb host_full_ns full
]

-- `grew >= excess / 2`; what did not grow counts as 0, since the excess is more than a second.
unfoldable pub scope_grew : ℕ → Pressure → Pressure → Bool
scope_grew excess slow fast =
    leb excess (
      2 * max ((slow.io_some - fast.io_some) * 1000) ((slow.memory_some - fast.memory_some) * 1000))

unfoldable pub same_io : Record → Record → Bool
same_io rec fastest = leb (10 * rec.read_bytes) (11 * max 1 fastest.read_bytes)

-- stall_evidence, of records whose times are `slow` and `fast`.
unfoldable pub stall_evidence : Record → ℕ → Record → ℕ → Option Why
unfolding host_full scope_grew same_io
stall_evidence rec slow fastest fast =
    if host_full rec
    then some host_stalled
    else if leb (slow - fast) (max 1000000000 (2 * fast))
    then none
    else elim rec.scope [
      | none ↦ some no_pressure
      | some p ↦ elim fastest.scope [
        | none ↦ some no_pressure
        | some q ↦
            if scope_grew (slow - fast) p q && same_io rec fastest then some scope_stalled else none
      ]
    ]

abbrev pub is_ok : Status → Bool
is_ok ok_status = true
is_ok _ = false

abbrev pub is_disturbed : Status → Bool
is_disturbed disturbed_status = true
is_disturbed _ = false

-- The timed repetitions: `ok` ones with a time.
unfoldable pub timed : List Record → List (Record × ℕ)
timed [] = []
timed (r ∷ reps) =
    let rest = timed reps in
    elim r.elapsed_ns [ none ↦ rest | some t ↦ if is_ok r.status then (r, t) ∷ rest else rest ]

-- min(timed, key=…): the first of the fastest.
unfoldable pub fastest_of : Record × ℕ → List (Record × ℕ) → Record × ℕ
fastest_of best [] = best
fastest_of best (r ∷ rest) = let next = if ltb r.1 best.1 then r else best in fastest_of next rest

-- One evidence: the engine, the repetition, and why.
abbrev pub Item : Type 0
Item = String × ℕ × Why

unfoldable pub disturbed_items : List Record → List Item
disturbed_items [] = []
disturbed_items (r ∷ reps) =
    let rest = disturbed_items reps in
    if is_disturbed r.status then (r.engine, r.rep, reasons) ∷ rest else rest

unfoldable pub stalled_items : Record × ℕ → List (Record × ℕ) → List Item
unfolding stall_evidence
stalled_items fastest [] = []
stalled_items fastest (r ∷ rest) =
    let items = stalled_items fastest rest in
    elim (stall_evidence r.0 r.1 fastest.0 fastest.1) [
      | none ↦ items
      | some why ↦ (r.0.engine, r.0.rep, why) ∷ items
    ]

-- evidence: the body of its loops, for the repetitions of one engine on one case.
unfoldable pub engine_evidence : List Record → List Item
unfolding timed fastest_of disturbed_items stalled_items
engine_evidence reps =
    disturbed_items reps
    ++ elim (timed reps) [ [] ↦ [] | r ∷ rest ↦ stalled_items (fastest_of r rest) (r ∷ rest) ]

-- cohorts: the records of a round that are no warm-up.
abbrev pub in_cohort : ℕ → Record → Bool
in_cohort rnd r = r.round == rnd && leb 1 r.rep

abbrev pub of_case : String → Record → Bool
of_case c r = str_eq r.case_id c

abbrev pub of_engine : String → Record → Bool
of_engine e r = str_eq r.engine e

unfoldable pub cohort : List Record → ℕ → List Record
cohort records rnd = filter (in_cohort rnd) records

-- The evidence on one case of a cohort, engine by engine.
unfoldable pub case_evidence : List Record → List Item
unfolding keys engine_evidence
case_evidence reps =
    flat_map (λ e. engine_evidence (filter (of_engine e) reps)) (keys Record.engine reps)

-- evidence: the cases with some, and theirs.
abbrev pub Evidence : Type 0
Evidence = List (String × List Item)

unfoldable pub with_evidence : List Record → List String → Evidence
unfolding case_evidence
with_evidence records [] = []
with_evidence records (c ∷ cases) =
    let rest = with_evidence records cases in
    let items = case_evidence (filter (of_case c) records) in
    if is_nil items then rest else (c, items) ∷ rest

unfoldable pub evidence : List Record → ℕ → Evidence
unfolding cohort with_evidence keys
evidence records rnd = with_evidence (cohort records rnd) (keys Record.case_id (cohort records rnd))

unfoldable pub disturbed : List Record → ℕ → List String
unfolding evidence
disturbed records rnd = map (λ (c, _). c) (evidence records rnd)

-- latest_round: the last round that ran a case; 0 where none did.
unfoldable pub last_round : List Record → String → ℕ
last_round [] c = 0
last_round (r ∷ records) c =
    let rest = last_round records c in if of_case c r then max r.round rest else rest

-- The rounds that are the last of some case, ascending, each once.
unfoldable pub insert_round : ℕ → List ℕ → List ℕ
insert_round n [] = n ∷ []
insert_round n (m ∷ ms) =
    let rest = insert_round n ms in
    if n == m then m ∷ ms else if ltb n m then n ∷ m ∷ ms else m ∷ rest

unfoldable pub rounds_of : List Record → List String → List ℕ
unfolding last_round insert_round
rounds_of records [] = []
rounds_of records (c ∷ cases) = insert_round (last_round records c) (rounds_of records cases)

unfoldable pub last_rounds : List Record → List ℕ
unfolding rounds_of keys
last_rounds records = rounds_of records (keys Record.case_id records)

-- The evidence of one round on the cases whose last it was.
unfoldable pub final_evidence : List Record → ℕ → Evidence
unfolding evidence last_round
final_evidence records rnd = filter (λ (c, _). last_round records c == rnd) (evidence records rnd)

-- disturbed_last
unfoldable pub disturbed_last : List Record → List String
unfolding last_rounds final_evidence
disturbed_last records = map (λ (c, _). c) (flat_map (final_evidence records) (last_rounds records))

-- quarantine
unfoldable pub quarantine : List Record → ℕ → Evidence
unfolding last_rounds final_evidence
quarantine records max_round =
    flat_map (final_evidence records) (filter (leb max_round) (last_rounds records))
