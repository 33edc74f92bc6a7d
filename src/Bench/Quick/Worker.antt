-- ===== src/Bench/Quick/Worker.antt =====
-- bench/quick.py, worker: the hash pass, the paired repetitions, and the state that the run ends in. A loop
-- gives the rows it adds to the journal and the exception that leaves it, if one does.
pub mod Laws
use zpq.Common.{
  ℕ, zero, suc, ◌%◌, Bool, true, false, not, ◌&&◌, Option, none, some, List, [], ◌∷◌, ◌++◌, map,
}
use zpq.Common.Tests.{◌==◌, if◌then◌else◌}
use zpq.Bench.Quick.{
  Stop, expired, deferred, mismatch, broken, Engine, Phase, hash_first, hot_fresh, incorrect, Case,
  Row, Host, execute, same_engine, same_identity, pair_ok,
}
use Prim.Native.String.{String}
use text.Mathlib.Text.{◌==◌ as str_eq}

-- The rows added, the exception.
abbrev pub Ran : Type 0
Ran = List Row × Option Stop

abbrev pub listed : Option Row → List Row
listed none = []
listed (some r) = r ∷ []

abbrev pub journaled : Option Row × Option Stop → Ran
journaled (o, stop) = (listed o, stop)

-- What comes next, unless an exception left what came first; it is told the rows so far.
abbrev pub then_run : Ran → (List Row → Ran) → Ran
then_run (rows, some s) next = (rows, some s)
then_run (rows, none) next = let (more, later) = next rows in (rows ++ more, later)

-- [execute(…) for e in engines]
unfoldable pub run_pair : Host → List Row → Case → Phase → ℕ → List Engine → Ran
unfolding execute
run_pair host attempts c ph rep [] = ([], none)
run_pair host attempts c ph rep (e ∷ es) =
    then_run (journaled (execute host attempts c e ph rep))
      λ rows. run_pair host (attempts ++ rows) c ph rep es

-- for row in pair: row.update(status="incorrect")
abbrev pub all_incorrect : List Row → List Row
all_incorrect = map λ (r : Row). record r { status = incorrect }

unfoldable pub check_rows : Case → (List Row → Bool) → (List Row → List Row) → Ran → Ran
check_rows c also marked (rows, some s) = (rows, some s)
check_rows c also marked (rows, none) =
    if not (pair_ok c rows)
    then (all_incorrect rows, some mismatch)
    else if not (also rows)
    then (marked rows, some mismatch)
    else (rows, none)

-- The pair, checked; `also` is what the loop tests besides, and the rows as it leaves them where that raises.
unfoldable pub checked_pair :
    Host
    → (List Row → Bool)
    → (List Row → List Row)
    → List Row
    → Case
    → Phase
    → ℕ
    → List Engine
    → Ran
unfolding run_pair check_rows
checked_pair host also marked attempts c ph rep es =
    check_rows c also marked (run_pair host attempts c ph rep es)

-- One round of a loop over the cases, and the rest of it.
unfoldable pub over_cases : (List Row → Case → Ran) → List Row → List Case → Ran
over_cases each attempts [] = ([], none)
over_cases each attempts (c ∷ cases) =
    then_run (each attempts c) λ rows. over_cases each (attempts ++ rows) cases

-- What another host recorded: by case, the rows of its hash pass.
abbrev pub Reference : Type 0
Reference = List (String × List Row)

unfoldable pub rows_for : String → Reference → Option (List Row)
rows_for name [] = none
rows_for name ((n, rows) ∷ rest) = if str_eq n name then some rows else rows_for name rest

-- Equality of {engine: identity} dicts, whose engines stand in the case's order.
unfoldable pub same_hashes : List Row → List Row → Bool
unfolding same_engine same_identity
same_hashes [] [] = true
same_hashes (r ∷ rs) (s ∷ ss) =
    same_engine r.engine s.engine && same_identity r s && same_hashes rs ss
same_hashes _ _ = false

-- not reference or reference["hashes"].get(case["id"]) == hashes[case["id"]]
unfoldable pub agrees : Option Reference → Case → List Row → Bool
unfolding rows_for same_hashes
agrees none c rows = true
agrees (some hashes) c rows = elim (rows_for c.id hashes) [
  | none ↦ false
  | some others ↦ same_hashes others rows
]

-- The loop of the hash pass.
unfoldable pub hash_pass : Host → Option Reference → List Row → List Case → Ran
unfolding over_cases checked_pair agrees
hash_pass host reference = over_cases λ attempts c.
    checked_pair host (agrees reference c) (λ rows. rows) attempts c hash_first 0 c.engines

-- hashes[case["id"]][engine]: the row of the hash pass.
unfoldable pub first_hash : Row → List Row → Option Row
unfolding same_engine
first_hash r [] = none
first_hash r (h ∷ hashes) =
    if str_eq h.case_id r.case_id && same_engine h.engine r.engine
    then some h
    else first_hash r hashes

unfoldable pub unchanged : List Row → Row → Bool
unfolding first_hash same_identity
unchanged hashes r = elim (first_hash r hashes) [ none ↦ false | some h ↦ same_identity r h ]

unfoldable pub all_unchanged : List Row → List Row → Bool
unfolding unchanged
all_unchanged hashes [] = true
all_unchanged hashes (r ∷ rows) = unchanged hashes r && all_unchanged hashes rows

-- The first row that changed is marked, and the loop left.
unfoldable pub mark_changed : List Row → List Row → List Row
unfolding unchanged
mark_changed hashes [] = []
mark_changed hashes (r ∷ rows) =
    let rest = mark_changed hashes rows in
    if unchanged hashes r then r ∷ rest else record r { status = incorrect } ∷ rows

unfoldable pub reverse_engines : List Engine → List Engine
reverse_engines [] = []
reverse_engines (e ∷ es) = reverse_engines es ++ e ∷ []

-- engines if rep % 2 else engines[::-1]
unfoldable pub engines_at : ℕ → Case → List Engine
unfolding reverse_engines
engines_at rep c = if rep % 2 == 0 then reverse_engines c.engines else c.engines

-- One round of the loop of the repetitions.
unfoldable pub hot_round : Host → List Row → ℕ → List Row → List Case → Ran
unfolding over_cases checked_pair all_unchanged mark_changed engines_at
hot_round host hashes rep = over_cases λ attempts c.
    checked_pair host (all_unchanged hashes) (mark_changed hashes) attempts c hot_fresh rep
      (engines_at rep c)

-- for rep in range(1, reps + 1), from `rep` on
unfoldable pub hot_rounds : Host → List Row → List Case → (left rep : ℕ) → List Row → Ran
unfolding hot_round
hot_rounds host hashes cases zero rep attempts = ([], none)
hot_rounds host hashes cases (suc left) rep attempts =
    then_run (hot_round host hashes rep attempts cases)
      λ rows. hot_rounds host hashes cases left (suc rep) (attempts ++ rows)

pub data State : Type 0 where
  complete incomplete deferred_state failed_state flagged : State

unfoldable pub state_of : Option Stop → State
state_of none = complete
state_of (some expired) = incomplete
state_of (some deferred) = deferred_state
state_of (some mismatch) = failed_state
state_of (some broken) = failed_state

-- What the run has when its report is made.
pub record Ending : Type 0 where
  pub attempts : List Row
  pub hash_complete : Bool
  pub state : State

abbrev pub or_else : Option Stop → Option Stop → Option Stop
or_else none later = later
or_else (some s) later = some s

-- worker, behind the hash pass; `rivals` is the exception of the comparison with rivals.
unfoldable pub after_hashes : Host → (rivals : Option Stop) → (reps : ℕ) → List Case → Ran → Ending
unfolding hot_rounds state_of
after_hashes host rivals reps cases (hashes, some s) = record {
  attempts = hashes;
  hash_complete = false;
  state = state_of (some s);
}
after_hashes host rivals reps cases (hashes, none) =
    let (rows, later) = hot_rounds host hashes cases reps 1 hashes in
    record {
      attempts = hashes ++ rows;
      hash_complete = true;
      state = state_of (or_else later rivals);
    }

-- worker: `setup` is the exception of what comes before the hash pass (the lock, the idle host, the checksums of
-- manifest, inputs and binaries, the reference's revisions).
unfoldable pub worker :
    Host → (setup rivals : Option Stop) → Option Reference → (reps : ℕ) → List Case → Ending
unfolding hash_pass after_hashes state_of
worker host (some s) rivals reference reps cases = record {
  attempts = [];
  hash_complete = false;
  state = state_of (some s);
}
worker host none rivals reference reps cases =
    after_hashes host rivals reps cases (hash_pass host reference [] cases)
