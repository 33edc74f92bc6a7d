-- ===== src/Bench/Quick/Rivals.antt =====
-- bench/quick.py: rivals, the optional comparison with other engines. The runner's process, the checksums and the
-- summary that it leaves are parameters.
use zpq.Common.{ℕ, ◌≡◌, ap, Bool, true, false, not, ◌&&◌, Option, none, some, List, [], ◌∷◌}
use zpq.Common.Tests.{leb, ◌==◌, ==_iff, both, if◌then◌else◌}
use zpq.Common.Lists.{All}
use zpq.Common.Int.{ℤ}
use zpq.Bench.Quick.{Stop, expired, mismatch, broken}
use zpq.Bench.Quick.Manifest.{Build}
use zpq.Bench.Quick.Validators.{
  Tried, stopped, done, ◌>>=◌, ◌>>◌, insist, is_zero, >>=-eq-done, insist-eq-done,
}
use Prim.Native.String.{String}
use text.Mathlib.Text.{◌==◌ as str_eq}

-- A pinned binary: whether its hash is full, and its checksum.
pub record Binary : Type 0 where
  pub is_full_hash : Bool
  pub sha256 : String
  pub digest : Tried String

-- The timings of a query, by engine: its repetitions.
abbrev pub Timings : Type 0
Timings = List (String × ℕ)

pub record Comparison : Type 0 where
  pub has_only : Bool
  pub build : Build
  pub runner : Binary
  pub duckdb : Binary
  pub seconds : ℕ
  pub host_idle : Option Stop
  pub command : Tried ℤ
  pub queries : Tried (List Timings)
  pub with_polars : Bool
  pub reps : ℕ

-- {r["engine"]: r for r in query["timings"]}[engine]["reps"]
unfoldable pub reps_of : String → Timings → Option ℕ
reps_of engine [] = none
reps_of engine ((e, n) ∷ rest) = elim (reps_of engine rest) [
  | some later ↦ some later
  | none ↦ if str_eq e engine then some n else none
]

abbrev pub wanted : Bool → List String
wanted with_polars = if with_polars then "zpq" ∷ "duckdb" ∷ "polars" ∷ [] else "zpq" ∷ "duckdb" ∷ []

abbrev pub has_reps : ℕ → Option ℕ → Bool
has_reps reps none = false
has_reps reps (some n) = n == reps

unfoldable pub all_timed : ℕ → List String → Timings → Bool
unfolding reps_of
all_timed reps [] timings = true
all_timed reps (e ∷ es) timings = has_reps reps (reps_of e timings) && all_timed reps es timings

unfoldable pub check_queries : ℕ → List String → List Timings → Tried (Unit {0})
unfolding all_timed
check_queries reps es [] = done tt
check_queries reps es (q ∷ qs) = do insist (all_timed reps es q) expired; check_queries reps es qs

unfoldable pub check_binary : Binary → Tried (Unit {0})
check_binary p = do
  insist p.is_full_hash mismatch
  found ← p.digest
  insist (str_eq found p.sha256) mismatch

abbrev pub unless : Option Stop → Tried (Unit {0})
unless none = done tt
unless (some s) = stopped s

-- rivals
unfoldable pub compare_rivals : Comparison → Tried (Unit {0})
unfolding check_binary check_queries
compare_rivals c = do
  insist
      (not c.has_only
        && str_eq c.build.cpu "baseline"
        && str_eq c.build.optimize "ReleaseFast"
        && c.build.strip)
      broken
  check_binary c.runner
  check_binary c.duckdb
  insist (leb 1 c.seconds) expired
  unless c.host_idle
  rc ← c.command
  insist (is_zero rc) mismatch
  queries ← c.queries
  check_queries c.reps (wanted c.with_polars) queries

-- What worker makes of it: the exception, if there is one.
unfoldable pub rivals_stop : (asked : Bool) → Comparison → Option Stop
unfolding compare_rivals
rivals_stop asked c =
    if asked then (elim (compare_rivals c) [ stopped s ↦ some s | done u ↦ none ]) else none

-- A query whose wanted engines all have their repetitions.
abbrev pub Timed : ℕ → List String → Timings → Type 0
Timed reps es q = All (λ e. reps_of e q ≡ some reps) es

has_reps-eq : (reps : ℕ) (o : Option ℕ) → has_reps reps o ≡ true → o ≡ some reps
has_reps-eq reps none h = cc
has_reps-eq reps (some n) h = ap some ((==_iff n reps).0 h)

all_timed-Timed :
    (reps : ℕ) (es : List String) (q : Timings) → all_timed reps es q ≡ true → Timed reps es q
unfolding all_timed
all_timed-Timed reps [] q h = tt
all_timed-Timed reps (e ∷ es) q h =
    let (here, later) = both (has_reps reps (reps_of e q)) (all_timed reps es q) h in
    (has_reps-eq reps (reps_of e q) here, all_timed-Timed reps es q later)

-- The queries that pass are timed, each with all the engines that are wanted.
pub check_queries-Timed :
    (reps : ℕ) (es : List String) (qs : List Timings) (u : Unit {0})
    → check_queries reps es qs ≡ done u
    → All (Timed reps es) qs
unfolding check_queries
check_queries-Timed reps es [] u h = tt
check_queries-Timed reps es (q ∷ qs) u h =
    let (_, first, rest) = >>=-eq-done (insist (all_timed reps es q) expired) _ h in
    (
      all_timed-Timed reps es q (insist-eq-done (all_timed reps es q) expired first),
      check_queries-Timed reps es qs u rest,
    )
