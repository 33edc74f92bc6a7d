-- ===== src/Checks/Export.antt =====
-- bench/export.py: a package of two files, one of which is there, and the attempts of a native run.
use zpq.Common.{ℕ, ◌≡◌, ◌≢◌, refl, true, false, some, none, List, [], ◌∷◌, map}
use zpq.Common.Lists.{All, length, take}
use zpq.Common.Result.{ok}
use zpq.Bench.Names.{elem}
use zpq.Bench.Export.{Folder, Parts, absent, file, put_file, write_files, write_package}
use zpq.Bench.Export.Writes.{Files, file_names}
use zpq.Bench.Export.Package.{Apart, write_package_complete, write_package-resumes}
use zpq.Bench.Export.Attempts.{
  SavedAttempt, SavedRun, Summary, number, complete, accepted, is_failure, engine_summary,
}
use zpq.Bench.Export.Complete.{IsCurrent, DistinctReps, engine_summary-complete}
use mathlib.Core.List.{Memᴰ}
use Prim.Native.String.{String}

abbrev two_files : Files
two_files = ("report.json", "{}") ∷ ("export.json", "[]") ∷ []

abbrev half_there : Folder
half_there = put_file "report.json" "{}" (λ n. absent)

abbrev both_there : Folder
both_there = put_file "export.json" "[]" half_there

abbrev sources : List Parts
sources = ("runs" ∷ "a" ∷ []) ∷ []

abbrev destination : Parts
destination = "exports" ∷ []

package_written : write_package false destination sources two_files half_there ≡ ok both_there
unfolding write_package
package_written = refl

write_package_complete_example :
    (false ≡ false)
    × All (Apart destination) sources
    × All (λ f. both_there f.0 ≡ file f.1) two_files
    × ((n : String) → half_there n ≢ absent → both_there n ≡ half_there n)
    × ((n : String) → elem n (file_names two_files) ≡ false → both_there n ≡ half_there n)
write_package_complete_example =
    write_package_complete false destination sources two_files half_there both_there
      (refl, (refl, tt)) package_written

write_package-resumes_example :
    write_package false destination sources two_files (write_files (take 1 two_files) half_there)
    ≡ ok both_there
write_package-resumes_example =
    write_package-resumes false destination sources two_files half_there both_there 1
      (refl, (refl, tt)) package_written

-- An attempt of round 1 at the case, the n-th of the run.
abbrev attempt : (rep n : ℕ) → SavedAttempt
attempt r n = record {
  case = "s/d/q1";
  engine = "zpq";
  raw = record {
    status = some "ok";
    validation = some "ok";
    env_validity = some true;
    contention_valid = none;
    round = 1;
    rep = r;
    timing = number;
  };
  sequence = n;
}

-- A warmup and two repetitions.
abbrev a_run : SavedRun
a_run = record {
  is_native = true;
  quarantined = [];
  pending_rerun = "s/d/q2" ∷ [];
  reps = λ c. 2;
  records = attempt 0 0 ∷ attempt 1 1 ∷ attempt 2 2 ∷ [];
}

abbrev a_summary : Summary
a_summary = record { state = complete; count = 2; sequences = 1 ∷ 2 ∷ [] }

a_run-summary : engine_summary a_run "s/d/q1" "zpq" ≡ ok a_summary
unfolding engine_summary
a_run-summary = refl

engine_summary-complete_example :
    (good : List SavedAttempt) × ((1 ∷ 2 ∷ []) ≡ map (λ x. x.sequence) good)
    × All (λ x. IsCurrent a_run "s/d/q1" "zpq" x × (accepted x.raw ≡ true)) good
    × ((x : SavedAttempt) → IsCurrent a_run "s/d/q1" "zpq" x → accepted x.raw ≡ true → Memᴰ x good)
    × (length good ≡ 2)
    × (2 ≡ length good)
    × DistinctReps good
    × ((x : SavedAttempt) → IsCurrent a_run "s/d/q1" "zpq" x → is_failure x ≡ false)
    × (true ≡ true → (elem "s/d/q1" [] ≡ false) × (elem "s/d/q1" ("s/d/q2" ∷ []) ≡ false))
engine_summary-complete_example =
    engine_summary-complete a_run "s/d/q1" "zpq" a_summary a_run-summary refl
