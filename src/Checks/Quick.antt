-- ===== src/Checks/Quick.antt =====
-- bench/quick.py: a run of one case on a host that answers, the checksum of its input, and its manifest.
use zpq.Common.{◌≢◌, ◌≡◌, refl, true, false, none, some, List, [], ◌∷◌, arith}
use zpq.Common.Lists.{All}
use zpq.Common.Int.{pos}
use zpq.Common.Result.{ok}
use zpq.Bench.Quick.{
  Engine, candidate, base, hash_first, hot_fresh, passed, Case, Row, Native, ended, Host, pair_ok,
}
use zpq.Bench.Quick.Worker.{
  agrees, hash_pass, all_unchanged, engines_at, complete, incomplete, worker,
}
use zpq.Bench.Quick.Worker.Laws.{Passed, worker-Passed}
use zpq.Bench.Quick.Report.{Cell, selected, pass, merge_gate}
use zpq.Bench.Quick.{broken}
use zpq.Bench.Quick.Validators as Validators
use zpq.Bench.Quick.Validators.{
  Tools, Tried, stopped, done, Duckdb, unset, Verdict, parquet_validation, Validated,
  parquet_validation-passes,
}
use zpq.Bench.Quick.Recovery.{recover, late, supervise, Untimed, supervise-late}
use zpq.Bench.Quick.Inputs.{Identity, Cache, Input, TrueCache, verify_inputs}
use zpq.Bench.Quick.Inputs.Content.{Pinned, verify_inputs-pins}
use zpq.Bench.Quick.Manifest.{
  unique, ids_of, manifest_cases, Build, Pin, absent, Config, Limits, load,
}
use zpq.Bench.Quick.Manifest as Manifest
use Prim.Native.String.{String}

abbrev two_engines : Case
two_engines = record {
  id = "c";
  is_parquet = false;
  declared = false;
  engines = candidate ∷ base ∷ [];
  want = λ e. none;
}

abbrev five_ns : Native
five_ns = record {
  native_exit = pos 0;
  wall_ns = 5;
  stdout_sha256 = "o";
  stderr_sha256 = "e";
  artifact_sha256 = none;
  artifact_stop = none;
  validation = none;
  idle_after = none;
}

abbrev good_host : Host
good_host = record { attempt = λ rows c e ph rep. ended five_ns }

good_host-complete : (worker good_host none none none 1 (two_engines ∷ [])).state ≡ complete
unfolding worker pair_ok
good_host-complete = refl

worker-Passed_example :
    let w = worker good_host none none none 1 (two_engines ∷ []) in
    let hashes = (hash_pass good_host none [] (two_engines ∷ [])).0 in
    (w.hash_complete ≡ true)
    × All (λ c. Passed w.attempts hash_first 0 (agrees none c) c.engines c) (two_engines ∷ [])
    × All
        (λ c. Passed w.attempts hot_fresh 1 (all_unchanged hashes) (engines_at 1 c) c)
        (two_engines ∷ [])
worker-Passed_example =
    worker-Passed good_host none none none 1 (two_engines ∷ []) 1 (omega arith) (omega arith)
      good_host-complete

abbrev hot_row : Engine → Row
hot_row e = record {
  case_id = "c";
  engine = e;
  phase = hot_fresh;
  rep = 1;
  status = passed;
  native_exit = pos 0;
  wall_ns = 5;
  stdout_sha256 = "o";
  stderr_sha256 = "e";
  native_outcome = some "answer";
  artifact_sha256 = none;
  validated = false;
}

abbrev hot_rows : List Row
hot_rows = hot_row candidate ∷ hot_row base ∷ []

hot_row-selected : selected two_engines (hot_row candidate) hot_rows true ≡ true
unfolding selected
hot_row-selected = refl

abbrev a_file : Identity
a_file = record { path = "/data/t.parquet"; size = 9; mtime_ns = 1; inode = 7 }

abbrev an_input : Input
an_input = record {
  sha256 = "abc";
  bytes = 9;
  is_full_hash = true;
  same_object = true;
  size = 9;
  seen = record {
    before = a_file;
    behind = a_file;
    last = a_file;
    digest = "abc";
    late_before = false;
    late_behind = false;
    late_last = false;
  };
}

abbrev filled : Cache
filled =
    (
      "h",
      "/data/t.parquet",
      record { host = "h"; identity = a_file; sha256 = "abc"; well_formed = true },
    )
    ∷ []

an_input-measured : verify_inputs "h" [] (an_input ∷ []) ≡ (filled, none)
unfolding verify_inputs
an_input-measured = refl

-- The second run reads the entry that the first has kept.
an_input-kept : verify_inputs "h" filled (an_input ∷ []) ≡ (filled, none)
unfolding verify_inputs
an_input-kept = refl

verify_inputs-pins_example :
    TrueCache "h" (λ i. "abc") filled × All (Pinned "h" (λ i. "abc")) (an_input ∷ [])
verify_inputs-pins_example =
    verify_inputs-pins "h" (λ i. "abc") [] (an_input ∷ []) filled tt ((λ same. refl), tt)
      an_input-measured

abbrev one_entry : Manifest.Entry
one_entry = record { id = "q1"; file = "t.parquet"; engines = none }

abbrev other_entry : Manifest.Entry
other_entry = record { id = "q2"; file = "t.parquet"; engines = none }

abbrev asked : List String
asked = "q2" ∷ []

two_entries-asked :
    manifest_cases ("t.parquet" ∷ []) (one_entry ∷ other_entry ∷ []) asked ≡ ok (other_entry ∷ [])
unfolding manifest_cases
two_entries-asked = refl

abbrev a_build : Build
a_build = record {
  target = "x86_64-linux";
  cpu = "v3";
  optimize = "ReleaseFast";
  strip = true;
  toolchain = "0.14";
}

abbrev a_pin : Pin
a_pin = record { is_absolute = true; has_hashes = true; build = some a_build }

abbrev a_config : Config
a_config = record {
  enabled = true;
  paths_absolute = true;
  has_memory_max = true;
  has_manifest_hash = true;
  candidate_pin = a_pin;
  base_pin = a_pin;
  budget = absent;
  reps = absent;
  noise = absent;
}

abbrev usual_limits : Limits
usual_limits = record { budget = 90000; reps = 3000; noise = 0 }

a_config-loads : load a_config ≡ ok usual_limits
unfolding load
a_config-loads = refl

supervise-late_example :
    let ended = supervise late none (
      recover
        (two_engines ∷ [])
        1
        0
        (some (hot_row candidate) ∷ some (hot_row base) ∷ none ∷ [])) in
    (ended.0 ≡ 2)
    × (ended.1.1 ≡ incomplete)
    × (merge_gate ended.1.0 ended.1.1 ≢ pass)
    × All (λ (c : Cell). All Untimed c.engines) ended.1.0
supervise-late_example =
    supervise-late (two_engines ∷ []) 1 0
      (some (hot_row candidate) ∷ some (hot_row base) ∷ none ∷ []) none (omega arith)

abbrev good_tools : Tools
good_tools = record {
  digest = done "duck";
  compare = done (pos 0, true);
  read_table = done (pos 0);
  first_command = stopped broken;
  second_command = stopped broken;
}

abbrev a_duckdb : Duckdb
a_duckdb = record { has_path = true; has_hash = true; sha256 = "duck" }

good_tools-pass :
    parquet_validation good_tools unset a_duckdb none
    ≡ done ((Validators.pass, Validators.pass), some "duck")
unfolding parquet_validation
good_tools-pass = refl

parquet_validation-passes_example :
    ◌≡◌ {A = Verdict × Verdict}
      (Validators.pass, Validators.pass)
      (Validators.pass, Validators.pass)
    × Validated good_tools unset a_duckdb none (some "duck")
parquet_validation-passes_example =
    parquet_validation-passes good_tools unset a_duckdb none (Validators.pass, Validators.pass)
      (some "duck") good_tools-pass
