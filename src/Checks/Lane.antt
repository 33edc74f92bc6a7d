-- ===== src/Checks/Lane.antt =====
-- bench/lane.py: a lane of one case, two engines and two repetitions.
use zpq.Common.{◌≡◌, refl, true, false, none, some, Bool, [], ◌∷◌}
use zpq.Common.Lists.{All}
use zpq.Bench.Lane.{Journal, Reply, World, is_done, round_keys, run_round, run}
use zpq.Bench.Lane.Laws.{Steady, TrueLine, run-judges}
use zpq.Bench.Lane.Resumption.{run_round-resumes}
use Prim.Native.String.{String}
use text.Mathlib.Text.{◌==◌ as str_eq}

abbrev quick_reply : Reply
quick_reply = record {
  timed_out = false;
  rc = 0;
  written = true;
  digest = some "abc";
  contended = false;
  elapsed_ns = 5;
  read_bytes = 0;
  host = none;
  scope = none;
}

-- Only the answer with the hash "abc" is right.
abbrev is_right : String → String → String → Bool
is_right c e d = str_eq d "abc"

abbrev quiet_host : World
quiet_host = record {
  smoke = false;
  is_disturbed = λ j k. false;
  spawn = λ j k. quick_reply;
  judge = λ j k d. (str_eq d "abc", "");
}

quiet_host-Steady : Steady quiet_host is_right
quiet_host-Steady j k d = refl

abbrev empty_journal : Journal
empty_journal = record { done = []; verdicts = [] }

run-judges_example :
    All
      (TrueLine quiet_host is_right)
      (run quiet_host false 2 ("c" ∷ []) 3 ("zpq" ∷ "polars" ∷ []) empty_journal).done
run-judges_example =
    run-judges quiet_host is_right quiet_host-Steady false 2 ("c" ∷ []) 3 ("zpq" ∷ "polars" ∷ [])

abbrev busy_host : World
busy_host = record quiet_host { is_disturbed = λ j k. true }

run_round-resumes_example :
    All
      (λ k.
        is_done k (run_round quiet_host false 2 ("c" ∷ []) 0 ("zpq" ∷ []) empty_journal).done
        ≡ true)
      (round_keys false 2 ("c" ∷ []) ("zpq" ∷ []) 0)
    × (run_round busy_host false 2
          ("c" ∷ [])
          0
          ("zpq" ∷ [])
          (run_round quiet_host false 2 ("c" ∷ []) 0 ("zpq" ∷ []) empty_journal)
        ≡ run_round quiet_host false 2 ("c" ∷ []) 0 ("zpq" ∷ []) empty_journal)
run_round-resumes_example =
    run_round-resumes quiet_host busy_host false 2 ("c" ∷ []) 0 ("zpq" ∷ []) empty_journal
