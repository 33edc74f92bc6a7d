-- ===== src/Checks/Run.antt =====
-- tools/serverless/fanout.py, run: small fleets of workers over natural numbers.
use zpq.Common.{
  ℕ, ◌≡◌, ◌≢◌, refl, subst, true, false, none, some, Option, List, [], ◌∷◌, map, ◌⊎◌, arith,
}
use zpq.Common.Tests.{◌==◌}
use zpq.Common.Int.{pos}
use zpq.Common.Result.{ok, ok-injective}
use zpq.Fanout.Split.{units_from, split}
use zpq.Fanout.Merge.{plain}
use zpq.Fanout.Plan.{
  int, bool, object, Reply, Payload, capabilities, partial, Request, Process, Planned, Answer,
}
use zpq.Fanout.Run.{Workers, acknowledges, payloads, run}
use zpq.Fanout.Run.Laws.{run-negotiates}
use zpq.Fanout.Run.Cover.{asked_all, named, payloads-cover}
use zpq.Checks.Fanout.{naturals}

abbrev blank : Reply ℕ ℕ
blank = record {
  prepare_aggregate_version = none;
  structured_plan_versions = none;
  version = none;
  plan = none;
  aggregates = none;
  groups = none;
  inputs = none;
  row_group_counts = none;
  agg = none;
}

-- It acknowledges `true`, which is not the int 1.
abbrev old_worker : Workers ℕ ℕ
old_worker sent payload = ok (
    some (record blank {
      prepare_aggregate_version = some (bool true);
      structured_plan_versions = some (int (pos 1) ∷ []);
    }))

abbrev counting : Request
counting = record { sql = false; row_groups = false; has_aggregate = true; inputs = "a" ∷ "b" ∷ [] }

abbrev fresh : Process ℕ
fresh = record { sent = []; known = false }

old_worker-refused :
    (r : Option (Reply ℕ ℕ)) → old_worker [] capabilities ≡ ok r → acknowledges naturals r ≡ false
unfolding acknowledges
old_worker-refused r h = subst (λ r. acknowledges naturals r ≡ false) (ok-injective h) refl

run-negotiates_example :
    let (s', r) = run naturals old_worker ◌==◌ true counting 2 [] none none fresh in
    ((s'.sent ≡ []) ⊎ (s'.sent ≡ capabilities ∷ [])) × ((a : Answer ℕ) → r ≢ ok a)
run-negotiates_example =
    run-negotiates naturals old_worker ◌==◌ true counting 2 [] none none fresh refl
      old_worker-refused

-- It plans every request alike, and counts one row for each.
abbrev good_reply : Reply ℕ ℕ
good_reply = record blank {
  version = some (int (pos 1));
  plan = some 7;
  aggregates = some (("count", "n") ∷ []);
  groups = some [];
  inputs = some ("a" ∷ "b" ∷ []);
  row_group_counts = some (1 ∷ 2 ∷ []);
  agg = some (object (plain (some 1) ∷ []));
}

abbrev good_worker : Workers ℕ ℕ
good_worker sent payload = ok (some good_reply)

abbrev two_requests : List (Payload ℕ)
two_requests =
    partial 7 ("a" ∷ []) (some ((0, 1) ∷ [])) ∷ partial 7 ("b" ∷ []) (some ((0, 2) ∷ [])) ∷ []

abbrev small_plan : Planned ℕ
small_plan = record {
  plan = 7;
  aggs = [];
  group = [];
  inputs = "a" ∷ "b" ∷ [];
  counts = 1 ∷ 2 ∷ [];
}

small_payloads : payloads naturals small_plan 2 ≡ ok two_requests
unfolding payloads split
small_payloads = refl

payloads-cover_example :
    asked_all two_requests ≡ map (named ("a" ∷ "b" ∷ [])) (units_from 0 (1 ∷ 2 ∷ []))
payloads-cover_example = payloads-cover naturals small_plan 2 (omega arith) small_payloads
