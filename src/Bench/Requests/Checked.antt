-- ===== src/Bench/Requests/Checked.antt =====
-- What an accepted request went through.
use zpq.Common.{◌≡◌, refl, Bool, true, false, not, ◌&&◌, List, ◌++◌}
use zpq.Common.Tests.{both, if◌then◌else◌}
use zpq.Common.Result.{Result, ok, raised, ok-injective, >>=-eq-ok, guard->>-eq-ok, value_error}
use zpq.Bench.Names.{is_nil}
use zpq.Bench.Requests.{
  check_id, pin_missing, names, disjoint, within, known_lanes, runs_of, check_selection,
  check_engines, candidate_of, receipt_missing, hash_missing, check_request, validate,
}
use zpq.Bench.Requests.Values.{
  Json, null, bool, int, float, string, array, object, Members, get, is_text,
}
use Prim.Native.String.{String}

-- What check_request went through.
pub record Checked (m : Members) (missing : List String) : Type 0 where
  pub a : List String
  pub b : List String
  pub c : List String
  pub d : List String
  pub e : List String
  pub targets : List String
  pub controls : List String
  pub lanes : List String
  pub candidate_pin :
      pin_missing "candidate.sha" "candidate.binary_sha256" (get "candidate" m) ≡ ok a
  pub baseline_pin : pin_missing "baseline.sha" "baseline.binary_sha256" (get "baseline" m) ≡ ok b
  pub is_targets : names (get "targets" m) ≡ ok targets
  pub is_controls : names (get "controls" m) ≡ ok controls
  pub is_lanes : names (get "lanes" m) ≡ ok lanes
  pub some_targets : is_nil targets ≡ false
  pub apart : disjoint targets controls ≡ true
  pub known : within lanes known_lanes ≡ true
  pub receipt :
      receipt_missing (candidate_of (get "candidate" m)) (get "correctness_receipt" m) ≡ ok c
  pub corpus : hash_missing "corpus_manifest_sha256" (get "corpus_manifest_sha256" m) ≡ ok d
  pub queries : hash_missing "query_set_sha256" (get "query_set_sha256" m) ≡ ok e
  pub all_missing : a ++ b ++ c ++ d ++ e ≡ missing

pub not-false : (x : Bool) → not x ≡ true → x ≡ false
not-false false h = refl
not-false true h = cc

pub check_request-Checked :
    (m : Members) {missing : List String} → check_request m ≡ ok missing → Checked m missing
unfolding check_request
check_request-Checked m h =
    let (_, _, h) = >>=-eq-ok (check_id m) _ h in
    let (_, h) = guard->>-eq-ok _ value_error h in
    let (a, is_a, h) = >>=-eq-ok (pin_missing _ _ (get "candidate" m)) _ h in
    let (b, is_b, h) = >>=-eq-ok (pin_missing _ _ (get "baseline" m)) _ h in
    let (targets, is_targets, h) = >>=-eq-ok (names (get "targets" m)) _ h in
    let (controls, is_controls, h) = >>=-eq-ok (names (get "controls" m)) _ h in
    let (lanes, is_lanes, h) = >>=-eq-ok (names (get "lanes" m)) _ h in
    let (filled, h) = guard->>-eq-ok (not (is_nil targets) && not (is_nil lanes)) value_error h in
    let (apart, h) = guard->>-eq-ok (disjoint targets controls) value_error h in
    let (known, h) = guard->>-eq-ok (within lanes known_lanes) value_error h in
    let (ids, _, h) = >>=-eq-ok (runs_of lanes m) _ h in
    let (_, _, h) = >>=-eq-ok (check_selection lanes ids m) _ h in
    let (_, _, h) = >>=-eq-ok (check_engines m) _ h in
    let (c, receipt, h) = >>=-eq-ok (receipt_missing _ (get "correctness_receipt" m)) _ h in
    let (d, corpus, h) = >>=-eq-ok (hash_missing _ (get "corpus_manifest_sha256" m)) _ h in
    let (e, queries, h) = >>=-eq-ok (hash_missing _ (get "query_set_sha256" m)) _ h in
    record {
      a = a;
      b = b;
      c = c;
      d = d;
      e = e;
      targets = targets;
      controls = controls;
      lanes = lanes;
      candidate_pin = is_a;
      baseline_pin = is_b;
      is_targets = is_targets;
      is_controls = is_controls;
      is_lanes = is_lanes;
      some_targets =
          not-false (is_nil targets) (both (not (is_nil targets)) (not (is_nil lanes)) filled).0;
      apart = apart;
      known = known;
      receipt = receipt;
      corpus = corpus;
      queries = queries;
      all_missing = ok-injective h;
    }

-- What a tested result that is given went through.
pub tested :
    (b : Bool) {r : Result (List String)} {missing : List String}
    → (if b then r else raised value_error) ≡ ok missing
    → (b ≡ true) × (r ≡ ok missing)
tested true h = (refl, h)
tested false h = cc

pub validate-object :
    (request : Json) {missing : List String}
    → validate request ≡ ok missing
    → (m : Members) × (request ≡ object m) × (check_request m ≡ ok missing)
unfolding validate
validate-object (object m) h =
    (m, refl, (tested (is_text (get "schema" m) "zpq-bench-request/v1") h).1)
validate-object null h = cc
validate-object (bool b) h = cc
validate-object (int z) h = cc
validate-object (float b) h = cc
validate-object (string s) h = cc
validate-object (array js) h = cc
