-- ===== src/Bench/Requests.antt =====
-- bench/requests.py: validate, over the JSON text that read gives it.
pub mod Checked
pub mod Separation
pub mod Evidence
pub mod Values
pub mod Inputs
pub mod Packets
use zpq.Common.{
  ℕ, zero, suc, Bool, true, false, not, ◌&&◌, ◌||◌, Option, none, some, List, [], ◌∷◌, ◌++◌,
}
use zpq.Common.Tests.{if◌then◌else◌}
use zpq.Common.Result.{Result, Exn, ok, raised, ◌>>=◌, ◌>>◌, guard, value_error, type_error}
use zpq.Bench.Names.{elem, is_nil}
use zpq.Bench.Requests.Values.{
  Json, null, bool, string, array, object, Items, no_items, item, Members, no_members, member, find,
  get, truthy, is_text, is_hex, is_slug, is_blank,
}
use Prim.Native.String.{String}
use text.Mathlib.Text.{◌==◌ as str_eq}

-- len(value) == len(set(value))
unfoldable pub no_duplicates : List String → Bool
no_duplicates [] = true
no_duplicates (x ∷ xs) = not (elem x xs) && no_duplicates xs

-- The id: a text, since re.fullmatch takes no other value.
unfoldable pub check_id : Members → Result (Unit {0})
check_id m = elim (find "id" m) [
  | none ↦ raised value_error
  | some j ↦ elim j [ string s ↦ guard (is_slug s) value_error | _ ↦ raised type_error ]
]

-- isinstance(request.get(key), str) and request[key].strip()
unfoldable pub has_words : String → Members → Bool
has_words key m = elim (get key m) [ string s ↦ not (is_blank s) | _ ↦ false ]

-- A digest of a pin: missing, full, or no digest.
unfoldable pub digest_missing : (name : String) → (length : ℕ) → Json → Result (List String)
digest_missing name length null = ok (name ∷ [])
digest_missing name length (string s) = if is_hex length s then ok [] else raised value_error
digest_missing name length _ = raised value_error

unfoldable pub pin_missing : (sha binary : String) → Json → Result (List String)
unfolding digest_missing
pin_missing sha binary (object pin) = do
  a ← digest_missing sha 40 (get "sha" pin)
  b ← digest_missing binary 64 (get "binary_sha256" pin)
  ok (a ++ b)
pin_missing sha binary _ = raised value_error

-- all(isinstance(x, str) and x for x in value), and the texts
unfoldable pub texts_of : Items → Result (List String)
texts_of no_items = ok []
texts_of (item (string s) rest) =
    if str_eq s "" then raised value_error else texts_of rest >>= λ xs. ok (s ∷ xs)
texts_of (item _ rest) = raised value_error

-- A list of different names.
unfoldable pub names : Json → Result (List String)
unfolding texts_of no_duplicates
names (array value) = do xs ← texts_of value; guard (no_duplicates xs) value_error; ok xs
names _ = raised value_error

-- not set(xs) & set(ys)
unfoldable pub disjoint : List String → List String → Bool
disjoint [] ys = true
disjoint (x ∷ xs) ys = not (elem x ys) && disjoint xs ys

-- not set(xs) - set(ys)
unfoldable pub within : List String → List String → Bool
within [] ys = true
within (x ∷ xs) ys = elem x ys && within xs ys

abbrev pub known_lanes : List String
known_lanes = "cold" ∷ "hot-fresh" ∷ "engine" ∷ []

-- j in xs, for a list of texts
abbrev pub among : Json → List String → Bool
among j xs = elim j [ string s ↦ elem s xs | _ ↦ false ]

abbrev pub is_path : Json → Bool
is_path j = elim j [ string s ↦ true | _ ↦ false ]

-- One run: its id, if it is new, on a lane of the request and with a path.
unfoldable pub run_id : List String → List String → Json → Result String
run_id lanes ids (object run) = elim (get "id" run) [
  | string s ↦
      if str_eq s ""
        || elem s ids
        || not (among (get "lane" run) lanes)
        || not (is_path (get "path" run))
      then raised value_error
      else ok s
  | _ ↦ raised value_error
]
run_id lanes ids _ = raised value_error

-- The ids of the runs, the newest first.
unfoldable pub run_ids : List String → List String → Items → Result (List String)
unfolding run_id
run_ids lanes ids no_items = ok ids
run_ids lanes ids (item run rest) = do id ← run_id lanes ids run; run_ids lanes (id ∷ ids) rest

unfoldable pub runs_of : List String → Members → Result (List String)
unfolding run_ids
runs_of lanes m = elim (get "runs" m) [
  | array runs ↦ run_ids lanes [] runs
  | _ ↦ raised value_error
]

-- The choices of a lane name known runs.
unfoldable pub check_choices : List String → Members → Result (Unit {0})
check_choices ids no_members = ok tt
check_choices ids (member case run rest) = do
  guard (among run ids) value_error
  check_choices ids rest

unfoldable pub check_lanes : (lanes ids : List String) → Members → Result (Unit {0})
unfolding check_choices
check_lanes lanes ids no_members = ok tt
check_lanes lanes ids (member lane (object choices) rest) = do
  guard (elem lane lanes) value_error
  check_choices ids choices
  check_lanes lanes ids rest
check_lanes lanes ids (member lane _ rest) = raised value_error

unfoldable pub check_selection : (lanes ids : List String) → Members → Result (Unit {0})
unfolding check_lanes
check_selection lanes ids m = elim (find "selection" m) [
  | none ↦ ok tt
  | some j ↦ elim j [ object selection ↦ check_lanes lanes ids selection | _ ↦ raised value_error ]
]

unfoldable pub check_engines : Members → Result (Unit {0})
unfolding texts_of
check_engines m = elim (find "expected_engines" m) [
  | none ↦ ok tt
  | some j ↦ elim j [ array engines ↦ texts_of engines >>= λ xs. ok tt | _ ↦ raised value_error ]
]

-- receipt["source_sha"] == request["candidate"].get("sha"), where the receipt's value is true as a test and the
-- candidate's is missing or a text.
unfoldable pub is_sha_of : Json → Json → Bool
is_sha_of (string s) sha = is_text sha s
is_sha_of _ sha = false

abbrev pub is_true : Json → Bool
is_true j = elim j [ bool b ↦ b | _ ↦ false ]

abbrev pub candidate_of : Json → Members
candidate_of (object pin) = pin
candidate_of _ = no_members

unfoldable pub check_receipt : (candidate receipt : Members) → Result (List String)
unfolding is_sha_of
check_receipt candidate receipt = do
  guard
      (truthy (get "path" receipt)
        && truthy (get "sha256" receipt)
        && truthy (get "source_sha" receipt))
      value_error
  guard
      (is_sha_of (get "source_sha" receipt) (get "sha" candidate)
        && is_true (get "tree_clean" receipt))
      value_error
  ok []

unfoldable pub receipt_missing : (candidate : Members) → Json → Result (List String)
unfolding check_receipt
receipt_missing candidate null = ok ("correctness_receipt" ∷ [])
receipt_missing candidate (object receipt) = check_receipt candidate receipt
receipt_missing candidate _ = raised value_error

-- A hash that is there as a test: re.fullmatch takes texts only.
unfoldable pub full_hash_of : Json → Result (List String)
full_hash_of (string s) = if is_hex 64 s then ok [] else raised value_error
full_hash_of _ = raised type_error

unfoldable pub hash_missing : String → Json → Result (List String)
unfolding full_hash_of
hash_missing key j = if not (truthy j) then ok (key ∷ []) else full_hash_of j

-- What validate checks of an object of its schema: the names of the evidence that is missing.
unfoldable pub check_request : Members → Result (List String)
unfolding check_id has_words pin_missing names disjoint within runs_of check_selection check_engines
    receipt_missing hash_missing
check_request m = do
  check_id m
  guard (has_words "requester" m && has_words "host" m && has_words "purpose" m) value_error
  a ← pin_missing "candidate.sha" "candidate.binary_sha256" (get "candidate" m)
  b ← pin_missing "baseline.sha" "baseline.binary_sha256" (get "baseline" m)
  targets ← names (get "targets" m)
  controls ← names (get "controls" m)
  lanes ← names (get "lanes" m)
  guard (not (is_nil targets) && not (is_nil lanes)) value_error
  guard (disjoint targets controls) value_error
  guard (within lanes known_lanes) value_error
  ids ← runs_of lanes m
  check_selection lanes ids m
  check_engines m
  c ← receipt_missing (candidate_of (get "candidate" m)) (get "correctness_receipt" m)
  d ← hash_missing "corpus_manifest_sha256" (get "corpus_manifest_sha256" m)
  e ← hash_missing "query_set_sha256" (get "query_set_sha256" m)
  ok (a ++ b ++ c ++ d ++ e)

-- validate
unfoldable pub validate : Json → Result (List String)
unfolding check_request
validate (object m) =
    if is_text (get "schema" m) "zpq-bench-request/v1" then check_request m else raised value_error
validate _ = raised value_error
