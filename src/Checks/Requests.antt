-- ===== src/Checks/Requests.antt =====
-- bench/requests.py: a request of one case with all its evidence, and the plan of its inputs.
use zpq.Common.{◌+◌, ◌≡◌, refl, true, [], ◌∷◌}
use zpq.Common.Lists.{All}
use zpq.Common.Result.{ok}
use zpq.Bench.Requests.{candidate_of, validate}
use zpq.Bench.Requests.Values.{
  Json, bool, string, array, object, no_items, item, Members, no_members, member, get, is_slug,
  is_blank, is_hex, truthy,
}
use zpq.Bench.Requests.Evidence.{FullHash, Names, validate-evidence}
use zpq.Bench.Requests.Inputs.{Catalog, Inventory, Plan, Wish, input_plan}
use zpq.Bench.Requests.Inputs.Dependencies.{Covered, Found, keys_of, input_plan-Covered}
use Prim.Native.String.{String}

abbrev sha : String
sha = "0123456789abcdef0123456789abcdef01234567"

abbrev full : String
full = "0123456789abcdef0123456789abcdef0123456789abcdef0123456789abcdef"

abbrev a_pin : Json
a_pin = object (member "sha" (string sha) (member "binary_sha256" (string full) no_members))

abbrev a_receipt : Json
a_receipt = object (
    member "path" (string "/r") (
      member "sha256" (string full)
        (member "source_sha" (string sha) (member "tree_clean" (bool true) no_members))))

abbrev one_of : String → Json
one_of s = array (item (string s) no_items)

abbrev a_run : Json
a_run = object (
    member "id" (string "r1")
      (member "lane" (string "cold") (member "path" (string "/out") no_members)))

abbrev the_members : Members
the_members = member "schema" (string "zpq-bench-request/v1") (
    member "id" (string "one-case") (
      member "requester" (string "me") (
        member "host" (string "h1.local") (
          member "purpose" (string "speed") (
            member "candidate" a_pin (
              member "baseline" a_pin (
                member "targets" (one_of "q1") (
                  member "controls" (one_of "q2") (
                    member "lanes" (one_of "cold") (
                      member "runs" (array (item a_run no_items)) (
                        member "correctness_receipt" a_receipt (
                          member "corpus_manifest_sha256" (string full)
                            (member "query_set_sha256" (string full) no_members)))))))))))))

abbrev a_request : Json
a_request = object the_members

a_request-accepted : validate a_request ≡ ok []
unfolding validate get is_slug is_blank is_hex truthy
a_request-accepted = refl

validate-evidence_example :
    (m : Members) × (a_request ≡ object m)
    × (FullHash 40 (get "sha" (candidate_of (get "candidate" m)))
        × FullHash 64 (get "binary_sha256" (candidate_of (get "candidate" m))))
    × (FullHash 40 (get "sha" (candidate_of (get "baseline" m)))
        × FullHash 64 (get "binary_sha256" (candidate_of (get "baseline" m))))
    × Names (candidate_of (get "candidate" m)) (get "correctness_receipt" m)
    × FullHash 64 (get "corpus_manifest_sha256" m)
    × FullHash 64 (get "query_set_sha256" m)
validate-evidence_example = validate-evidence a_request a_request-accepted

abbrev a_wish : Wish
a_wish = record { host = "h1.local"; targets = "q1" ∷ []; controls = "q2" ∷ [] }

abbrev a_catalog : Catalog
a_catalog = record {
  schema = "zpq-corpus-catalog/v1";
  case_dependencies =
      record { case_id = "q1"; objects = full ∷ [] }
      ∷ record { case_id = "q2"; objects = full ∷ [] }
      ∷ [];
  objects =
      record { sha256 = full; bytes = 9; is_count = true; source_paths = "/a" ∷ "/b" ∷ [] } ∷ [];
}

abbrev an_inventory : Inventory
an_inventory = record {
  host = "h1.other";
  files = record { path = "/a"; bytes = 8 } ∷ record { path = "/b"; bytes = 9 } ∷ [];
}

abbrev a_plan : Plan
a_plan = record {
  objects = record { sha256 = full; bytes = 9; local_paths = "/b" ∷ [] } ∷ [];
  required_bytes = 9;
  missing_bytes = 0;
  verification_bytes = 9;
}

a_plan-planned : input_plan a_wish a_catalog an_inventory ≡ ok a_plan
unfolding input_plan is_hex
a_plan-planned = refl

input_plan-Covered_example :
    All (Covered a_catalog.case_dependencies (keys_of a_plan.objects)) ("q1" ∷ "q2" ∷ [])
    × All (Found an_inventory.files) a_plan.objects
    × (a_plan.required_bytes ≡ a_plan.missing_bytes + a_plan.verification_bytes)
input_plan-Covered_example = input_plan-Covered a_wish a_catalog an_inventory a_plan a_plan-planned
