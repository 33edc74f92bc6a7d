-- ===== src/Bench/Requests/Inputs.antt =====
-- bench/requests.py: input_plan, packet and write_packet. A catalog, an inventory and the members of a request
-- are records of what is read of them.
pub mod Dependencies
use zpq.Common.{ℕ, ◌+◌, Bool, true, false, not, ◌&&◌, Option, none, some, List, [], ◌∷◌, ◌++◌}
use zpq.Common.Tests.{◌==◌, if◌then◌else◌}
use zpq.Common.Result.{Result, ok, raised, ◌>>=◌, ◌>>◌, guard, value_error}
use zpq.Bench.Names.{elem, filter, keys, is_nil, flat_map}
use zpq.Bench.Score.{sort_names}
use zpq.Bench.Requests.{no_duplicates, within}
use zpq.Bench.Requests.Values.{is_hex}
use Prim.Native.Char.{code}
use Prim.Native.String.{String}
use text.Mathlib.Text.{◌==◌ as str_eq}

-- An object of the catalog; `is_count` is whether its bytes are an int that is not negative.
pub record Object : Type 0 where
  pub sha256 : String
  pub bytes : ℕ
  pub is_count : Bool
  pub source_paths : List String

pub record Dependency : Type 0 where
  pub case_id : String
  pub objects : List String

pub record Catalog : Type 0 where
  pub schema : String
  pub case_dependencies : List Dependency
  pub objects : List Object

pub record Located : Type 0 where
  pub path : String
  pub bytes : ℕ

-- The files of all inputs, one after the other.
pub record Inventory : Type 0 where
  pub host : String
  pub files : List Located

pub record Planned : Type 0 where
  pub sha256 : String
  pub bytes : ℕ
  pub local_paths : List String

pub record Plan : Type 0 where
  pub objects : List Planned
  pub required_bytes : ℕ
  pub missing_bytes : ℕ
  pub verification_bytes : ℕ

-- The members of a request that the plan reads.
pub record Wish : Type 0 where
  pub host : String
  pub targets : List String
  pub controls : List String

-- A dict comprehension keeps the last value of a key.
unfoldable pub depends : String → List Dependency → Option (List String)
depends case_id [] = none
depends case_id (d ∷ ds) = elim (depends case_id ds) [
  | some later ↦ some later
  | none ↦ if str_eq d.case_id case_id then some d.objects else none
]

unfoldable pub object_of : String → List Object → Option Object
object_of key [] = none
object_of key (o ∷ os) = elim (object_of key os) [
  | some later ↦ some later
  | none ↦ if str_eq o.sha256 key then some o else none
]

unfoldable pub size_at : String → List Located → Option ℕ
size_at path [] = none
size_at path (f ∷ fs) = elim (size_at path fs) [
  | some later ↦ some later
  | none ↦ if str_eq f.path path then some f.bytes else none
]

-- host.split(".")[0]
unfoldable pub short_host : String → String
short_host String.[] = String.[]
short_host (String.◌∷◌ c s) =
    let rest = short_host s in if code c == 46 then String.[] else String.◌∷◌ c rest

abbrev pub shas : List Object → List String
shas [] = []
shas (o ∷ os) = o.sha256 ∷ shas os

-- dependencies[case]: the keys needed by the cases, or none where a case is missing from the catalog.
unfoldable pub needed : List Dependency → List String → Option (List String)
unfolding depends
needed ds [] = some []
needed ds (c ∷ cs) = elim (depends c ds) [
  | none ↦ none
  | some here ↦ elim (needed ds cs) [ none ↦ none | some rest ↦ some (here ++ rest) ]
]

-- sorted({…})
unfoldable pub sorted_set : List String → List String
unfolding sort_names keys
sorted_set xs = sort_names (keys (λ x. x) xs)

abbrev pub has_size : List Located → ℕ → String → Bool
has_size files n path = elim (size_at path files) [ none ↦ false | some m ↦ m == n ]

-- One object of the plan.
unfoldable pub plan_object : List Located → String → Option Object → Result Planned
unfolding size_at
plan_object files key none = raised value_error
plan_object files key (some o) = do
  guard (is_hex 64 key && o.is_count) value_error
  ok (record {
    sha256 = key;
    bytes = o.bytes;
    local_paths = filter (has_size files o.bytes) o.source_paths;
  })

unfoldable pub plan_objects : List Located → List Object → List String → Result (List Planned)
unfolding plan_object object_of
plan_objects files os [] = ok []
plan_objects files os (key ∷ rest) = do
  p ← plan_object files key (object_of key os)
  ps ← plan_objects files os rest
  ok (p ∷ ps)

-- sum(x["bytes"] for x in planned if …)
unfoldable pub bytes_of : (Planned → Bool) → List Planned → ℕ
bytes_of test [] = 0
bytes_of test (p ∷ ps) = (if test p then p.bytes else 0) + bytes_of test ps

abbrev pub is_present : Planned → Bool
is_present p = not (is_nil p.local_paths)

unfoldable pub plan_of : List Planned → Plan
unfolding bytes_of
plan_of ps = record {
  objects = ps;
  required_bytes = bytes_of (λ p. true) ps;
  missing_bytes = bytes_of (λ p. is_nil p.local_paths) ps;
  verification_bytes = bytes_of is_present ps;
}

unfoldable pub known_needs : Option (List String) → Result (List String)
known_needs none = raised value_error
known_needs (some xs) = ok xs

-- input_plan
unfoldable pub input_plan : Wish → Catalog → Inventory → Result Plan
unfolding needed sorted_set plan_objects plan_of short_host known_needs no_duplicates
input_plan request catalog inventory = do
  guard (str_eq catalog.schema "zpq-corpus-catalog/v1") value_error
  guard (no_duplicates (shas catalog.objects)) value_error
  keys ← known_needs (needed catalog.case_dependencies (request.targets ++ request.controls))
  guard (str_eq (short_host inventory.host) (short_host request.host)) value_error
  ps ← plan_objects inventory.files catalog.objects (sorted_set keys)
  ok (plan_of ps)

-- A file as write_packet finds it; `link` is a link that leads to a file.
pub data File : Type 0 where
  absent link : File
  content : String → File

-- write_packet: the file that it leaves
unfoldable pub write_packet : String → File → Result File
write_packet value absent = ok (content value)
write_packet value link = raised value_error
write_packet value (content c) = if str_eq c value then ok (content c) else raised value_error
