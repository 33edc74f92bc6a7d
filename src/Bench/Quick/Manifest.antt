-- ===== src/Bench/Quick/Manifest.antt =====
-- bench/quick.py: manifest_cases and the limits that load sets. A ValueError is `value_error`, a missing key
-- `key_error`.
pub mod Laws
pub mod Bounds
use zpq.Common.{
  ℕ, ◌+◌, ◌*◌, Bool, true, false, not, ◌&&◌, ◌||◌, Option, none, some, List, [], ◌∷◌, map,
}
use zpq.Common.Tests.{same_bool, ltb, leb, ◌==◌, if◌then◌else◌}
use zpq.Common.Lists.{length}
use zpq.Common.Result.{Result, Exn, ok, raised, ◌>>=◌, ◌>>◌, guard, value_error, key_error}
use zpq.Bench.Names.{elem, filter, is_nil}
use zpq.Bench.Quick.{Engine, candidate, base, same_engine}
use Prim.Native.Char.{code}
use Prim.Native.String.{String}
use text.Mathlib.Text.{◌==◌ as str_eq}

-- A case as the manifest names it; engines that are not given are both.
pub record Entry : Type 0 where
  pub id : String
  pub file : String
  pub engines : Option (List String)

-- len(ids) != len(set(ids))
unfoldable pub unique : List String → Bool
unique [] = true
unique (x ∷ xs) = not (elem x xs) && unique xs

-- [A-Za-z0-9_.-]
unfoldable pub is_safe_char : ℕ → Bool
is_safe_char c =
    (leb 65 c && leb c 90)
    || (leb 97 c && leb c 122)
    || (leb 48 c && leb c 57)
    || (c == 95)
    || (c == 46)
    || (c == 45)

unfoldable pub all_safe : String → Bool
unfolding is_safe_char
all_safe String.[] = true
all_safe (String.◌∷◌ c s) = is_safe_char (code c) && all_safe s

-- re.fullmatch(r"[A-Za-z0-9_.-]+", …)
unfoldable pub is_safe_name : String → Bool
unfolding all_safe
is_safe_name String.[] = false
is_safe_name (String.◌∷◌ c s) = all_safe (String.◌∷◌ c s)

-- c.get("engines", ["candidate", "base"]), if it is one of the two lists allowed
unfoldable pub engines_of : Option (List String) → Result (List Engine)
engines_of none = ok (candidate ∷ base ∷ [])
engines_of (some []) = raised value_error
engines_of (some (e ∷ [])) =
    if str_eq e "candidate" then ok (candidate ∷ []) else raised value_error
engines_of (some (e ∷ f ∷ [])) =
    if str_eq e "candidate" && str_eq f "base"
    then ok (candidate ∷ base ∷ [])
    else raised value_error
engines_of (some (e ∷ f ∷ g ∷ rest)) = raised value_error

-- The tests of one case.
unfoldable pub check_case : List String → Entry → Result (List Engine)
unfolding is_safe_name engines_of
check_case files c = do
  guard (is_safe_name c.id) value_error
  guard (elem c.file files) value_error
  engines_of c.engines

unfoldable pub check_cases : List String → List Entry → Result (Unit {0})
unfolding check_case
check_cases files [] = ok tt
check_cases files (c ∷ cases) = do engines ← check_case files c; check_cases files cases

-- set(only) <= set(ids)
unfoldable pub subset : List String → List String → Bool
subset [] ids = true
subset (x ∷ xs) ids = elem x ids && subset xs ids

abbrev pub ids_of : List Entry → List String
ids_of = map Entry.id

-- `if only:` and what it keeps
unfoldable pub requested : (only : List String) → List Entry → Result (List Entry)
unfolding subset
requested [] cases = ok cases
requested (x ∷ xs) cases = do
  guard (subset (x ∷ xs) (ids_of cases)) value_error
  ok (filter (λ c. elem c.id (x ∷ xs)) cases)

-- manifest_cases
unfoldable pub manifest_cases :
    (files : List String) → List Entry → (only : List String) → Result (List Entry)
unfolding unique check_cases requested
manifest_cases files cases only = do
  guard (not (is_nil cases) && unique (ids_of cases)) value_error
  check_cases files cases
  requested only cases

-- The five fields of a build that must be those of the other.
pub record Build : Type 0 where
  pub target : String
  pub cpu : String
  pub optimize : String
  pub strip : Bool
  pub toolchain : String

unfoldable pub same_build : Build → Build → Bool
same_build a b =
    str_eq a.target b.target
    && str_eq a.cpu b.cpu
    && str_eq a.optimize b.optimize
    && same_bool a.strip b.strip
    && str_eq a.toolchain b.toolchain

-- The pins of a build: whether its path is absolute and its two hashes are full.
pub record Pin : Type 0 where
  pub is_absolute : Bool
  pub has_hashes : Bool
  pub build : Option Build

-- `key not in pin`
unfoldable pub build_of : Option Build → Result Build
build_of none = raised value_error
build_of (some b) = ok b

unfoldable pub check_pin : Pin → Result Build
unfolding build_of
check_pin pin = do
  guard pin.is_absolute value_error
  guard pin.has_hashes value_error
  build_of pin.build

-- A number of the configuration, in thousandths; a bool or a text is no number, and neither are infinities.
pub data Given : Type 0 where
  absent not_number : Given
  thousandths : (is_int negative : Bool) → ℕ → Given

pub record Config : Type 0 where
  pub enabled : Bool
  pub paths_absolute : Bool
  pub has_memory_max : Bool
  pub has_manifest_hash : Bool
  pub candidate_pin : Pin
  pub base_pin : Pin
  pub budget : Given
  pub reps : Given
  pub noise : Given

-- cfg.get(…, default), in thousandths, if the test allows it
unfoldable pub allowed : Given → (default : ℕ) → ((is_int negative : Bool) → ℕ → Bool) → Result ℕ
allowed absent default test = if test true false default then ok default else raised value_error
allowed not_number default test = raised value_error
allowed (thousandths is_int negative n) default test =
    if test is_int negative n then ok n else raised value_error

pub record Limits : Type 0 where
  pub budget : ℕ
  pub reps : ℕ
  pub noise : ℕ

abbrev pub budget_test : (is_int negative : Bool) → ℕ → Bool
budget_test is_int negative n = not negative && ltb 0 n && leb n 120000

abbrev pub reps_test : (is_int negative : Bool) → ℕ → Bool
reps_test is_int negative n = is_int && not negative && leb 1000 n && leb n 10000

abbrev pub noise_test : (is_int negative : Bool) → ℕ → Bool
noise_test is_int negative n = not negative || (n == 0)

-- load: its tests, in order, and the limits in thousandths
unfoldable pub load : Config → Result Limits
unfolding check_pin same_build allowed
load cfg = do
  guard cfg.enabled value_error
  guard cfg.paths_absolute value_error
  guard cfg.has_memory_max value_error
  guard cfg.has_manifest_hash value_error
  a ← check_pin cfg.candidate_pin
  b ← check_pin cfg.base_pin
  guard (same_build a b) value_error
  budget ← allowed cfg.budget 90000 budget_test
  reps ← allowed cfg.reps 3000 reps_test
  noise ← allowed cfg.noise 0 noise_test
  ok (record { budget = budget; reps = reps; noise = noise })
