-- ===== src/Binding/Calls.antt =====
-- python/zpq.py: load_library, _run with _failure, and run, by what the library and the loader give.
use zpq.Common.{
  ℕ, ◌≡◌, refl, sym, ap, ◌∙◌, Bool, true, false, ◌&&◌, ◌||◌, ◌⊎◌, inl, inr, Option, none, some,
  List, [], ◌∷◌,
}
use zpq.Common.Tests.{◌==◌, if◌then◌else◌, Bool-cases, ==_iff}
use zpq.Common.Int.{ℤ, pos, negsuc, eqb_ℤ}
use zpq.Bench.Names.{is_nil}
use zpq.Binding.Rows.{
  Value, string, array, dict, Values, no_values, item, Columns, no_columns, column, lookup,
  with_decimals, exact_columns,
}
use zpq.Common.Result as Res
use zpq.Common.Result.{Result}
use mathlib.Core.List.{Memᴰ}
use Prim.Native.String.{String}
use text.Mathlib.Text.{◌==◌ as str_eq}

-- The exceptions of a call.
pub data Raised : Type 0 where
  memory_error closed_error invalid_error internal_error decode_error os_error : Raised

-- What zpq_run leaves: its status, whether the pointer is set, and the text there, if it is UTF-8.
pub record Answer : Type 0 where
  pub rc : ℤ
  pub pointer : Bool
  pub text : Option String

-- The exception of a status: ENOMEM, ECLOSED, EINVAL or another.
unfoldable pub error_of : ℤ → Raised
error_of rc =
    if eqb_ℤ rc (negsuc 1)
    then memory_error
    else if eqb_ℤ rc (negsuc 2)
    then closed_error
    else if eqb_ℤ rc (negsuc 0)
    then invalid_error
    else internal_error

-- _failure, and how often it frees the message; one that is not UTF-8 raises behind the free.
unfoldable pub failure : Answer → Raised × ℕ
unfolding error_of
failure a =
    if a.pointer
    then (elim a.text [ none ↦ decode_error | some t ↦ error_of a.rc ], 1)
    else (error_of a.rc, 0)

-- _run, and how often it frees.
unfoldable pub run_body : Answer → (Raised ⊎ String) × ℕ
unfolding failure
run_body a =
    if eqb_ℤ a.rc (pos 0)
    then (elim a.text [ none ↦ inl decode_error | some t ↦ inr t ], 1)
    else (inl (failure a).0, (failure a).1)

-- A path that may be the library: the bare name, a file that is there, one that the loader takes, and its ABI.
pub record Candidate : Type 0 where
  pub is_bare : Bool
  pub exists : Bool
  pub loads : Bool
  pub abi : ℕ

-- ABI_VERSION
abbrev pub abi_version : ℕ
abi_version = 1

-- [path] if path else _candidates(): $ZPQ_LIB if it is set, and the three places where a library may be.
unfoldable pub candidates : (path env : Option Candidate) → List Candidate → List Candidate
candidates (some p) env usual = p ∷ []
candidates none (some e) usual = e ∷ usual
candidates none none usual = usual

-- The loop of load_library: the first candidate that loads.
unfoldable pub first_loaded : List Candidate → Option Candidate
first_loaded [] = none
first_loaded (c ∷ cs) =
    let rest = first_loaded cs in if (c.is_bare || c.exists) && c.loads then some c else rest

-- load_library under its lock: the outcome, and what is kept.
unfoldable pub load_library :
    (kept : Option Candidate) → List Candidate → (Raised ⊎ Candidate) × Option Candidate
unfolding first_loaded
load_library (some lib) cs = (inr lib, some lib)
load_library none cs = elim (first_loaded cs) [
  | none ↦ (inl os_error, none)
  | some lib ↦ if lib.abi == abi_version then (inr lib, some lib) else (inl os_error, none)
]

unfoldable pub has : String → Columns → Bool
unfolding lookup
has key cs = elim (lookup key cs) [ none ↦ false | some v ↦ true ]

-- response[key] = value, where the key is there
unfoldable pub replace : String → Value → Columns → Columns
replace key v no_columns = no_columns
replace key v (column k w cs) =
    let rest = replace key v cs in column k (if str_eq k key then v else w) rest

-- set(response["decimal"]), of a list of names
unfoldable pub names_in : Values → List String
names_in no_values = []
names_in (item (string s) vs) = s ∷ names_in vs
names_in (item _ vs) = names_in vs

unfoldable pub decimal_names : Option Value → List String
unfolding names_in
decimal_names (some (array vs)) = names_in vs
decimal_names _ = []

-- The aggregate of a response, exact where columns are named; a response without an aggregate is left.
unfoldable pub exact_aggregate : List String → Columns → Option Value → Result Value
unfolding exact_columns with_decimals replace
exact_aggregate names cs none = Res.ok (dict cs)
exact_aggregate names cs (some agg) =
    if is_nil names
    then Res.ok (dict cs)
    else Res.◌>>=◌ (exact_columns names (with_decimals agg) agg)
        λ v. Res.ok (dict (replace "agg" v cs))

-- run, behind json.loads; an error of the engine is `refused`.
unfoldable pub respond : (check decimal : Bool) → Value → Result Value
unfolding has decimal_names exact_aggregate lookup
respond check decimal (dict cs) =
    if check && has "error" cs
    then Res.raised Res.refused
    else if decimal
    then exact_aggregate (decimal_names (lookup "decimal" cs)) cs (lookup "agg" cs)
    else Res.ok (dict cs)
respond check decimal v = Res.ok v

first_loaded-mem :
    (cs : List Candidate) {lib : Candidate} → first_loaded cs ≡ some lib → Memᴰ lib cs
unfolding first_loaded
first_loaded-mem [] h = cc
first_loaded-mem (c ∷ cs) {lib} h = elim (Bool-cases ((c.is_bare || c.exists) && c.loads)) [
  | inl takes ↦ Memᴰ.head (some_injective (rw (first_loaded, takes) at h))
  | inr passes ↦ Memᴰ.tail (first_loaded-mem cs (rw (first_loaded, passes) at h))
]
  where
    some_injective : some c ≡ some lib → lib ≡ c
    some_injective e = cc

-- A library that is loaded is one of the candidates and speaks the binding's ABI; it is kept, and every later call
-- is given it, whatever the candidates are then.
pub load_library_once :
    (cs later : List Candidate) (lib : Candidate) (kept : Option Candidate)
    → load_library none cs ≡ (inr lib, kept)
    → Memᴰ lib cs
      × (lib.abi ≡ 1)
      × (kept ≡ some lib)
      × (load_library kept later ≡ (inr lib, some lib))
unfolding load_library
load_library_once cs later lib kept h = go (first_loaded cs) refl h
  where
    go :
        (o : Option Candidate)
        → first_loaded cs ≡ o
        → ◌≡◌ {A = (Raised ⊎ Candidate) × Option Candidate}
            (elim o [
              | none ↦ (inl os_error, none)
              | some lib ↦
                  if lib.abi == abi_version then (inr lib, some lib) else (inl os_error, none)
            ])
            (inr lib, kept)
        → Memᴰ lib cs
          × (lib.abi ≡ 1)
          × (kept ≡ some lib)
          × (load_library kept later ≡ (inr lib, some lib))
    go none e h = absurd (failed h)
      where
        failed :
            ◌≡◌ {A = (Raised ⊎ Candidate) × Option Candidate} (inl os_error, none) (inr lib, kept)
            → ⊥
        failed p = cc
    go (some c) e h = elim (Bool-cases (c.abi == abi_version)) [
      | inr other ↦ absurd (failed (rw other at h))
      | inl speaks ↦ loaded ((==_iff c.abi 1).0 speaks) (rw speaks at h)
    ]
      where
        failed :
            ◌≡◌ {A = (Raised ⊎ Candidate) × Option Candidate} (inl os_error, none) (inr lib, kept)
            → ⊥
        failed p = cc

        same : ◌≡◌ {A = Raised ⊎ Candidate} (inr c) (inr lib) → c ≡ lib
        same p = cc

        loaded :
            c.abi ≡ 1
            → ◌≡◌ {A = (Raised ⊎ Candidate) × Option Candidate} (inr c, some c) (inr lib, kept)
            → Memᴰ lib cs
              × (lib.abi ≡ 1)
              × (kept ≡ some lib)
              × (load_library kept later ≡ (inr lib, some lib))
        loaded a p =
            let is_lib = same (ap (λ (r : (Raised ⊎ Candidate) × Option Candidate). r.0) p) in
            let is_kept =
              sym (ap (λ (r : (Raised ⊎ Candidate) × Option Candidate). r.1) p) ∙ ap some is_lib in
            (
              first_loaded-mem cs (e ∙ ap some is_lib),
              sym (ap Candidate.abi is_lib) ∙ a,
              is_kept,
              (rw is_kept refl),
            )
