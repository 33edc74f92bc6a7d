-- ===== src/Bench/Requests/Inputs/Dependencies.antt =====
-- What an input plan covers, and how its bytes add up.
use zpq.Common.{
  ℕ, ◌+◌, ◌≡◌, refl, sym, ap, ap₂, subst, true, false, ◌&&◌, Option, none, some, List, [], ◌∷◌,
  ◌++◌, map, inl, inr, arith,
}
use zpq.Common.Tests.{◌==◌, Bool-cases, both, ==_iff}
use zpq.Common.Lists.{All, All-of-Mem, All-weaken}
use zpq.Common.Result.{ok, ok-injective, >>=-eq-ok, guard->>-eq-ok, value_error}
use zpq.Bench.Names.{keys, is_nil}
use zpq.Bench.Names.Members.{keys-mem, mem-of-filter}
use zpq.Bench.Score.{insert_name, sort_names}
use zpq.Bench.Requests.Values.{is_hex}
use zpq.Bench.Requests.Inputs.{
  Object, Dependency, Catalog, Located, Inventory, Planned, Plan, Wish, depends, object_of, size_at,
  needed, sorted_set, has_size, plan_object, plan_objects, bytes_of, is_present, plan_of,
  known_needs, input_plan,
}
use mathlib.Core.List.{Memᴰ}
use mathlib.Core.List.Memᴰ as Memᴰ
use Prim.Native.String.{String, compare}
use text.Mathlib.Text.{is_le}

bytes_of-splits :
    (ps : List Planned)
    → bytes_of (λ p. true) ps ≡ bytes_of (λ p. is_nil p.local_paths) ps + bytes_of is_present ps
unfolding bytes_of
bytes_of-splits [] = refl
bytes_of-splits (p ∷ ps) = elim (Bool-cases (is_nil p.local_paths)) [
  | inl absent ↦ rw absent (omega (arith, bytes_of-splits ps))
  | inr present ↦ rw present (omega (arith, bytes_of-splits ps))
]

insert_name-mem :
    (x : String) (ys : List String) {k : String} → Memᴰ k (x ∷ ys) → Memᴰ k (insert_name x ys)
unfolding insert_name
insert_name-mem x [] m = m
insert_name-mem x (y ∷ ys) {k} m = elim (Bool-cases (is_le (compare x y))) [
  | inl before ↦ rw before m
  | inr behind ↦ rw behind (elim (Memᴰ.cases_cons m) [
    | inl same ↦ Memᴰ.tail (insert_name-mem x ys (Memᴰ.head same))
    | inr there ↦ elim (Memᴰ.cases_cons there) [
      | inl same ↦ Memᴰ.head same
      | inr later ↦ Memᴰ.tail (insert_name-mem x ys (Memᴰ.tail later))
    ]
  ])
]

sort_names-mem : (xs : List String) {k : String} → Memᴰ k xs → Memᴰ k (sort_names xs)
unfolding sort_names
sort_names-mem [] m = m
sort_names-mem (x ∷ xs) m = insert_name-mem x (sort_names xs) (elim (Memᴰ.cases_cons m) [
  | inl same ↦ Memᴰ.head same
  | inr later ↦ Memᴰ.tail (sort_names-mem xs later)
])

sorted_set-mem : (xs : List String) {k : String} → Memᴰ k xs → Memᴰ k (sorted_set xs)
unfolding sorted_set
sorted_set-mem xs m = sort_names-mem (keys (λ x. x) xs) (keys-mem (λ x. x) xs m)

-- The dependencies of a case, all of them among some keys.
abbrev pub Covered : List Dependency → List String → String → Type 0
Covered ds among c =
    (here : List String) × (depends c ds ≡ some here) × All (λ k. Memᴰ k among) here

Covered-more :
    (ds : List Dependency) (xs ys : List String) (c : String)
    → ((k : String) → Memᴰ k xs → Memᴰ k ys)
    → Covered ds xs c
    → Covered ds ys c
Covered-more ds xs ys c more (here, is_here, covered) =
    (here, is_here, All-weaken here more covered)

some_injective : {A : Type 0} {a b : A} → some a ≡ some b → a ≡ b
some_injective h = cc

needed-Covered :
    (ds : List Dependency) (cs : List String) {xs : List String}
    → needed ds cs ≡ some xs
    → All (Covered ds xs) cs
unfolding needed
needed-Covered ds [] h = tt
needed-Covered ds (c ∷ cs) {xs} h =
    go (depends c ds) (needed ds cs) refl (λ rest q. needed-Covered ds cs q) h
  where
    go :
        (first later : Option (List String))
        → depends c ds ≡ first
        → ((rest : List String) → later ≡ some rest → All (Covered ds rest) cs)
        → elim first [
          | none ↦ none
          | some here ↦ elim later [ none ↦ none | some rest ↦ some (here ++ rest) ]
        ]
          ≡ some xs
        → All (Covered ds xs) (c ∷ cs)
    go none later p q h = cc
    go (some here) none p q h = cc
    go (some here) (some rest) p q h =
        let same : here ++ rest ≡ xs = some_injective h in
        (
          (here, p, All-of-Mem here (λ k m. subst (Memᴰ k) same (Memᴰ.append_left rest m))),
          All-weaken cs
              (λ c.
                Covered-more ds rest xs c (λ k m. subst (Memᴰ k) same (Memᴰ.append_right here m)))
              (q rest refl),
        )

-- What is promised of an object of a plan: a full hash, and local paths that the inventory has with its size.
abbrev pub Found : List Located → Planned → Type 0
Found files p =
    (is_hex 64 p.sha256 ≡ true) × All (λ path. size_at path files ≡ some p.bytes) p.local_paths

has_size-at :
    (files : List Located) (n : ℕ) (path : String)
    → has_size files n path ≡ true
    → size_at path files ≡ some n
has_size-at files n path h = go (size_at path files) h
  where
    go : (o : Option ℕ) → elim o [ none ↦ false | some m ↦ m == n ] ≡ true → o ≡ some n
    go none h = cc
    go (some m) h = ap some ((==_iff m n).0 h)

plan_object-Found :
    (files : List Located) (key : String) (o : Option Object) {p : Planned}
    → plan_object files key o ≡ ok p
    → (p.sha256 ≡ key) × Found files p
unfolding plan_object
plan_object-Found files key none h = cc
plan_object-Found files key (some o) {p} h =
    let (pinned, h) = guard->>-eq-ok (is_hex 64 key && o.is_count) value_error h in
    subst (λ (p : Planned). (p.sha256 ≡ key) × Found files p) (ok-injective h)
      (
        refl,
        (
          (both (is_hex 64 key) o.is_count pinned).0,
          All-of-Mem _
              (λ path m. has_size-at files o.bytes path (mem-of-filter _ o.source_paths m).1),
        ),
      )

abbrev pub keys_of : List Planned → List String
keys_of = map Planned.sha256

plan_objects-Found :
    (files : List Located) (os : List Object) (ks : List String) {ps : List Planned}
    → plan_objects files os ks ≡ ok ps
    → (keys_of ps ≡ ks) × All (Found files) ps
unfolding plan_objects
plan_objects-Found files os [] {ps} h =
    subst (λ ps. (keys_of ps ≡ []) × All (Found files) ps) (ok-injective h) (refl, tt)
plan_objects-Found files os (key ∷ ks) h =
    let (p, first, h) = >>=-eq-ok (plan_object files key (object_of key os)) _ h in
    let (qs, later, h) = >>=-eq-ok (plan_objects files os ks) _ h in
    let (is_key, found) = plan_object-Found files key (object_of key os) first in
    let (are_keys, all_found) = plan_objects-Found files os ks later in
    subst (λ ps. (keys_of ps ≡ key ∷ ks) × All (Found files) ps) (ok-injective h)
      (ap₂ (λ k ks. k ∷ ks) is_key are_keys, (found, all_found))

known_needs-eq : (o : Option (List String)) {xs : List String} → known_needs o ≡ ok xs → o ≡ some xs
unfolding known_needs
known_needs-eq none h = cc
known_needs-eq (some ys) h = ap some (ok-injective h)

-- A plan has every object on which a target or a control depends, by the catalog; each of its local paths is in
-- the inventory with the object's size; and the bytes required are those missing and those to verify.
pub input_plan-Covered :
    (request : Wish) (catalog : Catalog) (inventory : Inventory) (plan : Plan)
    → input_plan request catalog inventory ≡ ok plan
    → All
        (Covered catalog.case_dependencies (keys_of plan.objects))
        (request.targets ++ request.controls)
      × All (Found inventory.files) plan.objects
      × (plan.required_bytes ≡ plan.missing_bytes + plan.verification_bytes)
unfolding input_plan plan_of
input_plan-Covered request catalog inventory plan h =
    let (_, h) = guard->>-eq-ok _ value_error h in
    let (_, h) = guard->>-eq-ok _ value_error h in
    let ds = catalog.case_dependencies in
    let cs = request.targets ++ request.controls in
    let (needs, known, h) = >>=-eq-ok (known_needs (needed ds cs)) _ h in
    let (_, h) = guard->>-eq-ok _ value_error h in
    let (ps, planned, h) =
      >>=-eq-ok (plan_objects inventory.files catalog.objects (sorted_set needs)) _ h in
    let (are_keys, found) =
      plan_objects-Found inventory.files catalog.objects (sorted_set needs) planned in
    subst
      (λ (plan : Plan).
        All (Covered ds (keys_of plan.objects)) cs
        × All (Found inventory.files) plan.objects
        × (plan.required_bytes ≡ plan.missing_bytes + plan.verification_bytes))
      (ok-injective h)
      (
        All-weaken cs
            (λ c.
              Covered-more ds needs (keys_of ps) c
                (λ k m. subst (Memᴰ k) (sym are_keys) (sorted_set-mem needs m)))
            (needed-Covered ds cs (known_needs-eq (needed ds cs) known)),
        found,
        bytes_of-splits ps,
      )
