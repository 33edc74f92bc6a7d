-- ===== src/Bench/Quick/Manifest/Laws.antt =====
-- What an accepted manifest asks for.
use zpq.Common.{
  ◌≡◌, refl, sym, ap, subst, ◌⊎◌, ◌↔◌, ◌∙◌, Bool, true, not, ◌&&◌, List, [], ◌∷◌, inl, inr,
}
use zpq.Common.Tests.{both}
use zpq.Common.Result.{ok, ok-injective, >>=-eq-ok, guard->>-eq-ok, value_error}
use zpq.Bench.Names.{elem, is_nil}
use zpq.Bench.Names.Members.{elem-Mem, mem-of-filter, filter-mem, Mem-elem}
use zpq.Bench.Quick.{Engine}
use zpq.Bench.Quick.Manifest.{
  Entry, unique, is_safe_name, engines_of, check_case, check_cases, subset, ids_of, requested,
  manifest_cases,
}
use zpq.Common.Lists.{All, All-of-Mem}
use mathlib.Core.List.{Memᴰ}
use mathlib.Core.List.Memᴰ as Memᴰ
use Prim.Native.String.{String}

-- What the tests of one case grant it.
pub record IsFit (files : List String) (c : Entry) : Type 0 where
  pub safe : is_safe_name c.id ≡ true
  pub pinned : Memᴰ c.file files
  pub engines : (es : List Engine) × (engines_of c.engines ≡ ok es)

check_case-IsFit :
    (files : List String) (c : Entry) {es : List Engine}
    → check_case files c ≡ ok es
    → IsFit files c
unfolding check_case
check_case-IsFit files c {es} h =
    let (safe, rest) = guard->>-eq-ok (is_safe_name c.id) value_error h in
    let (pinned, engines) = guard->>-eq-ok (elem c.file files) value_error rest in
    record { safe = safe; pinned = elem-Mem c.file files pinned; engines = (es, engines) }

check_cases-IsFit :
    (files : List String) (cases : List Entry) {u : Unit {0}}
    → check_cases files cases ≡ ok u
    → (c : Entry) → Memᴰ c cases
    → IsFit files c
unfolding check_cases
check_cases-IsFit files [] h c m = absurd (Memᴰ.not-nil m)
check_cases-IsFit files (x ∷ cases) h c m =
    let (es, first, rest) = >>=-eq-ok (check_case files x) _ h in
    elim (Memᴰ.cases_cons m) [
      | inl same ↦ check_case-IsFit files c (ap (check_case files) same ∙ first)
      | inr later ↦ check_cases-IsFit files cases rest c later
    ]

subset-Mem : (xs ys : List String) → subset xs ys ≡ true → (x : String) → Memᴰ x xs → Memᴰ x ys
unfolding subset
subset-Mem [] ys h x m = absurd (Memᴰ.not-nil m)
subset-Mem (z ∷ xs) ys h x m =
    let (here, later) = both (elem z ys) (subset xs ys) h in
    elim (Memᴰ.cases_cons m) [
      | inl same ↦ elem-Mem x ys (ap (λ z. elem z ys) same ∙ here)
      | inr there ↦ subset-Mem xs ys later x there
    ]

mem-of-ids :
    (cases : List Entry) (x : String)
    → Memᴰ x (ids_of cases)
    → (c : Entry) × Memᴰ c cases × (c.id ≡ x)
mem-of-ids [] x m = absurd (Memᴰ.not-nil m)
mem-of-ids (c ∷ cases) x m = elim (Memᴰ.cases_cons m) [
  | inl same ↦ (c, Memᴰ.head refl, sym same)
  | inr later ↦ let (d, there, is_id) = mem-of-ids cases x later in (d, Memᴰ.tail there, is_id)
]

ids-mem : (cases : List Entry) {c : Entry} → Memᴰ c cases → Memᴰ c.id (ids_of cases)
ids-mem [] m = absurd (Memᴰ.not-nil m)
ids-mem (x ∷ cases) m = elim (Memᴰ.cases_cons m) [
  | inl same ↦ Memᴰ.head (ap Entry.id same)
  | inr later ↦ Memᴰ.tail (ids-mem cases later)
]

-- What `requested` keeps, and that it finds each name.
requested_iff :
    (only : List String) (cases : List Entry) {kept : List Entry}
    → requested only cases ≡ ok kept
    → ((c : Entry) → Memᴰ c kept ↔ (Memᴰ c cases × ((only ≡ []) ⊎ Memᴰ c.id only)))
      × ((x : String) → Memᴰ x only → Memᴰ x (ids_of kept))
unfolding requested
requested_iff [] cases h =
    let same = ok-injective h in
    (
      λ c. (λ m. (subst (Memᴰ c) (sym same) m, inl refl), λ (m, _). subst (Memᴰ c) same m),
      λ x m. absurd (Memᴰ.not-nil m),
    )
requested_iff (y ∷ ys) cases {kept} h =
    let (known, later) = guard->>-eq-ok (subset (y ∷ ys) (ids_of cases)) value_error h in
    let same = ok-injective later in
    let test : Entry → Bool = λ c. elem c.id (y ∷ ys) in
    (
      λ c. (
        λ m.
            let (there, passes) = mem-of-filter test cases (subst (Memᴰ c) (sym same) m) in
            (there, inr (elem-Mem c.id (y ∷ ys) passes)),
        λ (m, asked). elim asked [
          | inl none_ ↦ cc
          | inr among ↦ subst (Memᴰ c) same (filter-mem test cases m (Mem-elem c.id (y ∷ ys) among))
        ],
      ),
      λ x m.
          let (c, there, is_id) =
            mem-of-ids cases x (subset-Mem (y ∷ ys) (ids_of cases) known x m) in
          let asked : test c ≡ true = ap (λ x. elem x (y ∷ ys)) is_id ∙ Mem-elem x (y ∷ ys) m in
          subst (λ x. Memᴰ x (ids_of kept)) is_id
            (ids-mem kept (subst (Memᴰ c) same (filter-mem test cases there asked))),
    )

-- The cases of an accepted manifest are fit and have unique ids; a case is asked for iff the manifest has it and
-- no ids were requested or its id is among them, and each id requested is that of a case.
pub manifest_cases-asked :
    (files : List String) (cases : List Entry) (only : List String) (kept : List Entry) (c : Entry)
    → manifest_cases files cases only ≡ ok kept
    → (Memᴰ c kept ↔ (Memᴰ c cases × ((only ≡ []) ⊎ Memᴰ c.id only)))
      × All (IsFit files) kept
      × All (λ x. Memᴰ x (ids_of kept)) only
      × (unique (ids_of cases) ≡ true)
unfolding manifest_cases
manifest_cases-asked files cases only kept c h =
    let (named, rest) =
      guard->>-eq-ok (not (is_nil cases) && unique (ids_of cases)) value_error h in
    let (u, fit, last) = >>=-eq-ok (check_cases files cases) _ rest in
    let (among, found) = requested_iff only cases last in
    (
      among c,
      All-of-Mem kept (λ c m. check_cases-IsFit files cases fit c (((among c).0 m).0)),
      All-of-Mem only found,
      (both (not (is_nil cases)) (unique (ids_of cases)) named).1,
    )
