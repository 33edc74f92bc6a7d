-- ===== src/Bench/Score/Verdicts.antt =====
-- What a COMPLETE verdict certifies.
use zpq.Common.{
  ℕ, ◌*◌, ◌≤◌, max, ◌≡◌, refl, sym, subst, ◌∙◌, Bool, true, false, not, ◌||◌, List, [], ◌∷◌, inl,
  inr, arith,
}
use zpq.Common.Tests.{ltb, if◌then◌else◌, Bool-cases}
use zpq.Common.Lists.{length}
use zpq.Bench.Names.{elem, filter, is_nil}
use zpq.Bench.Names.Members.{elem-Mem, filter-mem}
use zpq.Bench.Stalls.{Record, Item, evidence, last_round, disturbed_last, quarantine}
use zpq.Bench.Stalls.Laws.{quarantine_iff, disturbed_last-mem}
use zpq.Bench.Score.{
  table_of, names_of, insert_name, sort_names, pending, missing, complete, uncertified,
  incomplete_lane, verdict,
}
use mathlib.Core.List.{Memᴰ}
use mathlib.Core.List.Memᴰ as Memᴰ
use Prim.Native.String.{String, compare}
use text.Mathlib.Text.{is_le}

insert_name-full : (x : String) (ys : List String) → is_nil (insert_name x ys) ≡ false
unfolding insert_name
insert_name-full x [] = refl
insert_name-full x (y ∷ ys) = elim (Bool-cases (is_le (compare x y))) [
  | inl e ↦ rw e refl
  | inr e ↦ rw e refl
]

sort_names-nil : (xs : List String) → is_nil (sort_names xs) ≡ true → is_nil xs ≡ true
unfolding sort_names
sort_names-nil [] h = refl
sort_names-nil (x ∷ xs) h = absurd (false_is_true (sym (insert_name-full x (sort_names xs)) ∙ h))
  where
    false_is_true : false ≡ true → ⊥
    false_is_true e = cc

-- Nothing passes the test of a filter that leaves nothing.
filter-nil :
    (test : String → Bool) (xs : List String) {x : String}
    → is_nil (filter test xs) ≡ true
    → Memᴰ x xs
    → test x ≡ false
filter-nil test xs {x} h m = elim (Bool-cases (test x)) [
  | inl passes ↦ absurd (nothing (filter test xs) h (filter-mem test xs m passes))
  | inr fails ↦ fails
]
  where
    nothing : (ys : List String) → is_nil ys ≡ true → Memᴰ x ys → ⊥
    nothing [] h m = Memᴰ.not-nil m
    nothing (y ∷ ys) h m = cc

not-false : (b : Bool) → not b ≡ false → b ≡ true
not-false b h = ground arith

-- A lane is COMPLETE only on a host with PSI and out of a smoke run; then every planned case has a row, at
-- most one case in fifty (or none, below fifty) is quarantined, and every case with evidence of a
-- disturbance in its last round has had all its re-runs.
pub verdict-complete :
    (psi smoke : Bool) (reps : ℕ) (records : List Record) (planned : List String) (max_round : ℕ)
    → verdict psi smoke reps records planned max_round ≡ complete
    → (psi ≡ true)
      × (smoke ≡ false)
      × ((c : String) → Memᴰ c planned → Memᴰ c (names_of (table_of reps records)))
      × (50 * length (quarantine records max_round) ≤ max 1 (length planned))
      × ((c : String) (items : List Item)
          → Memᴰ (c, items) (evidence records (last_round records c))
          → max_round ≤ last_round records c)
unfolding verdict pending missing
verdict-complete psi smoke reps records planned max_round h =
    let (has_psi, no_smoke, all_there, none_pending, few) =
      tests (is_nil (missing (table_of reps records) planned)) (is_nil (pending records max_round))
        (ltb (max 1 (length planned)) (50 * length (quarantine records max_round))) psi smoke h in
    (
      has_psi,
      no_smoke,
      λ c m. elem-Mem c _ (
          not-false _ (
            filter-nil (λ x. not (elem x (names_of (table_of reps records)))) planned
              (sort_names-nil _ all_there) m)),
      ground (arith, few),
      λ c items m. rerun c (
          elem-Mem c _ (
            not-false _ (
              filter-nil (λ x. not (elem x (names_of (quarantine records max_round))))
                (disturbed_last records) (sort_names-nil _ none_pending)
                (disturbed_last-mem records c items m)))),
    )
  where
    tests :
        (a b d psi smoke : Bool)
        → (if not a || not b || d
            then incomplete_lane
            else if not psi || smoke
            then uncertified
            else complete)
          ≡ complete
        → (psi ≡ true) × (smoke ≡ false) × (a ≡ true) × (b ≡ true) × (d ≡ false)
    tests a b d psi smoke h = ground arith

    rerun :
        (c : String)
        → Memᴰ c (names_of (quarantine records max_round))
        → max_round ≤ last_round records c
    rerun c m =
        let ((d, items), held, is_c) =
          Memᴰ.of_map (λ (e : String × List Item). e.0) (quarantine records max_round) m in
        subst (λ k. max_round ≤ last_round records k) is_c
          ((quarantine_iff records max_round d items).0 held).1
