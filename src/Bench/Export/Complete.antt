-- ===== src/Bench/Export/Complete.antt =====
-- What an engine's results at a case are, where the export calls them complete.
use zpq.Common.{
  ℕ, ◌≤◌, ◌≡◌, ◌≢◌, refl, sym, ap, ◌∙◌, Bool, true, false, not, ◌||◌, List, [], ◌∷◌, map, inl, inr,
  arith,
}
use zpq.Common.Tests.{leb, leb→le, ◌==◌, ==_iff, both, Bool-cases, if◌then◌else◌}
use zpq.Common.Lists.{All, All-of-Mem, length}
use zpq.Common.Result.{ok, value_error, key_error, guard->>-eq-ok, ok-injective}
use zpq.Bench.Names.{elem, filter, is_nil}
use zpq.Bench.Names.Members.{mem-of-filter, filter-mem}
use zpq.Bench.Export.Writes.{neither}
use zpq.Bench.Export.Attempts.{
  SavedAttempt, SavedRun, Summary, CellState, failed, complete, pending, quarantined, accepted,
  latest, at_case, by_engine, is_in_cohort, cohort_of, is_repeated, has_distinct_reps, is_failure,
  cell_state, with_score, times_there, times_valid, is_complete, engine_summary,
}
use mathlib.Core.List.{Memᴰ}
use mathlib.Core.List.Memᴰ as Memᴰ
use Prim.Native.String.{String}
use text.Mathlib.Text.{◌==◌ as str_eq}
use text.Mathlib.TextEquality.{eq_iff}

-- A saved attempt of the engine at the case, no warmup; of a native run, one of the last round of the case.
abbrev pub IsCurrent : SavedRun → String → String → SavedAttempt → Type 0
IsCurrent run c e x =
    Memᴰ x run.records
    × (x.case ≡ c)
    × (x.engine ≡ e)
    × (1 ≤ x.raw.rep)
    × (run.is_native ≡ true
        → (y : SavedAttempt) → Memᴰ y run.records
        → y.case ≡ c
        → y.raw.round ≤ x.raw.round)

abbrev pub DistinctReps : List SavedAttempt → Type 0
DistinctReps [] = Unit
DistinctReps (x ∷ xs) = All (λ y. x.raw.rep ≢ y.raw.rep) xs × DistinctReps xs

le-latest : (xs : List SavedAttempt) {x : SavedAttempt} → Memᴰ x xs → x.raw.round ≤ latest xs
unfolding latest
le-latest [] m = absurd (Memᴰ.not-nil m)
le-latest (y ∷ xs) {x} m = elim (Memᴰ.cases_cons m) [
  | inl same ↦
      let e : x.raw.round ≡ y.raw.round = ap (λ (x : SavedAttempt). x.raw.round) same in omega arith
  | inr later ↦ omega (arith, le-latest xs later)
]

latest-le :
    (xs : List SavedAttempt) (n : ℕ)
    → ((x : SavedAttempt) → Memᴰ x xs → x.raw.round ≤ n)
    → latest xs ≤ n
unfolding latest
latest-le [] n h = omega arith
latest-le (y ∷ xs) n h =
    let here = h y (Memᴰ.head refl) in
    let rest = latest-le xs n (λ x m. h x (Memᴰ.tail m)) in omega arith

module _ (run : SavedRun) (c e : String) where
  cohort_of-IsCurrent : {x : SavedAttempt} → Memᴰ x (cohort_of run c e) → IsCurrent run c e x
  unfolding cohort_of
  cohort_of-IsCurrent {x} m =
      let (mine, current) =
        mem-of-filter (is_in_cohort run c) (filter (by_engine c e) run.records) m in
      let (saved, named) = mem-of-filter (by_engine c e) run.records mine in
      let (at, by) = both (str_eq x.case c) (str_eq x.engine e) named in
      let (counted, last) =
        both (leb 1 x.raw.rep)
          (not run.is_native || (x.raw.round == latest (filter (at_case c) run.records))) current in
      (
        saved,
        (eq_iff x.case c).0 at,
        (eq_iff x.engine e).0 by,
        leb→le 1 x.raw.rep counted,
        λ native y there same.
            let is_last =
              (==_iff x.raw.round (latest (filter (at_case c) run.records))).0
                (rw native at last) in
            let below =
              le-latest (filter (at_case c) run.records)
                (filter-mem (at_case c) run.records there ((eq_iff y.case c).1 same)) in
            omega arith,
      )

  IsCurrent-cohort_of : (x : SavedAttempt) → IsCurrent run c e x → Memᴰ x (cohort_of run c e)
  unfolding cohort_of
  IsCurrent-cohort_of x (saved, at, by, counted, last) =
      let named : by_engine c e x ≡ true =
        rw ((eq_iff x.case c).1 at, (eq_iff x.engine e).1 by) refl in
      let mine = filter-mem (by_engine c e) run.records saved named in
      let repeats : leb 1 x.raw.rep ≡ true = ground arith in
      let newest : not run.is_native || (x.raw.round == latest (filter (at_case c) run.records))
          ≡ true =
        elim (Bool-cases run.is_native) [
          | inr legacy ↦ rw legacy refl
          | inl native ↦
              let above =
                le-latest (filter (at_case c) run.records)
                  (filter-mem (at_case c) run.records saved ((eq_iff x.case c).1 at)) in
              let below = latest-le (filter (at_case c) run.records) x.raw.round (λ y m.
                let (there, same) = mem-of-filter (at_case c) run.records m in
                last native y there ((eq_iff y.case c).0 same)) in
              rw native
                ((==_iff x.raw.round (latest (filter (at_case c) run.records))).1 (omega arith))
        ] in
      filter-mem (is_in_cohort run c) (filter (by_engine c e) run.records) mine
        (rw (repeats, newest) refl)

is_repeated-All :
    (n : ℕ) (xs : List SavedAttempt) → is_repeated n xs ≡ false → All (λ y. n ≢ y.raw.rep) xs
unfolding is_repeated
is_repeated-All n [] h = tt
is_repeated-All n (x ∷ xs) h =
    let (other, rest) = neither (n == x.raw.rep) (is_repeated n xs) h in
    (λ same. differ other ((==_iff n x.raw.rep).1 same), is_repeated-All n xs rest)
  where
    differ : {b : Bool} → b ≡ false → b ≡ true → ⊥
    differ h k = cc

has_distinct_reps-DistinctReps :
    (xs : List SavedAttempt) → has_distinct_reps xs ≡ true → DistinctReps xs
unfolding has_distinct_reps
has_distinct_reps-DistinctReps [] h = tt
has_distinct_reps-DistinctReps (x ∷ xs) h =
    let (once, rest) = both (not (is_repeated x.raw.rep xs)) (has_distinct_reps xs) h in
    (is_repeated-All x.raw.rep xs (ground arith), has_distinct_reps-DistinctReps xs rest)

nothing :
    (test : SavedAttempt → Bool) (xs : List SavedAttempt) {x : SavedAttempt}
    → is_nil (filter test xs) ≡ true
    → Memᴰ x xs
    → test x ≡ false
nothing test xs {x} h m = elim (Bool-cases (test x)) [
  | inr out ↦ out
  | inl passes ↦ absurd (empty (filter test xs) h (filter-mem test xs m passes))
]
  where
    empty : (ys : List SavedAttempt) {y : SavedAttempt} → is_nil ys ≡ true → Memᴰ y ys → ⊥
    empty [] h m = Memᴰ.not-nil m
    empty (y ∷ ys) h m = cc

-- A state that is complete in the end.
with_score-complete :
    (run : SavedRun) (c : String) (s : CellState)
    → with_score run c s ≡ complete
    → (s ≡ complete)
      × (run.is_native ≡ true
          → (elem c run.quarantined ≡ false) × (elem c run.pending_rerun ≡ false))
unfolding with_score
with_score-complete run c s h = (ground arith, λ native. (ground arith, ground arith))

cell_state-complete :
    (bad good : List SavedAttempt) (n : ℕ)
    → cell_state bad good n ≡ complete
    → (is_nil bad ≡ true) × (length good ≡ n)
unfolding cell_state
cell_state-complete bad good n h = (ground arith, ground arith)

-- In any other state no sequence is exported.
pub engine_summary-silent :
    (run : SavedRun) (c e : String) (s : Summary)
    → engine_summary run c e ≡ ok s
    → s.state ≢ complete
    → s.sequences ≡ []
unfolding engine_summary
engine_summary-silent run c e s h other =
    let good : List SavedAttempt = filter (λ x. accepted x.raw) (cohort_of run c e) in
    let state : CellState =
      with_score run c (cell_state (filter is_failure (cohort_of run c e)) good (run.reps c)) in
    let (distinct, rest) = guard->>-eq-ok (has_distinct_reps good) value_error h in
    let (there, rest2) = guard->>-eq-ok (times_there good) key_error rest in
    let (valid, made) = guard->>-eq-ok (times_valid good) value_error rest2 in
    let same = ok-injective made in
    sym (ap (λ (s : Summary). s.sequences) same)
    ∙ unsaid state (λ done. other (sym (ap (λ (s : Summary). s.state) same) ∙ done))
        (map (λ x. x.sequence) good)
  where
    unsaid :
        (s : CellState) → s ≢ complete → (xs : List ℕ) → (if is_complete s then xs else []) ≡ []
    unsaid failed h xs = refl
    unsaid complete h xs = absurd (h refl)
    unsaid pending h xs = refl
    unsaid quarantined h xs = refl

-- Where engine_summary gives a summary whose state is complete, the exported sequences are those of exactly the
-- accepted ones among the engine's current attempts at the case; they are as many as the planned repetitions, no
-- two of the same repetition, none of the current attempts has failed, and the score of a native run neither
-- quarantines the case nor leaves it pending.
pub engine_summary-complete :
    (run : SavedRun) (c e : String) (s : Summary)
    → engine_summary run c e ≡ ok s
    → s.state ≡ complete
    → (good : List SavedAttempt) × (s.sequences ≡ map (λ x. x.sequence) good)
      × All (λ x. IsCurrent run c e x × (accepted x.raw ≡ true)) good
      × ((x : SavedAttempt) → IsCurrent run c e x → accepted x.raw ≡ true → Memᴰ x good)
      × (length good ≡ run.reps c)
      × (s.count ≡ length good)
      × DistinctReps good
      × ((x : SavedAttempt) → IsCurrent run c e x → is_failure x ≡ false)
      × (run.is_native ≡ true
          → (elem c run.quarantined ≡ false) × (elem c run.pending_rerun ≡ false))
unfolding engine_summary
engine_summary-complete run c e s h done =
    let good : List SavedAttempt = filter (λ x. accepted x.raw) (cohort_of run c e) in
    let bad : List SavedAttempt = filter is_failure (cohort_of run c e) in
    let state : CellState = with_score run c (cell_state bad good (run.reps c)) in
    let (distinct, rest) = guard->>-eq-ok (has_distinct_reps good) value_error h in
    let (there, rest2) = guard->>-eq-ok (times_there good) key_error rest in
    let (valid, made) = guard->>-eq-ok (times_valid good) value_error rest2 in
    let same = ok-injective made in
    let is_state : state ≡ complete = ap (λ (s : Summary). s.state) same ∙ done in
    let seqs : (if is_complete state then map (λ x. x.sequence) good else []) ≡ s.sequences =
      ap (λ (s : Summary). s.sequences) same in
    let (cell, native) = with_score-complete run c (cell_state bad good (run.reps c)) is_state in
    let (none_bad, many) = cell_state-complete bad good (run.reps c) cell in
    (
      good,
      sym (rw is_state at seqs),
      All-of-Mem good (λ x m.
          let (among, fine) = mem-of-filter (λ x. accepted x.raw) (cohort_of run c e) m in
          (cohort_of-IsCurrent run c e among, fine)),
      λ x current fine.
          filter-mem (λ x. accepted x.raw) (cohort_of run c e)
            (IsCurrent-cohort_of run c e x current) fine,
      many,
      sym (ap (λ (s : Summary). s.count) same),
      has_distinct_reps-DistinctReps good distinct,
      λ x current.
          nothing is_failure (cohort_of run c e) none_bad (IsCurrent-cohort_of run c e x current),
      native,
    )
