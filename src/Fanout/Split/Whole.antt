-- ===== src/Fanout/Split/Whole.antt =====
-- Together the runs are the row groups of all inputs, each once and in order.
use zpq.Common.{
  ℕ, zero, suc, ◌+◌, ◌-◌, ◌*◌, ◌/◌, ◌≤◌, ◌<◌, min, ◌≡◌, refl, sym, ap, ap₂, ◌∙◌, List, [], ◌∷◌,
  ◌++◌, append-nil, append_assoc, arith,
}
use native.Mathlib.Nat.{zero-div, mul-div_right, le-div_iff_mul-le}
use zpq.Common.Lists.{take, drop, length, length-append, All}
use zpq.Fanout.Split.{RowGroup, Piece, units_from, build_run, bound, cut, runs_below, split}
use zpq.Fanout.Split.Cover.{Consecutive, expand, expand_all, build_run-nil}
use zpq.Fanout.Split.Balance.{bound_step, length-cut}
use zpq.Fanout.Split.Units.{units-Consecutive, Consecutive-drop, Consecutive-take}

take-nil : (n : ℕ) → take {A = RowGroup} n [] ≡ []
take-nil zero = refl
take-nil (suc n) = refl

take_further :
    (lo hi : ℕ) (us : List RowGroup)
    → lo ≤ hi
    → take lo us ++ take (hi - lo) (drop lo us) ≡ take hi us
take_further zero hi us h = ap (λ (n : ℕ). take n us) (omega arith)
take_further (suc lo) zero us h = absurd (omega arith)
take_further (suc lo) (suc hi) [] h = take-nil (suc hi - suc lo)
take_further (suc lo) (suc hi) (u ∷ us) h =
    let count : suc hi - suc lo ≡ hi - lo = omega arith in
    rw (count, take_further lo hi us (omega arith))

expand_all-snoc :
    (runs : List (List Piece)) (run : List Piece)
    → expand_all (runs ++ run ∷ []) ≡ expand_all runs ++ expand run
unfolding expand_all
expand_all-snoc [] run = append-nil (expand run)
expand_all-snoc (r ∷ runs) run = simp (expand_all-snoc runs run, append_assoc)

cut-Consecutive : (us : List RowGroup) (n k : ℕ) → Consecutive us → Consecutive (cut us n k)
cut-Consecutive us n k c = Consecutive-take _ _ (Consecutive-drop (bound (length us) n k) us c)

expand-runs_below :
    (us : List RowGroup) (n m : ℕ)
    → 0 < n
    → Consecutive us
    → expand_all (runs_below us n m) ≡ take (bound (length us) n m) us
unfolding runs_below expand_all
expand-runs_below us n zero h c = ap (λ (b : ℕ). take b us) zero_bound
  where
    zero_bound : 0 ≡ bound (length us) n 0
    zero_bound = let none : 0 * length us ≡ 0 = omega arith in rw none (sym (zero-div n))
expand-runs_below us n (suc m) h c =
    expand_all-snoc (runs_below us n m) (build_run [] (cut us n m))
    ∙ ap₂ (λ xs ys. xs ++ ys) (expand-runs_below us n m h c)
        (build_run-nil (cut us n m) (cut-Consecutive us n m c))
    ∙ take_further (bound (length us) n m) (bound (length us) n (suc m)) us
        (omega (arith, bound_step (length us) n m h))

take-length : (us : List RowGroup) → take (length us) us ≡ us
take-length [] = refl
take-length (u ∷ us) = ap (λ vs. u ∷ vs) (take-length us)

-- With a worker at least, the runs together list every row group of every input exactly once and in
-- order. (Without one there is no run.)
pub expand-split :
    (counts : List ℕ) (workers : ℕ)
    → 0 < workers
    → expand_all (split counts workers) ≡ units_from 0 counts
unfolding split expand_all
expand-split counts workers h = all (units_from 0 counts) (units-Consecutive 0 counts)
  where
    all :
        (us : List RowGroup)
        → Consecutive us
        → expand_all (runs_below us (min workers (length us)) (min workers (length us))) ≡ us
    all [] c = let none : min workers 0 ≡ 0 = omega arith in rw none
    all (u ∷ us) c =
        let n : ℕ = min workers (length (u ∷ us)) in
        expand-runs_below (u ∷ us) n n (omega arith) c
        ∙ ap (λ (b : ℕ). take b (u ∷ us)) (mul-div_right (length (u ∷ us)) (omega arith))
        ∙ take-length (u ∷ us)

-- What is asked of a run that serves one of `n` workers: it is not empty, and takes an n-th of the
-- row groups, rounded down or up.
abbrev pub Shares : List RowGroup → ℕ → List Piece → Type 0
Shares us n run =
    (0 < length (expand run))
    × (length us / n ≤ length (expand run))
    × (length (expand run) ≤ length us / n + 1)

All-snoc :
    (P : List Piece → Type 0) (runs : List (List Piece)) {run : List Piece}
    → All P runs
    → P run
    → All P (runs ++ run ∷ [])
All-snoc P [] h p = (p, tt)
All-snoc P (r ∷ runs) (q, h) p = (q, All-snoc P runs h p)

runs_below-Shares :
    (us : List RowGroup) (n m : ℕ)
    → Consecutive us
    → n ≤ length us
    → m ≤ n
    → All (Shares us n) (runs_below us n m) × (length (runs_below us n m) ≡ m)
unfolding runs_below
runs_below-Shares us n zero c h l = (tt, refl)
runs_below-Shares us n (suc m) c h l =
    let (shares, count) = runs_below-Shares us n m c h (omega arith) in
    let run = build_run [] (cut us n m) in
    let whole : 0 < length us / n =
      (le-div_iff_mul-le {k = n} {x = 1} (omega arith)).1 (omega arith) in
    let (lo, hi) = length-cut us n m l in
    let same : length (expand run) ≡ length (cut us n m) =
      ap length (build_run-nil (cut us n m) (cut-Consecutive us n m c)) in
    (
      All-snoc (Shares us n) (runs_below us n m) shares (omega arith),
      omega (arith, length-append (runs_below us n m) (run ∷ []), count),
    )

-- One run for each worker, or for each row group if those are fewer; and every run is a fair share.
pub split-Shares :
    (counts : List ℕ) (workers : ℕ)
    → let us = units_from 0 counts in
      let n = min workers (length us) in
      (length (split counts workers) ≡ n) × All (Shares us n) (split counts workers)
unfolding split
split-Shares counts workers =
    let us = units_from 0 counts in
    let n : ℕ = min workers (length us) in
    let (shares, count) =
      runs_below-Shares us n n (units-Consecutive 0 counts) (omega arith) (omega arith) in
    (count, shares)
