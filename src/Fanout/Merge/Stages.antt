-- ===== src/Fanout/Merge/Stages.antt =====
-- Whole answers: merging some of them first, and then the rest, changes nothing.
use zpq.Common.{◌≡◌, refl, sym, ◌∙◌, List, [], ◌∷◌, none, some}
use zpq.Common.Lists.{All}
use zpq.Common.Result.{Result, ok, ◌>>=◌, ok-injective}
use zpq.Fanout.Merge.{
  Scalars, Function, Cell, plain, state, count, sum, min_of, max_of, avg, head_cell, tail_cells,
  fold, fold_all,
}
use Prim.Native.String.{String}
use zpq.Fanout.Merge.Laws.{Laws, Typed, Started, fold_cell-Associates, fold_cell-first}

module _ (scalars : Scalars) (laws : Laws scalars) where
  open scalars use {Scalar}

  -- A worker's answer: a cell of its kind for each aggregate.
  abbrev pub IsAnswer : List Function → List (Cell Scalar) → Type 0
  IsAnswer [] cells = Unit
  IsAnswer (fn ∷ fns) cells =
      Typed scalars laws fn (head_cell cells) × IsAnswer fns (tail_cells cells)

  abbrev pub IsStarted : List Function → List (Cell Scalar) → Type 0
  IsStarted [] acc = Unit
  IsStarted (fn ∷ fns) acc =
      Started scalars laws fn (head_cell acc) × IsStarted fns (tail_cells acc)

  record Folds (fns : List Function) (a b c : List (Cell Scalar)) : Type 0 where
    left : List (Cell Scalar)
    right : List (Cell Scalar)
    left_fold : fold scalars fns a b ≡ ok left
    right_fold : fold scalars fns b c ≡ ok right
    same : fold scalars fns left c ≡ fold scalars fns a right
    left_fits : IsAnswer fns left
    right_fits : IsAnswer fns right

  fold-Folds :
      (fns : List Function) (a b c : List (Cell Scalar))
      → IsStarted fns a
      → IsAnswer fns b
      → IsAnswer fns c
      → Folds fns a b c
  unfolding fold
  fold-Folds [] a b c p q r = record {
    left = [];
    right = [];
    left_fold = refl;
    right_fold = refl;
    same = refl;
    left_fits = tt;
    right_fits = tt;
  }
  fold-Folds (fn ∷ fns) a b c (p, ps) (q, qs) (r, rs) =
      let cell =
        fold_cell-Associates scalars laws fn (head_cell a) (head_cell b) (head_cell c) p q r in
      let rest = fold-Folds fns (tail_cells a) (tail_cells b) (tail_cells c) ps qs rs in
      record {
        left = cell.left ∷ rest.left;
        right = cell.right ∷ rest.right;
        left_fold = rw (cell.left_fold, rest.left_fold);
        right_fold = rw (cell.right_fold, rest.right_fold);
        same = rw (cell.same, rest.same);
        left_fits = (cell.left_fits, rest.left_fits);
        right_fits = (cell.right_fits, rest.right_fits);
      }

  Typed-Started :
      (fn : Function) (c : Cell Scalar) → Typed scalars laws fn c → Started scalars laws fn c
  Typed-Started fn (plain none) h = tt
  Typed-Started avg (plain (some v)) h = h
  Typed-Started count (plain (some v)) h = h
  Typed-Started sum (plain (some v)) h = h
  Typed-Started min_of (plain (some v)) h = h
  Typed-Started max_of (plain (some v)) h = h
  Typed-Started fn (state s n) h = h

  IsAnswer-IsStarted :
      (fns : List Function) (c : List (Cell Scalar)) → IsAnswer fns c → IsStarted fns c
  IsAnswer-IsStarted [] c h = tt
  IsAnswer-IsStarted (fn ∷ fns) c (h, hs) =
      (Typed-Started fn (head_cell c) h, IsAnswer-IsStarted fns (tail_cells c) hs)

  -- What a fold of `x` and then `others` comes to, by itself and on top of any accumulator.
  record Merges (fns : List Function) (x : List (Cell Scalar)) (others : List (List (Cell Scalar)))
      : Type 0 where
    total : List (Cell Scalar)
    merged : fold_all scalars fns x others ≡ ok total
    fits : IsAnswer fns total
    later :
        (acc : List (Cell Scalar))
        → IsStarted fns acc
        → fold scalars fns acc total
          ≡ (fold scalars fns acc x >>= λ l. fold_all scalars fns l others)

  answers-Merges :
      (fns : List Function) (x : List (Cell Scalar)) (others : List (List (Cell Scalar)))
      → IsAnswer fns x
      → All (IsAnswer fns) others
      → Merges fns x others
  unfolding fold_all
  answers-Merges fns x [] h hs = record {
    total = x;
    merged = refl;
    fits = h;
    later = λ acc p. let f = fold-Folds fns acc x x p h h in rw f.left_fold;
  }
  answers-Merges fns x (b ∷ bs) h (hb, hs) =
      let here = fold-Folds fns x b b (IsAnswer-IsStarted fns x h) hb hb in
      let rest = answers-Merges fns here.left bs here.left_fits hs in
      record {
        total = rest.total;
        merged = rw here.left_fold rest.merged;
        fits = rest.fits;
        later = λ acc p.
            let f = fold-Folds fns acc x b p h hb in
            let both : here.left ≡ f.right = ok-injective (sym here.left_fold ∙ f.right_fold) in
            rest.later acc p ∙ rw (both, f.left_fold, f.same);
      }

  -- The first fold of an answer keeps all that a later fold reads of it.
  fold-first :
      (fns : List Function) (a : List (Cell Scalar))
      → IsAnswer fns a
      → (x : List (Cell Scalar)) × (fold scalars fns [] a ≡ ok x)
        × IsAnswer fns x
        × ((acc : List (Cell Scalar)) → fold scalars fns acc x ≡ fold scalars fns acc a)
  unfolding fold
  fold-first [] a h = ([], refl, tt, λ acc. refl)
  fold-first (fn ∷ fns) a (h, hs) =
      let (x, folded, fits, reads) = fold-first fns (tail_cells a) hs in
      let first = fold_cell-first scalars laws fn (head_cell a) h in
      (head_cell a ∷ x, rw (first, folded), (h, fits), λ acc. rw (reads (tail_cells acc)))

  -- Where every answer has a cell of its kind for each aggregate, with integers in its counts and sums and values
  -- of one ordered sort in its minima and maxima, the answers
  -- `a ∷ others` merge without an error, and folding their merged answer into any accumulator gives what
  -- folding them one by one gives: how the row groups are grouped into answers does not matter.
  pub fold-merge :
      (fns : List Function) (acc a : List (Cell Scalar)) (others : List (List (Cell Scalar)))
      → IsStarted fns acc
      → IsAnswer fns a
      → All (IsAnswer fns) others
      → (total : List (Cell Scalar)) × (fold_all scalars fns [] (a ∷ others) ≡ ok total)
        × IsAnswer fns total
        × (fold scalars fns acc total ≡ fold_all scalars fns acc (a ∷ others))
  unfolding fold_all
  fold-merge fns acc a others p h hs =
      let (x, folded, fits, reads) = fold-first fns a h in
      let m = answers-Merges fns x others fits hs in
      (m.total, rw folded m.merged, m.fits, m.later acc p ∙ rw (reads acc))
