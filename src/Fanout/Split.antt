-- ===== src/Fanout/Split.antt =====
-- tools/serverless/fanout.py, split: row groups cut into contiguous runs.
pub mod Cover
pub mod Units
pub mod Whole
pub mod Balance
use zpq.Common.{ℕ, zero, suc, ◌+◌, ◌-◌, ◌*◌, ◌/◌, ◌≤◌, ◌<◌, min, List, [], ◌∷◌, ◌++◌}
use zpq.Common.Tests.{◌==◌, if◌then◌else◌}
use zpq.Common.Lists.{length, take, drop}

-- A row group: its input's index, and its index in that input.
abbrev pub RowGroup : Type 0
RowGroup = ℕ × ℕ

-- (input index, start, end): row groups from start up to but not including end.
abbrev pub Piece : Type 0
Piece = ℕ × ℕ × ℕ

-- (i, rg) for the `n` row groups of input `i` from `rg` on
unfoldable pub row_groups_of : ℕ → ℕ → ℕ → List RowGroup
row_groups_of i rg zero = []
row_groups_of i rg (suc n) = (i, rg) ∷ row_groups_of i (suc rg) n

-- [(i, rg) for i, n in enumerate(counts) for rg in range(n)], from input `i` on
unfoldable pub units_from : ℕ → List ℕ → List RowGroup
unfolding row_groups_of
units_from i [] = []
units_from i (n ∷ counts) = row_groups_of i 0 n ++ units_from (suc i) counts

-- The body of the inner loop: lengthen the last piece, or append one.
unfoldable pub extend : List Piece → RowGroup → List Piece
extend [] (i, rg) = (i, rg, suc rg) ∷ []
extend ((j, s, e) ∷ []) (i, rg) =
    if j == i then (i, s, suc rg) ∷ [] else (j, s, e) ∷ (i, rg, suc rg) ∷ []
extend (p ∷ q ∷ run) u = p ∷ extend (q ∷ run) u

-- The inner loop, over units not yet reached.
unfoldable pub build_run : List Piece → List RowGroup → List Piece
unfolding extend
build_run run [] = run
build_run run (u ∷ us) = build_run (extend run u) us

-- k * len(units) // n
abbrev pub bound : ℕ → ℕ → ℕ → ℕ
bound len n k = k * len / n

-- units[k * len(units) // n:(k + 1) * len(units) // n]
abbrev pub cut : List RowGroup → ℕ → ℕ → List RowGroup
cut units n k =
    let lo = bound (length units) n k in take (bound (length units) n (suc k) - lo) (drop lo units)

-- The outer loop, for k below `m`.
unfoldable pub runs_below : List RowGroup → ℕ → ℕ → List (List Piece)
unfolding build_run
runs_below units n zero = []
runs_below units n (suc k) = runs_below units n k ++ build_run [] (cut units n k) ∷ []

-- A negative number of workers gives no run, as 0 does.
unfoldable pub split : List ℕ → ℕ → List (List Piece)
unfolding runs_below units_from
split counts workers =
    let units = units_from 0 counts in let n = min workers (length units) in runs_below units n n
