-- ===== src/Fanout/Split/Cover.antt =====
-- The runs hold every row group once, in order.
use zpq.Common.{
  ℕ, zero, suc, ◌+◌, ◌-◌, ◌≤◌, ◌<◌, ◌≡◌, refl, sym, ap, ◌∙◌, List, [], ◌∷◌, ◌++◌, append-nil,
  append_assoc, inl, inr, arith,
}
use zpq.Common.Tests.{◌==◌, Bool-cases, ==_iff}
use zpq.Fanout.Split.{RowGroup, Piece, row_groups_of, extend, build_run}

-- The row groups that a piece, a run and a list of runs stand for.
abbrev pub expand_piece : Piece → List RowGroup
expand_piece (i, s, e) = row_groups_of i s (e - s)

unfoldable pub expand : List Piece → List RowGroup
expand [] = []
expand (p ∷ run) = expand_piece p ++ expand run

unfoldable pub expand_all : List (List Piece) → List RowGroup
unfolding expand
expand_all [] = []
expand_all (run ∷ runs) = expand run ++ expand_all runs

-- A unit may come behind another: the next row group of that input, or one of another input.
abbrev pub After : RowGroup → RowGroup → Type 0
After (i, rg) (j, rg') = (i ≡ j) → rg' ≡ suc rg

abbrev pub Consecutive : List RowGroup → Type 0
Consecutive [] = Unit
Consecutive (u ∷ []) = Unit
Consecutive (u ∷ v ∷ us) = After u v × Consecutive (v ∷ us)

-- A run whose last piece ends where the next unit starts, if that is of the same input.
abbrev Joins : List Piece → RowGroup → Type 0
Joins [] u = Unit
Joins ((j, s, e) ∷ []) (i, rg) = (s < e) × ((j ≡ i) → e ≡ rg)
Joins (p ∷ q ∷ run) u = Joins (q ∷ run) u

row_groups-snoc : (i s n : ℕ) → row_groups_of i s (suc n) ≡ row_groups_of i s n ++ (i, s + n) ∷ []
unfolding row_groups_of
row_groups-snoc i s zero = ap (λ (r : ℕ). (i, r) ∷ []) (omega arith)
row_groups-snoc i s (suc n) =
    let place : suc s + n ≡ s + suc n = omega arith in simp (row_groups-snoc i (suc s) n) (rw place)

piece-one : (i rg : ℕ) → expand_piece (i, rg, suc rg) ≡ (i, rg) ∷ []
unfolding row_groups_of
piece-one i rg = let one : suc rg - rg ≡ 1 = omega arith in rw one

-- A piece that is lengthened by the row group behind it.
piece-longer :
    (i s rg : ℕ) → s ≤ rg → expand_piece (i, s, suc rg) ≡ expand_piece (i, s, rg) ++ (i, rg) ∷ []
piece-longer i s rg h =
    let count : suc rg - s ≡ suc (rg - s) = omega arith in
    let place : s + (rg - s) ≡ rg = omega arith in rw (count, row_groups-snoc i s (rg - s), place)

expand-extend_last :
    (j s e i rg : ℕ)
    → s < e
    → ((j ≡ i) → e ≡ rg)
    → expand (extend ((j, s, e) ∷ []) (i, rg)) ≡ expand_piece (j, s, e) ++ (i, rg) ∷ []
unfolding expand extend
expand-extend_last j s e i rg h k = elim (Bool-cases (j == i)) [
  | inl same ↦
      let j-i = (==_iff j i).0 same in
      rw (same, append-nil, ← j-i, k j-i) (piece-longer j s rg (omega (arith, k j-i)))
  | inr other ↦ rw (other, append-nil, piece-one i rg)
]

expand-extend :
    (run : List Piece) (u : RowGroup) → Joins run u → expand (extend run u) ≡ expand run ++ u ∷ []
unfolding expand extend
expand-extend [] (i, rg) h = rw append-nil (piece-one i rg)
expand-extend ((j, s, e) ∷ []) (i, rg) (h, k) = expand-extend_last j s e i rg h k ∙ rw append-nil
expand-extend (p ∷ q ∷ run) u h = simp (expand-extend (q ∷ run) u h, append_assoc)

-- The pieces before the last do not matter.
Joins-cons :
    (p q : Piece) (run : List Piece) (u v : RowGroup)
    → Joins (extend (q ∷ run) u) v
    → Joins (p ∷ extend (q ∷ run) u) v
unfolding extend
Joins-cons p (j, s, e) [] (i, rg) v h = elim (Bool-cases (j == i)) [
  | inl same ↦ rw same (rw same at h)
  | inr other ↦ rw other (rw other at h)
]
Joins-cons p q (r ∷ run) u v h = h

-- What `extend` leaves joins whatever may come behind the unit it took.
extend-Joins :
    (run : List Piece) (u v : RowGroup) → Joins run u → After u v → Joins (extend run u) v
unfolding extend
extend-Joins [] (i, rg) (j, rg') h a = (omega arith, λ p. sym (a p))
extend-Joins ((j, s, e) ∷ []) (i, rg) (k, rg') (h, joins) a = elim (Bool-cases (j == i)) [
  | inl same ↦ rw same (omega (arith, joins ((==_iff j i).0 same)), λ p. sym (a p))
  | inr other ↦ rw other (omega arith, λ p. sym (a p))
]
extend-Joins (p ∷ q ∷ run) u v h a = Joins-cons p q run u v (extend-Joins (q ∷ run) u v h a)

expand-build_run :
    (run : List Piece) (u : RowGroup) (us : List RowGroup)
    → Joins run u
    → Consecutive (u ∷ us)
    → expand (build_run run (u ∷ us)) ≡ expand run ++ u ∷ us
unfolding build_run
expand-build_run run u [] h c = expand-extend run u h
expand-build_run run u (v ∷ us) h (a, c) =
    expand-build_run (extend run u) v us (extend-Joins run u v h a) c
    ∙ simp (expand-extend run u h, append_assoc)

pub build_run-nil : (us : List RowGroup) → Consecutive us → expand (build_run [] us) ≡ us
build_run-nil [] c = unfold build_run expand in refl
build_run-nil (u ∷ us) c = unfold expand in expand-build_run [] u us tt c
