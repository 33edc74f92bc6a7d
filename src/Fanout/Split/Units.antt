-- ===== src/Fanout/Split/Units.antt =====
-- The row groups of all inputs follow one another, and so does every stretch of them.
use zpq.Common.{ℕ, zero, suc, ◌≤◌, refl, List, [], ◌∷◌, ◌++◌, arith}
use zpq.Common.Lists.{take, drop, All}
use zpq.Fanout.Split.{RowGroup, row_groups_of, units_from}
use zpq.Fanout.Split.Cover.{Consecutive}

abbrev FromInput : ℕ → List RowGroup → Type 0
FromInput i us = All (λ (u : RowGroup). i ≤ u.0) us

FromInput-append :
    (i : ℕ) (xs ys : List RowGroup) → FromInput i xs → FromInput i ys → FromInput i (xs ++ ys)
FromInput-append i [] ys p q = q
FromInput-append i (x ∷ xs) ys (h, p) q = (h, FromInput-append i xs ys p q)

FromInput-weaken : (i : ℕ) (us : List RowGroup) → FromInput (suc i) us → FromInput i us
FromInput-weaken i [] p = tt
FromInput-weaken i (u ∷ us) (h, p) = (omega arith, FromInput-weaken i us p)

row_groups-FromInput : (i s n : ℕ) → FromInput i (row_groups_of i s n)
unfolding row_groups_of
row_groups-FromInput i s zero = tt
row_groups-FromInput i s (suc n) = (omega arith, row_groups-FromInput i (suc s) n)

units-FromInput : (i : ℕ) (counts : List ℕ) → FromInput i (units_from i counts)
unfolding units_from
units-FromInput i [] = tt
units-FromInput i (n ∷ counts) =
    FromInput-append i (row_groups_of i 0 n) _ (row_groups-FromInput i 0 n)
      (FromInput-weaken i _ (units-FromInput (suc i) counts))

row_groups-Consecutive :
    (i s n : ℕ) (us : List RowGroup)
    → FromInput (suc i) us
    → Consecutive us
    → Consecutive (row_groups_of i s n ++ us)
unfolding row_groups_of
row_groups-Consecutive i s zero us f c = c
row_groups-Consecutive i s (suc zero) [] f c = tt
row_groups-Consecutive i s (suc zero) (u ∷ us) (h, f) c = (λ p. absurd (omega arith), c)
row_groups-Consecutive i s (suc (suc n)) us f c =
    (λ _. refl, row_groups-Consecutive i (suc s) (suc n) us f c)

pub units-Consecutive : (i : ℕ) (counts : List ℕ) → Consecutive (units_from i counts)
unfolding units_from
units-Consecutive i [] = tt
units-Consecutive i (n ∷ counts) =
    row_groups-Consecutive i 0 n (units_from (suc i) counts) (units-FromInput (suc i) counts)
      (units-Consecutive (suc i) counts)

pub Consecutive-drop : (n : ℕ) (us : List RowGroup) → Consecutive us → Consecutive (drop n us)
Consecutive-drop zero us c = c
Consecutive-drop (suc n) [] c = tt
Consecutive-drop (suc zero) (u ∷ []) c = tt
Consecutive-drop (suc (suc n)) (u ∷ []) c = tt
Consecutive-drop (suc n) (u ∷ v ∷ us) (_, c) = Consecutive-drop n (v ∷ us) c

pub Consecutive-take : (n : ℕ) (us : List RowGroup) → Consecutive us → Consecutive (take n us)
Consecutive-take zero us c = tt
Consecutive-take (suc n) [] c = tt
Consecutive-take (suc zero) (u ∷ us) c = tt
Consecutive-take (suc (suc n)) (u ∷ []) c = tt
Consecutive-take (suc (suc n)) (u ∷ v ∷ us) (a, c) = (a, Consecutive-take (suc n) (v ∷ us) c)
