-- ===== src/Fanout/Run/Cover.antt =====
-- The requests that `run` sends ask for every row group once.
use zpq.Common.{
  ℕ, zero, suc, ◌-◌, ◌<◌, ◌≡◌, refl, sym, ap, ap₂, subst, ◌∙◌, Option, none, some, List, [], ◌∷◌,
  ◌++◌, map,
}
use zpq.Common.Lists.{get_elem?}
use zpq.Common.Result.{Exn, ok, index_error, >>=-eq-ok, ok-injective}
use zpq.Fanout.Split.{RowGroup, Piece, row_groups_of, units_from, split}
use zpq.Fanout.Split.Cover.{expand_piece, expand, expand_all}
use zpq.Fanout.Split.Whole.{expand-split}
use zpq.Fanout.Merge.{Scalars}
use zpq.Fanout.Plan.{Payload, partial, found, inputs_of, ranges_of, payloads_of, or_base, Planned}
use zpq.Fanout.Run.{payloads}
use Prim.Native.String.{String}

-- The row groups that a partial request asks for: its inputs and their ranges, pair by pair.
abbrev pub asked_pairs : List String → List (ℕ × ℕ) → List (Option String × ℕ)
asked_pairs (u ∷ us) ((s, e) ∷ ranges) =
    map (λ (_, g). (some u, g)) (row_groups_of 0 s (e - s)) ++ asked_pairs us ranges
asked_pairs _ _ = []

abbrev pub asked : {P : Type 0} → Payload P → List (Option String × ℕ)
asked (partial plan us (some ranges)) = asked_pairs us ranges
asked _ = []

abbrev pub asked_all : {P : Type 0} → List (Payload P) → List (Option String × ℕ)
asked_all [] = []
asked_all (p ∷ ps) = asked p ++ asked_all ps

-- A row group, with its input's name for the index.
abbrev pub named : List String → RowGroup → Option String × ℕ
named inputs (i, g) = (get_elem? inputs i, g)

map-append : {A B : Type 0} (f : A → B) (xs ys : List A) → map f (xs ++ ys) ≡ map f xs ++ map f ys
map-append f [] ys = refl
map-append f (x ∷ xs) ys = ap (λ t. f x ∷ t) (map-append f xs ys)

named-row_groups_of :
    (inputs : List String) (i : ℕ) {u : String} (g n : ℕ)
    → get_elem? inputs i ≡ some u
    → map (named inputs) (row_groups_of i g n) ≡ map (λ (_, g). (some u, g)) (row_groups_of 0 g n)
unfolding row_groups_of
named-row_groups_of inputs i g zero h = refl
named-row_groups_of inputs i g (suc n) h =
    ap₂ (λ o t. (o, g) ∷ t) h (named-row_groups_of inputs i (suc g) n h)

found-eq-ok : {A : Type 0} (e : Exn) (o : Option A) {a : A} → found e o ≡ ok a → o ≡ some a
found-eq-ok e none h = cc
found-eq-ok e (some b) h = ap some (ok-injective h)

inputs_of-asked :
    (inputs : List String) (run : List Piece) {us : List String}
    → inputs_of inputs run ≡ ok us
    → asked_pairs us (ranges_of run) ≡ map (named inputs) (expand run)
unfolding inputs_of expand
inputs_of-asked inputs [] h = ap (λ us. asked_pairs us []) (sym (ok-injective h))
inputs_of-asked inputs ((i, s, e) ∷ run) h =
    let (u, is_u, more) = >>=-eq-ok (found index_error (get_elem? inputs i)) _ h in
    let (rest, done, made) = >>=-eq-ok (inputs_of inputs run) _ more in
    let there = found-eq-ok index_error (get_elem? inputs i) is_u in
    subst
      (λ us.
        asked_pairs us (ranges_of ((i, s, e) ∷ run))
        ≡ map (named inputs) (expand ((i, s, e) ∷ run)))
      (ok-injective made)
      (ap₂ ◌++◌ (sym (named-row_groups_of inputs i s (e - s) there))
          (inputs_of-asked inputs run done)
        ∙ sym (map-append (named inputs) (expand_piece (i, s, e)) (expand run)))

payloads_of-asked :
    {P : Type 0} (plan : P) (inputs : List String) (runs : List (List Piece))
    {ps : List (Payload P)}
    → payloads_of plan inputs runs ≡ ok ps
    → asked_all ps ≡ map (named inputs) (expand_all runs)
unfolding payloads_of expand_all
payloads_of-asked plan inputs [] h = ap asked_all (sym (ok-injective h))
payloads_of-asked plan inputs (run ∷ runs) h =
    let (us, found_all, more) = >>=-eq-ok (inputs_of inputs run) _ h in
    let (rest, done, made) = >>=-eq-ok (payloads_of plan inputs runs) _ more in
    subst (λ ps. asked_all ps ≡ map (named inputs) (expand_all (run ∷ runs))) (ok-injective made)
      (ap₂ ◌++◌ (inputs_of-asked inputs run found_all) (payloads_of-asked plan inputs runs done)
        ∙ sym (map-append (named inputs) (expand run) (expand_all runs)))

or_base-asked :
    {P : Type 0} (plan : P) (inputs : List String) (ps : List (Payload P))
    → asked_all (or_base plan inputs ps) ≡ asked_all ps
unfolding or_base
or_base-asked plan inputs [] = refl
or_base-asked plan inputs (p ∷ ps) = refl

-- With a worker at least, the partial requests together ask for every row group that the counts name,
-- each once, in order, under its input's name.
pub payloads-cover :
    (scalars : Scalars) {P : Type 0} (pl : Planned P) (workers : ℕ) {ps : List (Payload P)}
    → 0 < workers
    → payloads scalars pl workers ≡ ok ps
    → asked_all ps ≡ map (named pl.inputs) (units_from 0 pl.counts)
unfolding payloads
payloads-cover scalars pl workers lt h =
    let (made, parts, based) =
      >>=-eq-ok (payloads_of pl.plan pl.inputs (split pl.counts workers)) _ h in
    ap asked_all (sym (ok-injective based))
    ∙ or_base-asked pl.plan pl.inputs made
    ∙ payloads_of-asked pl.plan pl.inputs (split pl.counts workers) parts
    ∙ ap (map (named pl.inputs)) (expand-split pl.counts workers lt)
