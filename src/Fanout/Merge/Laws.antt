-- ===== src/Fanout/Merge/Laws.antt =====
-- Merging partial merges is merging all parts: the number of workers does not matter.
use zpq.Common.{
  ℕ, ◌+◌, ◌≡◌, refl, ap, ap₂, sym, ◌∙◌, Bool, true, false, Option, none, some, inl, inr, arith,
}
use zpq.Common.Tests.{Bool-cases, if◌then◌else◌}
use zpq.Common.Result.{ok}
use zpq.Fanout.Merge.{
  Scalars, Function, count, sum, min_of, max_of, avg, Cell, plain, state, add, add_cell, pick_cell,
  fold_cell,
}

-- What the merge relies on, of two sorts of scalars. `+` is exact on Python's integers, which are no floats;
-- nothing is asked of a Decimal, whose sums are rounded to 28 digits. `<` is a strict weak order on values of one
-- ordered sort, as all numbers but NaN are, or all texts.
pub record Laws (scalars : Scalars) : Type 1 where
  pub IsWhole : scalars.Scalar → Type 0
  pub not_float : (a : scalars.Scalar) → IsWhole a → scalars.is_float a ≡ false
  pub whole_plus : (a b : scalars.Scalar) → IsWhole a → IsWhole b → IsWhole (scalars.plus a b)
  pub plus_assoc :
      (a b c : scalars.Scalar)
      → IsWhole a
      → IsWhole b
      → IsWhole c
      → scalars.plus (scalars.plus a b) c ≡ scalars.plus a (scalars.plus b c)
  pub IsOrdered : scalars.Scalar → Type 0
  pub lt_trans :
      (a b c : scalars.Scalar)
      → IsOrdered a
      → IsOrdered b
      → IsOrdered c
      → scalars.lt a b ≡ true
      → scalars.lt b c ≡ true
      → scalars.lt a c ≡ true
  pub not_lt_trans :
      (a b c : scalars.Scalar)
      → IsOrdered a
      → IsOrdered b
      → IsOrdered c
      → scalars.lt a b ≡ false
      → scalars.lt b c ≡ false
      → scalars.lt a c ≡ false

module _ (scalars : Scalars) (laws : Laws scalars) where
  open scalars use {Scalar, is_float, plus, lt}

  abbrev pub Exact : Option Scalar → Type 0
  Exact none = Unit
  Exact (some a) = laws.IsWhole a

  abbrev pub Ordered : Option Scalar → Type 0
  Ordered none = Unit
  Ordered (some a) = laws.IsOrdered a

  add_whole :
      (a b : Scalar)
      → laws.IsWhole a
      → laws.IsWhole b
      → add scalars (some a) (some b) ≡ some (plus a b)
  unfolding add
  add_whole a b p q = rw (laws.not_float a p, laws.not_float b q)

  add-Exact : (a b : Option Scalar) → Exact a → Exact b → Exact (add scalars a b)
  unfolding add
  add-Exact none b p q = q
  add-Exact (some a) none p q = p
  add-Exact (some a) (some b) p q =
      rw (laws.not_float a p, laws.not_float b q) (laws.whole_plus a b p q)

  add_assoc :
      (a b c : Option Scalar)
      → Exact a
      → Exact b
      → Exact c
      → add scalars (add scalars a b) c ≡ add scalars a (add scalars b c)
  unfolding add
  add_assoc none b c p q r = refl
  add_assoc (some a) none c p q r = refl
  add_assoc (some a) (some b) none p q r = ground arith
  add_assoc (some a) (some b) (some c) p q r =
      ap (λ v. add scalars v (some c)) (add_whole a b p q)
      ∙ add_whole (plus a b) c (laws.whole_plus a b p q) r
      ∙ ap (λ v. some v) (laws.plus_assoc a b c p q r)
      ∙ sym (add_whole a (plus b c) p (laws.whole_plus b c q r))
      ∙ ap (λ v. add scalars (some a) v) (sym (add_whole b c q r))

  -- A cell that a worker sends for a function: a state for AVG, else a value or null.
  abbrev pub Typed : Function → Cell Scalar → Type 0
  Typed avg (state s n) = Exact s
  Typed avg (plain v) = ⊥
  Typed count (plain v) = Exact v
  Typed sum (plain v) = Exact v
  Typed min_of (plain v) = Ordered v
  Typed max_of (plain v) = Ordered v
  Typed _ (state s n) = ⊥

  -- An accumulator: such a cell, or none yet.
  abbrev pub Started : Function → Cell Scalar → Type 0
  Started fn (plain none) = Unit
  Started avg (plain (some v)) = ⊥
  Started fn c = Typed fn c

  -- What the fold of two cells comes to, and that folding a third in may be done before or after.
  pub record Associates (fn : Function) (a b c : Cell Scalar) : Type 0 where
    pub left : Cell Scalar
    pub right : Cell Scalar
    pub left_fold : fold_cell scalars fn a b ≡ ok left
    pub right_fold : fold_cell scalars fn b c ≡ ok right
    pub same : fold_cell scalars fn left c ≡ fold_cell scalars fn a right
    pub left_fits : Typed fn left
    pub right_fits : Typed fn right

  add_cell-Associates :
      (fn : Function) (a b c : Option Scalar)
      → ((x y : Cell Scalar) → fold_cell scalars fn x y ≡ add_cell scalars x y)
      → ((v : Option Scalar) → Exact v → Typed fn (plain v))
      → Exact a
      → Exact b
      → Exact c
      → Associates fn (plain a) (plain b) (plain c)
  unfolding add_cell
  add_cell-Associates fn a b c as_add typed p q r = record {
    left = plain (add scalars a b);
    right = plain (add scalars b c);
    left_fold = as_add _ _;
    right_fold = as_add _ _;
    same = as_add _ _ ∙ ap (λ v. ok (plain v)) (add_assoc a b c p q r) ∙ sym (as_add _ _);
    left_fits = typed _ (add-Exact a b p q);
    right_fits = typed _ (add-Exact b c q r);
  }

  -- The better of two values, the first one on a tie.
  abbrev pick : (Scalar → Scalar → Bool) → Option Scalar → Option Scalar → Option Scalar
  pick better a none = a
  pick better none (some v) = some v
  pick better (some have) (some v) = some (if better v have then v else have)

  pick-Ordered :
      (better : Scalar → Scalar → Bool) (a b : Option Scalar)
      → Ordered a
      → Ordered b
      → Ordered (pick better a b)
  pick-Ordered better a none p q = p
  pick-Ordered better none (some y) p q = q
  pick-Ordered better (some x) (some y) p q = elim (Bool-cases (better y x)) [
    | inl e ↦ rw e q
    | inr e ↦ rw e p
  ]

  -- A test by which one value replaces another: a strict weak order on the ordered values.
  record Prefers (better : Scalar → Scalar → Bool) : Type 0 where
    trans :
        (x y z : Scalar)
        → laws.IsOrdered x
        → laws.IsOrdered y
        → laws.IsOrdered z
        → better x y ≡ true
        → better y z ≡ true
        → better x z ≡ true
    not_trans :
        (x y z : Scalar)
        → laws.IsOrdered x
        → laws.IsOrdered y
        → laws.IsOrdered z
        → better x y ≡ false
        → better y z ≡ false
        → better x z ≡ false

  pick_assoc :
      (better : Scalar → Scalar → Bool)
      → Prefers better
      → (a b c : Option Scalar) → Ordered a
      → Ordered b
      → Ordered c
      → pick better (pick better a b) c ≡ pick better a (pick better b c)
  pick_assoc better w a b none p q r = refl
  pick_assoc better w a none (some z) p q r = refl
  pick_assoc better w none (some y) (some z) p q r = ground arith
  pick_assoc better w (some x) (some y) (some z) p q r =
      ground (arith, w.trans z y x r q p, w.not_trans z y x r q p)

  pick_cell_lem :
      (better : Scalar → Scalar → Bool) (a b : Option Scalar)
      → pick_cell scalars better (plain a) (plain b) ≡ ok (plain (pick better a b))
  unfolding pick_cell
  pick_cell_lem better none none = refl
  pick_cell_lem better (some a) none = refl
  pick_cell_lem better none (some b) = refl
  pick_cell_lem better (some a) (some b) = refl

  pick-Associates :
      (fn : Function) (better : Scalar → Scalar → Bool) (a b c : Option Scalar)
      → ((x y : Cell Scalar) → fold_cell scalars fn x y ≡ pick_cell scalars better x y)
      → ((v : Option Scalar) → Ordered v → Typed fn (plain v))
      → Prefers better
      → Ordered a
      → Ordered b
      → Ordered c
      → Associates fn (plain a) (plain b) (plain c)
  pick-Associates fn better a b c as_pick typed w p q r = record {
    left = plain (pick better a b);
    right = plain (pick better b c);
    left_fold = as_pick _ _ ∙ pick_cell_lem better a b;
    right_fold = as_pick _ _ ∙ pick_cell_lem better b c;
    same =
        as_pick _ _
        ∙ pick_cell_lem better (pick better a b) c
        ∙ ap (λ v. ok (plain v)) (pick_assoc better w a b c p q r)
        ∙ sym (as_pick _ _ ∙ pick_cell_lem better a (pick better b c));
    left_fits = typed _ (pick-Ordered better a b p q);
    right_fits = typed _ (pick-Ordered better b c q r);
  }

  min_Prefers : Prefers lt
  min_Prefers = record { trans = laws.lt_trans; not_trans = laws.not_lt_trans }

  max_Prefers : Prefers (λ v have. lt have v)
  max_Prefers = record {
    trans = λ x y z p q r h k. laws.lt_trans z y x r q p k h;
    not_trans = λ x y z p q r h k. laws.not_lt_trans z y x r q p k h;
  }

  avg-Associates :
      (a b c : Cell Scalar) → Started avg a → Typed avg b → Typed avg c → Associates avg a b c
  unfolding fold_cell
  avg-Associates a b (plain z) p q r = absurd r
  avg-Associates a (plain y) (state z k) p q r = absurd q
  avg-Associates (plain (some x)) (state y m) (state z k) p q r = absurd p
  avg-Associates (plain none) (state y m) (state z k) p q r = record {
    left = state y (0 + m);
    right = state (add scalars y z) (m + k);
    left_fold = refl;
    right_fold = refl;
    same = ap (λ (t : ℕ). ok (state (add scalars y z) t)) (omega arith);
    left_fits = q;
    right_fits = add-Exact y z q r;
  }
  avg-Associates (state x n) (state y m) (state z k) p q r = record {
    left = state (add scalars x y) (n + m);
    right = state (add scalars y z) (m + k);
    left_fold = refl;
    right_fold = refl;
    same = ap₂ (λ s (t : ℕ). ok (state s t)) (add_assoc x y z p q r) (omega arith);
    left_fits = add-Exact x y p q;
    right_fits = add-Exact y z q r;
  }

  -- Every function of a mergeable aggregate, at every accumulator.
  pub fold_cell-Associates :
      (fn : Function) (a b c : Cell Scalar)
      → Started fn a
      → Typed fn b
      → Typed fn c
      → Associates fn a b c
  unfolding fold_cell
  fold_cell-Associates avg a b c p q r = avg-Associates a b c p q r
  fold_cell-Associates count (plain none) (plain b) (plain c) p q r =
      add_cell-Associates count none b c (λ _ _. refl) (λ _ e. e) tt q r
  fold_cell-Associates count (plain (some a)) (plain b) (plain c) p q r =
      add_cell-Associates count (some a) b c (λ _ _. refl) (λ _ e. e) p q r
  fold_cell-Associates sum (plain none) (plain b) (plain c) p q r =
      add_cell-Associates sum none b c (λ _ _. refl) (λ _ e. e) tt q r
  fold_cell-Associates sum (plain (some a)) (plain b) (plain c) p q r =
      add_cell-Associates sum (some a) b c (λ _ _. refl) (λ _ e. e) p q r
  fold_cell-Associates min_of (plain none) (plain b) (plain c) p q r =
      pick-Associates min_of lt none b c (λ _ _. refl) (λ _ e. e) min_Prefers tt q r
  fold_cell-Associates min_of (plain (some a)) (plain b) (plain c) p q r =
      pick-Associates min_of lt (some a) b c (λ _ _. refl) (λ _ e. e) min_Prefers p q r
  fold_cell-Associates max_of (plain none) (plain b) (plain c) p q r =
      pick-Associates max_of (λ v have. lt have v) none b c (λ _ _. refl) (λ _ e. e) max_Prefers tt
        q r
  fold_cell-Associates max_of (plain (some a)) (plain b) (plain c) p q r =
      pick-Associates max_of (λ v have. lt have v) (some a) b c (λ _ _. refl) (λ _ e. e) max_Prefers
        p q r
  fold_cell-Associates count (state s n) b c p q r = absurd p
  fold_cell-Associates count (plain a) (state s n) c p q r = absurd q
  fold_cell-Associates count (plain a) (plain b) (state s n) p q r = absurd r
  fold_cell-Associates sum (state s n) b c p q r = absurd p
  fold_cell-Associates sum (plain a) (state s n) c p q r = absurd q
  fold_cell-Associates sum (plain a) (plain b) (state s n) p q r = absurd r
  fold_cell-Associates min_of (state s n) b c p q r = absurd p
  fold_cell-Associates min_of (plain a) (state s n) c p q r = absurd q
  fold_cell-Associates min_of (plain a) (plain b) (state s n) p q r = absurd r
  fold_cell-Associates max_of (state s n) b c p q r = absurd p
  fold_cell-Associates max_of (plain a) (state s n) c p q r = absurd q
  fold_cell-Associates max_of (plain a) (plain b) (state s n) p q r = absurd r

  -- A first part comes through as it is.
  pub fold_cell-first :
      (fn : Function) (part : Cell Scalar)
      → Typed fn part
      → fold_cell scalars fn (plain none) part ≡ ok part
  unfolding fold_cell add pick_cell
  fold_cell-first avg (plain v) h = absurd h
  fold_cell-first avg (state s n) h = ap (λ (t : ℕ). ok (state s t)) (omega arith)
  fold_cell-first count (plain v) h = refl
  fold_cell-first sum (plain v) h = refl
  fold_cell-first min_of (plain none) h = refl
  fold_cell-first min_of (plain (some v)) h = refl
  fold_cell-first max_of (plain none) h = refl
  fold_cell-first max_of (plain (some v)) h = refl
  fold_cell-first count (state s n) h = absurd h
  fold_cell-first sum (state s n) h = absurd h
  fold_cell-first min_of (state s n) h = absurd h
  fold_cell-first max_of (state s n) h = absurd h
