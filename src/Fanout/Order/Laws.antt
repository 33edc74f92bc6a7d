-- ===== src/Fanout/Order/Laws.antt =====
-- The rows of an ordered answer: the same rows, by the first item, the nulls last.
use zpq.Common.{
  ◌≡◌, refl, subst, Bool, true, false, Option, none, some, List, [], ◌∷◌, ◌++◌, inl, inr,
}
use zpq.Common.Tests.{Bool-cases}
use zpq.Common.Lists.{All}
use zpq.Common.Result.{ok, guard, refused, >>=-eq-ok, ok-injective}
use zpq.Fanout.Merge.{Scalars}
use zpq.Fanout.Order.{
  OutRow, Item, Keyed, sort_value, partition, gives_way, insert_row, sort_rows, rows_of_keyed,
  has_name, order_by_one, order_by, order,
}
use mathlib.Core.List.{Perm, perm_middle}
use mathlib.Core.List.Perm
use Prim.Native.String.{String}

module _ (scalars : Scalars) where
  open scalars use {Scalar, lt}

  -- The order of the sort values: a strict weak order.
  pub record Weak : Type 0 where
    pub asym : (a b : Scalar) → lt a b ≡ true → lt b a ≡ false
    pub trans : (a b c : Scalar) → lt a b ≡ false → lt b c ≡ false → lt a c ≡ false

  abbrev Keeps : Bool → Keyed scalars → Keyed scalars → Type 0
  Keeps desc r s = gives_way scalars desc r s ≡ false

  -- No row has to give way to a later one.
  abbrev pub IsSorted : Bool → List (Keyed scalars) → Type 0
  IsSorted desc [] = Unit
  IsSorted desc (r ∷ rows) = All (Keeps desc r) rows × IsSorted desc rows

  insert_row-perm :
      (desc : Bool) (r : Keyed scalars) (rows : List (Keyed scalars))
      → Perm (insert_row scalars desc r rows) (r ∷ rows)
  unfolding insert_row
  insert_row-perm desc r [] = Perm.refl _
  insert_row-perm desc r (s ∷ rows) = elim (Bool-cases (gives_way scalars desc r s)) [
    | inl e ↦ rw e (Perm.trans (Perm.cons s (insert_row-perm desc r rows)) (Perm.swap r s rows))
    | inr e ↦ rw e (Perm.refl _)
  ]

  sort_rows-perm :
      (desc : Bool) (rows : List (Keyed scalars)) → Perm (sort_rows scalars desc rows) rows
  unfolding sort_rows
  sort_rows-perm desc [] = Perm.refl _
  sort_rows-perm desc (r ∷ rows) =
      Perm.trans (insert_row-perm desc r (sort_rows scalars desc rows))
        (Perm.cons r (sort_rows-perm desc rows))

  module _ (weak : Weak) where
    gives_way_trans :
        (desc : Bool) (r s t : Keyed scalars) → Keeps desc r s → Keeps desc s t → Keeps desc r t
    unfolding gives_way
    gives_way_trans true (x, _) (y, _) (z, _) p q = weak.trans x y z p q
    gives_way_trans false (x, _) (y, _) (z, _) p q = weak.trans z y x q p

    gives_way-asym :
        (desc : Bool) (r s : Keyed scalars) → gives_way scalars desc r s ≡ true → Keeps desc s r
    unfolding gives_way
    gives_way-asym true (x, _) (y, _) p = weak.asym x y p
    gives_way-asym false (x, _) (y, _) p = weak.asym y x p

    Keeps-All :
        (desc : Bool) (r s : Keyed scalars) (rows : List (Keyed scalars))
        → Keeps desc r s
        → All (Keeps desc s) rows
        → All (Keeps desc r) rows
    Keeps-All desc r s [] p q = tt
    Keeps-All desc r s (t ∷ rows) p (q, qs) =
        (gives_way_trans desc r s t p q, Keeps-All desc r s rows p qs)

    All-insert_row :
        (P : Keyed scalars → Type 0) (desc : Bool) (r : Keyed scalars) (rows : List (Keyed scalars))
        → P r
        → All P rows
        → All P (insert_row scalars desc r rows)
    unfolding insert_row
    All-insert_row P desc r [] p ps = (p, tt)
    All-insert_row P desc r (s ∷ rows) p (q, qs) = elim (Bool-cases (gives_way scalars desc r s)) [
      | inl e ↦ rw e (q, All-insert_row P desc r rows p qs)
      | inr e ↦ rw e (p, (q, qs))
    ]

    All-sort_rows :
        (P : Keyed scalars → Type 0) (desc : Bool) (rows : List (Keyed scalars))
        → All P rows
        → All P (sort_rows scalars desc rows)
    unfolding sort_rows
    All-sort_rows P desc [] ps = tt
    All-sort_rows P desc (r ∷ rows) (p, ps) =
        All-insert_row P desc r (sort_rows scalars desc rows) p (All-sort_rows P desc rows ps)

    insert_row-IsSorted :
        (desc : Bool) (r : Keyed scalars) (rows : List (Keyed scalars))
        → IsSorted desc rows
        → IsSorted desc (insert_row scalars desc r rows)
    unfolding insert_row
    insert_row-IsSorted desc r [] p = (tt, tt)
    insert_row-IsSorted desc r (s ∷ rows) (p, ps) = elim (Bool-cases (gives_way scalars desc r s)) [
      | inl e ↦ rw e (
        All-insert_row (Keeps desc s) desc r rows (gives_way-asym desc r s e) p,
        insert_row-IsSorted desc r rows ps,
      )
      | inr e ↦ rw e ((e, Keeps-All desc r s rows e p), (p, ps))
    ]

    sort_rows-IsSorted :
        (desc : Bool) (rows : List (Keyed scalars)) → IsSorted desc (sort_rows scalars desc rows)
    unfolding sort_rows
    sort_rows-IsSorted desc [] = tt
    sort_rows-IsSorted desc (r ∷ rows) =
        insert_row-IsSorted desc r (sort_rows scalars desc rows) (sort_rows-IsSorted desc rows)

  -- The value by which a row was sorted, and a row without one.
  abbrev pub HasValue : String → Keyed scalars → Type 0
  HasValue name (x, row) = sort_value scalars name row ≡ ok (some x)

  abbrev pub IsNull : String → OutRow Scalar → Type 0
  IsNull name row = sort_value scalars name row ≡ ok none

  partition-perm :
      (name : String) (rows : List (OutRow Scalar)) {present : List (Keyed scalars)}
      {nulls : List (OutRow Scalar)}
      → partition scalars name rows ≡ ok (present, nulls)
      → Perm (rows_of_keyed scalars present ++ nulls) rows
        × All (HasValue name) present
        × All (IsNull name) nulls
  unfolding partition
  partition-perm name [] h =
      subst
        (λ (p, n).
          Perm (rows_of_keyed scalars p ++ n) [] × All (HasValue name) p × All (IsNull name) n)
        (ok-injective h) (Perm.refl [], tt, tt)
  partition-perm name (row ∷ rows) h =
      let (v, valued, rest) = >>=-eq-ok (sort_value scalars name row) _ h in
      let ((p, n), parted, made) = >>=-eq-ok (partition scalars name rows) _ rest in
      let (perm, have, lack) = partition-perm name rows {present = p} {nulls = n} parted in
      subst
        (λ (p, n).
          Perm (rows_of_keyed scalars p ++ n) (row ∷ rows)
          × All (HasValue name) p
          × All (IsNull name) n)
        (ok-injective made) (placed v p n valued perm have lack)
    where
      placed :
          (v : Option Scalar) (p : List (Keyed scalars)) (n : List (OutRow Scalar))
          → sort_value scalars name row ≡ ok v
          → Perm (rows_of_keyed scalars p ++ n) rows
          → All (HasValue name) p
          → All (IsNull name) n
          → let (p', n') : List (Keyed scalars) × List (OutRow Scalar) = elim v [
            | none ↦ (p, row ∷ n)
            | some x ↦ ((x, row) ∷ p, n)
          ] in
            Perm (rows_of_keyed scalars p' ++ n') (row ∷ rows)
            × All (HasValue name) p'
            × All (IsNull name) n'
      placed none p n e perm have lack = (
        Perm.trans (perm_middle (rows_of_keyed scalars p) n) (Perm.cons row perm),
        have,
        (e, lack),
      )
      placed (some x) p n e perm have lack = (Perm.cons row perm, (e, have), lack)

  -- What the answer looks like: sorted rows with a value under the name, then those without.
  pub record Ordered (item : Item) (rows : List (OutRow Scalar)) : Type 0 where
    pub present : List (Keyed scalars)
    pub nulls : List (OutRow Scalar)
    pub parts : rows ≡ rows_of_keyed scalars present ++ nulls
    pub is_sorted : IsSorted item.desc present
    pub valued : All (HasValue item.name) present
    pub unvalued : All (IsNull item.name) nulls

  order_by_one-Ordered :
      (weak : Weak) (item : Item) (rows : List (OutRow Scalar)) {out : List (OutRow Scalar)}
      → order_by_one scalars item rows ≡ ok out
      → Perm out rows × Ordered item out
  unfolding order_by_one
  order_by_one-Ordered weak item rows {out} h =
      let (_, _, rest) = >>=-eq-ok (guard (has_name scalars item.name rows) refused) _ h in
      let ((p, n), parted, made) = >>=-eq-ok (partition scalars item.name rows) _ rest in
      let (perm, have, lack) = partition-perm item.name rows {present = p} {nulls = n} parted in
      let sorted = sort_rows scalars item.desc p in
      let whole : Perm (rows_of_keyed scalars sorted ++ n) rows =
        Perm.trans (Perm.append (Perm.map _ (sort_rows-perm item.desc p)) (Perm.refl n)) perm in
      subst (λ o. Perm o rows × Ordered item o) (ok-injective made)
        (
          whole,
          record {
            present = sorted;
            nulls = n;
            parts = refl;
            is_sorted = sort_rows-IsSorted weak item.desc p;
            valued = All-sort_rows weak (HasValue item.name) item.desc p have;
            unvalued = lack;
          },
        )

  order_by-perm :
      (weak : Weak) (items : List Item) (rows : List (OutRow Scalar)) {out : List (OutRow Scalar)}
      → order_by scalars items rows ≡ ok out
      → Perm out rows
  unfolding order_by
  order_by-perm weak [] rows h = subst (λ o. Perm o rows) (ok-injective h) (Perm.refl rows)
  order_by-perm weak (item ∷ items) rows h =
      let (later, first, rest) = >>=-eq-ok (order_by scalars items rows) _ h in
      Perm.trans (order_by_one-Ordered weak item later rest).0 (order_by-perm weak items rows first)

  -- Where the sort values have a strict weak order and no LIMIT is set, an answer that is ordered without
  -- an error has exactly the merged rows, first those with a value under the first item's name, in that
  -- item's direction, and then those with null there.
  pub order-Ordered :
      (weak : Weak) (item : Item) (items : List Item) (rows out : List (OutRow Scalar))
      → order scalars (item ∷ items) none rows ≡ ok out
      → Perm out rows × Ordered item out
  unfolding order order_by
  order-Ordered weak item items rows out h =
      let (sorted, done, made) = >>=-eq-ok (order_by scalars (item ∷ items) rows) _ h in
      let (later, first, rest) = >>=-eq-ok (order_by scalars items rows) _ done in
      let (perm, ordered) = order_by_one-Ordered weak item later rest in
      subst (λ o. Perm o rows × Ordered item o) (ok-injective made)
        (Perm.trans perm (order_by-perm weak items rows first), ordered)
