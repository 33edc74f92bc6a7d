-- ===== src/Fanout/Merge/Groups.antt =====
-- Groups: each key has one entry, and its accumulator is the fold of exactly that key's rows.
use zpq.Common.{
  ◌≡◌, refl, ap, sym, subst, ◌∙◌, true, false, Option, none, some, List, [], ◌∷◌, arith, inl, inr,
}
use zpq.Common.Tests.{if◌then◌else◌, Bool-cases}
use zpq.Common.Result.{Result, ok, ◌>>=◌, ok-injective, >>=-eq-ok}
use zpq.Fanout.Merge.{
  Scalars, Function, Cell, Row, Entry, keys_eq, fold, fold_row, fold_rows, key_of,
}
use Prim.Native.String.{String}
use text.Mathlib.TextEquality.{eq_iff}

pub keys_eq→eq : (js ks : List String) → keys_eq js ks ≡ true → js ≡ ks
keys_eq→eq [] [] h = refl
keys_eq→eq [] (k ∷ ks) h = cc
keys_eq→eq (j ∷ js) [] h = cc
keys_eq→eq (j ∷ js) (k ∷ ks) h = ground (arith, eq_iff j k, keys_eq→eq js ks)

pub keys_eq_refl : (ks : List String) → keys_eq ks ks ≡ true
keys_eq_refl [] = refl
keys_eq_refl (k ∷ ks) = ground (arith, eq_iff k k, keys_eq_refl ks)

-- Two keys that differ are not both equal to a third.
keys_apart {ℓ} :
    {A : Type ℓ} (a b k : List String) (x y z : A)
    → keys_eq a b ≡ false
    → (if keys_eq a k then x else (if keys_eq b k then y else z))
      ≡ (if keys_eq b k then y else (if keys_eq a k then x else z))
keys_apart a b k x y z h = elim (Bool-cases (keys_eq b k)) [
  | inl p ↦ let same : k ≡ b = sym (keys_eq→eq b k p) in rw (same, h, keys_eq_refl b)
  | inr p ↦ rw p
]

keys_differ : (a b : List String) → keys_eq a b ≡ false → keys_eq b a ≡ false
keys_differ a b h = elim (Bool-cases (keys_eq b a)) [
  | inl p ↦ cc (rw (keys_eq→eq b a p, keys_eq_refl a) at h)
  | inr p ↦ p
]

module _ (scalars : Scalars) where
  open scalars use {Scalar}

  -- The accumulator of a key, if it has a group.
  abbrev pub find_acc : List String → List (Entry Scalar) → Option (List (Cell Scalar))
  find_acc k [] = none
  find_acc k (e ∷ groups) = if keys_eq e.key k then some e.acc else find_acc k groups

  abbrev or_new : Option (List (Cell Scalar)) → List (Cell Scalar)
  or_new none = []
  or_new (some acc) = acc

  -- The rows of one key.
  abbrev pub rows_of : List String → List (Row Scalar) → List (Row Scalar)
  rows_of k [] = []
  rows_of k (r ∷ rows) = if keys_eq (key_of scalars r) k then r ∷ rows_of k rows else rows_of k rows

  -- Those rows folded one after the other, on top of what the key had.
  unfoldable pub fold_group :
      List Function
      → Option (List (Cell Scalar))
      → List (Row Scalar)
      → Result (Option (List (Cell Scalar)))
  fold_group fns acc [] = ok acc
  fold_group fns acc (r ∷ rows) = do
    acc' ← fold scalars fns (or_new acc) r.cells
    fold_group fns (some acc') rows

  -- One row changes the accumulator of its own key only.
  fold_row-find_acc :
      (fns : List Function) (key k : List String) (row : Row Scalar) (groups : List (Entry Scalar))
      {gs : List (Entry Scalar)}
      → fold_row scalars fns key row groups ≡ ok gs
      → (acc : List (Cell Scalar)) × (fold scalars fns (or_new (find_acc key groups)) row.cells
          ≡ ok acc)
        × (find_acc k gs ≡ (if keys_eq key k then some acc else find_acc k groups))
  unfolding fold_row
  fold_row-find_acc fns key k row [] h =
      let (acc, folded, made) = >>=-eq-ok (fold scalars fns [] row.cells) _ h in
      (acc, folded, ap (find_acc k) (sym (ok-injective made)))
  fold_row-find_acc fns key k row (e ∷ groups) {gs} h = elim (Bool-cases (keys_eq e.key key)) [
    | inl hit ↦
        let (acc, folded, made) =
          >>=-eq-ok (fold scalars fns e.acc row.cells) _ (rw (fold_row, hit) at h) in
        let same : key ≡ e.key = sym (keys_eq→eq e.key key hit) in
        (acc, rw hit folded, rw (← ok-injective made, same) (ground arith))
    | inr miss ↦
        let (rest, folded, made) =
          >>=-eq-ok (fold_row scalars fns key row groups) _ (rw (fold_row, miss) at h) in
        let (acc, here, found) = fold_row-find_acc fns key k row groups folded in
        (
          acc,
          rw miss here,
          ap (find_acc k) (sym (ok-injective made))
              ∙ ap (λ t. if keys_eq e.key k then some e.acc else t) found
              ∙ keys_apart e.key key k (some e.acc) (some acc) (find_acc k groups) miss,
        )
  ]

  -- After the rows of all answers, each key holds the fold of its own rows, in their order, on top of
  -- what it held before; a key without rows is as before.
  pub fold_rows-find_acc :
      (fns : List Function) (k : List String) (groups : List (Entry Scalar))
      (rows : List (Row Scalar)) {gs : List (Entry Scalar)}
      → fold_rows scalars fns groups rows ≡ ok gs
      → fold_group fns (find_acc k groups) (rows_of k rows) ≡ ok (find_acc k gs)
  unfolding fold_rows fold_group
  fold_rows-find_acc fns k groups [] h = ap (λ g. ok (find_acc k g)) (ok-injective h)
  fold_rows-find_acc fns k groups (r ∷ rows) {gs} h =
      let (groups', one, rest) = >>=-eq-ok (fold_row scalars fns (key_of scalars r) r groups) _ h in
      let (acc, here, found) = fold_row-find_acc fns (key_of scalars r) k r groups one in
      let ih = fold_rows-find_acc fns k groups' rows rest in
      elim (Bool-cases (keys_eq (key_of scalars r) k)) [
        | inl hit ↦
            let mine : fold scalars fns (or_new (find_acc k groups)) r.cells ≡ ok acc =
              rw (keys_eq→eq (key_of scalars r) k hit) at here in
            rw (hit, mine) (rw (found, hit) at ih)
        | inr miss ↦ rw miss (rw (found, miss) at ih)
      ]

  -- No key has two entries.
  abbrev pub Absent : List String → List (Entry Scalar) → Type 0
  Absent k groups = find_acc k groups ≡ none

  abbrev pub OneEach : List (Entry Scalar) → Type 0
  OneEach [] = Unit
  OneEach (e ∷ groups) = Absent e.key groups × OneEach groups

  fold_row-OneEach :
      (fns : List Function) (key : List String) (row : Row Scalar) (groups : List (Entry Scalar))
      {gs : List (Entry Scalar)}
      → fold_row scalars fns key row groups ≡ ok gs
      → OneEach groups
      → OneEach gs
  unfolding fold_row
  fold_row-OneEach fns key row [] h one =
      let (acc, folded, made) = >>=-eq-ok (fold scalars fns [] row.cells) _ h in
      subst OneEach (ok-injective made) (refl, tt)
  fold_row-OneEach fns key row (e ∷ groups) h (absent, one) =
      elim (Bool-cases (keys_eq e.key key)) [
        | inl hit ↦
            let (acc, folded, made) =
              >>=-eq-ok (fold scalars fns e.acc row.cells) _ (rw (fold_row, hit) at h) in
            subst OneEach (ok-injective made) (absent, one)
        | inr miss ↦
            let (rest, folded, made) =
              >>=-eq-ok (fold_row scalars fns key row groups) _ (rw (fold_row, miss) at h) in
            let (acc, here, found) = fold_row-find_acc fns key e.key row groups folded in
            subst OneEach (ok-injective made) (
              found ∙ rw (keys_differ e.key key miss) absent,
              fold_row-OneEach fns key row groups folded one,
            )
      ]

  -- Grouping the rows of all answers leaves one entry for each key.
  pub fold_rows-OneEach :
      (fns : List Function) (groups : List (Entry Scalar)) (rows : List (Row Scalar))
      {gs : List (Entry Scalar)}
      → fold_rows scalars fns groups rows ≡ ok gs
      → OneEach groups
      → OneEach gs
  unfolding fold_rows
  fold_rows-OneEach fns groups [] h one = subst OneEach (ok-injective h) one
  fold_rows-OneEach fns groups (r ∷ rows) h one =
      let (groups', first, rest) =
        >>=-eq-ok (fold_row scalars fns (key_of scalars r) r groups) _ h in
      fold_rows-OneEach fns groups' rows rest
        (fold_row-OneEach fns (key_of scalars r) r groups first one)

  -- Starting with no group, every key's accumulator is the fold of exactly its own rows, a key without
  -- rows has no group, and no key has two.
  pub fold_rows-by_key :
      (fns : List Function) (rows : List (Row Scalar)) {gs : List (Entry Scalar)}
      → fold_rows scalars fns [] rows ≡ ok gs
      → ((k : List String) → fold_group fns none (rows_of k rows) ≡ ok (find_acc k gs)) × OneEach gs
  fold_rows-by_key fns rows h =
      (λ k. fold_rows-find_acc fns k [] rows h, fold_rows-OneEach fns [] rows h tt)
