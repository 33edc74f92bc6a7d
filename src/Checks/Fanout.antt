-- ===== src/Checks/Fanout.antt =====
-- tools/serverless/fanout.py on small inputs: the numbers are naturals, or integers and a NaN.
use zpq.Common.{
  ℕ, Bool, ap, ◌+◌, ◌≡◌, min, refl, true, false, none, some, Option, List, [], ◌∷◌, arith,
}
use zpq.Common.Int.{ℤ, pos, ◌+ℤ◌, ltb_ℤ, eqb_ℤ, int_laws}
use zpq.Common.Tests.{ltb, ◌==◌, if◌then◌else◌}
use zpq.Common.Lists.{All, length}
use zpq.Common.Result.{ok}
use zpq.Fanout.Split.{split, units_from}
use zpq.Fanout.Split.Cover.{expand_all}
use zpq.Fanout.Split.Whole.{expand-split, split-Shares, Shares}
use zpq.Fanout.Merge.{
  Scalars, Aggregate, count, sum, min_of, avg, Cell, plain, state, Row, Entry, fold_rows, fold_row,
  fold, fold_cell, key_of, add,
}
use zpq.Fanout.Merge.Laws.{Laws}
use zpq.Fanout.Merge.Groups.{fold_rows-by_key, fold_group, rows_of, find_acc, OneEach}
use zpq.Fanout.Order.{OutRow, Item, order}
use zpq.Fanout.Order.Laws.{Weak, Ordered, order-Ordered}
use mathlib.Core.List.{Perm}
use Prim.Native.String.{String}

abbrev pub naturals : Scalars
naturals = record {
  Scalar = ℕ;
  is_float = λ n. false;
  is_zero = λ n. n == 0;
  to_float = λ n. n;
  plus = λ a b. a + b;
  lt = ltb;
  dump = λ o. elim o [ none ↦ "null" | some n ↦ if n == 0 then "0" else "1" ];
  mean = λ s n. s;
}

plus_assoc : (a b c : ℕ) → a + b + c ≡ a + (b + c)
plus_assoc a b c = omega arith

lt_trans : (a b c : ℕ) → ltb a b ≡ true → ltb b c ≡ true → ltb a c ≡ true
lt_trans a b c p q = ground arith

not_lt_trans : (a b c : ℕ) → ltb a b ≡ false → ltb b c ≡ false → ltb a c ≡ false
not_lt_trans a b c p q = ground arith

-- Three inputs of 2, 0 and 3 row groups, over two workers.
split_two : split (2 ∷ 0 ∷ 3 ∷ []) 2 ≡ ((0, 0, 2) ∷ []) ∷ ((2, 0, 3) ∷ []) ∷ []
unfolding split
split_two = refl

expand-split_example : expand_all (split (2 ∷ 0 ∷ 3 ∷ []) 2) ≡ units_from 0 (2 ∷ 0 ∷ 3 ∷ [])
expand-split_example = expand-split (2 ∷ 0 ∷ 3 ∷ []) 2 (omega arith)

split-Shares_example :
    let us = units_from 0 (2 ∷ 0 ∷ 3 ∷ []) in
    let n = min 2 (length us) in
    (length (split (2 ∷ 0 ∷ 3 ∷ []) 2) ≡ n) × All (Shares us n) (split (2 ∷ 0 ∷ 3 ∷ []) 2)
split-Shares_example = split-Shares (2 ∷ 0 ∷ 3 ∷ []) 2

-- Integers, and a float that no order relation has.
data Number : Type 0 where
  whole : ℤ → Number
  nan : Number

abbrev plus_number : Number → Number → Number
plus_number (whole a) (whole b) = whole (a +ℤ b)
plus_number _ _ = nan

abbrev lt_number : Number → Number → Bool
lt_number (whole a) (whole b) = ltb_ℤ a b
lt_number _ _ = false

abbrev is_nan : Number → Bool
is_nan (whole a) = false
is_nan nan = true

abbrev numbers : Scalars
numbers = record {
  Scalar = Number;
  is_float = is_nan;
  is_zero = λ n. elim n [ whole a ↦ eqb_ℤ a (pos 0) | nan ↦ false ];
  to_float = λ n. n;
  plus = plus_number;
  lt = lt_number;
  dump = λ o. "null";
  mean = λ s n. nan;
}

whole_lt_trans : (a b c : ℤ) → ltb_ℤ a b ≡ true → ltb_ℤ b c ≡ true → ltb_ℤ a c ≡ true
whole_lt_trans a b c p q = ground arith

whole_not_lt_trans : (a b c : ℤ) → ltb_ℤ a b ≡ false → ltb_ℤ b c ≡ false → ltb_ℤ a c ≡ false
whole_not_lt_trans a b c p q = ground arith

abbrev IsInteger : Number → Type 0
IsInteger n = is_nan n ≡ false

numbers-Laws : Laws numbers
numbers-Laws = record {
  IsWhole = IsInteger;
  not_float = λ a p. p;
  whole_plus = closed;
  plus_assoc = associates;
  IsOrdered = IsInteger;
  lt_trans = transitive;
  not_lt_trans = not_transitive;
}
  where
    closed : (a b : Number) → IsInteger a → IsInteger b → IsInteger (plus_number a b)
    closed (whole a) (whole b) p q = refl
    closed nan b p q = cc
    closed (whole a) nan p q = cc

    associates :
        (a b c : Number)
        → IsInteger a
        → IsInteger b
        → IsInteger c
        → plus_number (plus_number a b) c ≡ plus_number a (plus_number b c)
    associates (whole a) (whole b) (whole c) p q r = ap (λ z. whole z) (omega int_laws)
    associates nan b c p q r = cc
    associates (whole a) nan c p q r = cc
    associates (whole a) (whole b) nan p q r = cc

    transitive :
        (a b c : Number)
        → IsInteger a
        → IsInteger b
        → IsInteger c
        → lt_number a b ≡ true
        → lt_number b c ≡ true
        → lt_number a c ≡ true
    transitive (whole a) (whole b) (whole c) p q r h k = whole_lt_trans a b c h k
    transitive nan b c p q r h k = cc
    transitive (whole a) nan c p q r h k = cc
    transitive (whole a) (whole b) nan p q r h k = cc

    not_transitive :
        (a b c : Number)
        → IsInteger a
        → IsInteger b
        → IsInteger c
        → lt_number a b ≡ false
        → lt_number b c ≡ false
        → lt_number a c ≡ false
    not_transitive (whole a) (whole b) (whole c) p q r h k = whole_not_lt_trans a b c h k
    not_transitive nan b c p q r h k = cc
    not_transitive (whole a) nan c p q r h k = cc
    not_transitive (whole a) (whole b) nan p q r h k = cc

-- count(*) AS n, min(x) AS m, avg(x) AS a
abbrev three_aggregates : List Aggregate
three_aggregates =
    record { function = count; name = "n" }
    ∷ record { function = min_of; name = "m" }
    ∷ record { function = avg; name = "a" }
    ∷ []

abbrev answer : ℕ → ℤ → ℤ → List (Cell Number)
answer n least total =
    plain (some (whole (pos n))) ∷ plain (some (whole least)) ∷ state (some (whole total)) n ∷ []

abbrev row : ℕ → ℕ → Row ℕ
row g n = record { group = some g ∷ []; cells = plain (some n) ∷ [] }

abbrev entry : String → ℕ → ℕ → Entry ℕ
entry k g n = record { key = k ∷ []; values = some g ∷ []; acc = plain (some n) ∷ [] }

grouped :
    fold_rows naturals (sum ∷ []) [] (row 0 5 ∷ row 1 6 ∷ row 0 7 ∷ [])
    ≡ ok (entry "0" 0 12 ∷ entry "1" 1 6 ∷ [])
unfolding fold_rows fold_row key_of fold fold_cell add
grouped = refl

fold_rows-by_key_example :
    ((k : List String)
      → fold_group naturals (sum ∷ []) none (rows_of naturals k (row 0 5 ∷ row 1 6 ∷ row 0 7 ∷ []))
        ≡ ok (find_acc naturals k (entry "0" 0 12 ∷ entry "1" 1 6 ∷ [])))
    × OneEach naturals (entry "0" 0 12 ∷ entry "1" 1 6 ∷ [])
fold_rows-by_key_example =
    fold_rows-by_key naturals (sum ∷ []) (row 0 5 ∷ row 1 6 ∷ row 0 7 ∷ []) grouped

not_lt_back : (a b : ℕ) → ltb a b ≡ true → ltb b a ≡ false
not_lt_back a b h = ground arith

naturals-Weak : Weak naturals
naturals-Weak = record { asym = not_lt_back; trans = not_lt_trans }

-- ORDER BY n DESC over three rows, one of them with null.
abbrev out_row : Option ℕ → OutRow ℕ
out_row v = ("n", plain v) ∷ []

abbrev by_n : Item
by_n = record { name = "n"; desc = true }

three_ordered :
    order naturals (by_n ∷ []) none (out_row (some 2) ∷ out_row none ∷ out_row (some 5) ∷ [])
    ≡ ok (out_row (some 5) ∷ out_row (some 2) ∷ out_row none ∷ [])
unfolding order
three_ordered = refl

order-Ordered_example :
    Perm
      (out_row (some 5) ∷ out_row (some 2) ∷ out_row none ∷ [])
      (out_row (some 2) ∷ out_row none ∷ out_row (some 5) ∷ [])
    × Ordered naturals by_n (out_row (some 5) ∷ out_row (some 2) ∷ out_row none ∷ [])
order-Ordered_example =
    order-Ordered naturals naturals-Weak by_n []
      (out_row (some 2) ∷ out_row none ∷ out_row (some 5) ∷ [])
      (out_row (some 5) ∷ out_row (some 2) ∷ out_row none ∷ []) three_ordered
