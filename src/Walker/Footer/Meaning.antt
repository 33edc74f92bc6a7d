-- ===== src/Walker/Footer/Meaning.antt =====
-- What the loops of footer_stats and footer_filters make of a footer that the full reader has read: a fold over the
-- fields of each struct that is entered, which passes by the others, and the items of each list in order.
use zpq.Common.{ℕ, false, List, [], ◌∷◌, ◌++◌, ◌≡◌}
use zpq.Common.Tests.{if◌then◌else◌}
use zpq.Common.Int.{ℤ, eqb_ℤ}
use zpq.Common.Result.{Result, ok, raised, type_error, ◌>>=◌}
use zpq.Thrift.Value.{Value, Items, Fields, list, struct, nil, cons, no_fields, field, is_bool}
use zpq.Walker.Agreement.{NoFlags}

module _ {S : Type 0} (means : ℤ → ℕ → Value → S → Result S) where
  unfoldable pub fold_fields : Fields → S → Result S
  fold_fields no_fields s = ok s
  fold_fields (field i t v fs) s = means i t v s >>= λ s'. fold_fields fs s'

  unfoldable pub of_struct : Value → S → Result S
  unfolding fold_fields
  of_struct (struct fs) s = fold_fields fs s
  of_struct v s = raised type_error

module _ {A : Type 0} (means : Value → Result A) where
  unfoldable pub collect : Items → Result (List A)
  collect nil = ok []
  collect (cons v vs) = do x ← means v; xs ← collect vs; ok (x ∷ xs)

  -- The items behind those found.
  unfoldable pub of_list : Value → List A → Result (List A)
  unfolding collect
  of_list (list t vs) found = do xs ← collect vs; ok (found ++ xs)
  of_list v found = raised type_error

-- The field `at` counts, and no other.
abbrev pub at_field : {S : Type 0} → ℤ → (Value → S → Result S) → ℤ → ℕ → Value → S → Result S
at_field at m fid t v s = if eqb_ℤ fid at then m v s else ok s

module _ (Good : ℤ → ℕ → Value → Type 0) where
  abbrev pub AllFields : Fields → Type 0
  AllFields no_fields = Unit
  AllFields (field i t v fs) = Good i t v × AllFields fs

  -- A struct, each field of which is as `Good` says.
  abbrev pub IsStruct : Value → Type 0
  IsStruct (struct fs) = AllFields fs
  IsStruct v = ⊥

module _ (Good : ℕ → Value → Type 0) where
  abbrev pub AllItems : ℕ → Items → Type 0
  AllItems t nil = Unit
  AllItems t (cons v vs) = Good t v × AllItems t vs

  -- A list, each item of which is as `Good` says of the items' tag and the item.
  abbrev pub IsList : Value → Type 0
  IsList (list t vs) = (is_bool t ≡ false) × AllItems t vs
  IsList v = ⊥

-- The field `at` is as `P` says; no other holds a list of flags, on which the walk loses its way.
abbrev pub AtField : ℤ → (Value → Type 0) → ℤ → ℕ → Value → Type 0
AtField at P fid t v = if eqb_ℤ fid at then P v else NoFlags v
