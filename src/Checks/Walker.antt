-- ===== src/Checks/Walker.antt =====
-- tools/check/readback.py, class _Thrift: a struct of two fields, and a list of two booleans.
use zpq.Common.{◌+◌, ◌≡◌, refl, true, false, [], ◌∷◌, arith}
use zpq.Common.Int.{pos, negsuc, ◌+ℤ◌}
use zpq.Common.Result.{ok}
use zpq.Thrift.Value.{
  Value, Items, bool, int, list, struct, nil, cons, no_fields, field, t_struct, t_i32, t_list,
  t_true, count_items, kind_of,
}
use zpq.Thrift.Cursor.{Cursor, at_pos, byte, varint, zigzag, unzigzag}
use zpq.Thrift.Reader.{
  value, value_of, read_struct, read_fields, read_field, field_id, read_list, read_items,
  item_count, bool_item,
}
use zpq.Thrift.Typed.{IsOf, value-IsOf}
use zpq.Walker.{skip}
use zpq.Walker.Agreement.{NoFlags, skip-agrees}
use zpq.Walker.Flags.{skip-short}

-- {1: -3}, and a byte behind it
abbrev one_field : Cursor
one_field = at_pos (0x15 ∷ 0x05 ∷ 0 ∷ 9 ∷ []) 0

abbrev minus_three : Value
minus_three = struct (field (pos 1) t_i32 (int (negsuc 2)) no_fields)

one_field_read : value 2 t_struct one_field ≡ ok (minus_three, at_pos (9 ∷ []) 3)
unfolding value value_of kind_of read_struct read_fields read_field field_id byte varint zigzag ◌+ℤ◌
    unzigzag
one_field_read = refl

value-IsOf_example : IsOf t_struct minus_three
value-IsOf_example = value-IsOf 2 t_struct one_field minus_three (at_pos (9 ∷ []) 3) one_field_read

minus_three-NoFlags : NoFlags minus_three
unfolding NoFlags
minus_three-NoFlags = (tt, tt)

skip-agrees_example : skip 2 t_struct one_field ≡ ok (tt, at_pos (9 ∷ []) 3)
skip-agrees_example =
    skip-agrees 2 t_struct one_field minus_three (at_pos (9 ∷ []) 3)
      (omega arith, (omega arith, (omega arith, (omega arith, tt)))) one_field_read
      minus_three-NoFlags

-- [true, false]
abbrev flags_header : Cursor
flags_header = at_pos (0x21 ∷ 1 ∷ 2 ∷ []) 0

abbrev two_flags : Items
two_flags = cons (bool true) (cons (bool false) nil)

flags_read : value 2 t_list flags_header ≡ ok (list t_true two_flags, at_pos [] 3)
unfolding value value_of kind_of read_list read_items item_count bool_item byte
flags_read = refl

skip-short_example :
    (c'' : Cursor) × (skip 2 t_list flags_header ≡ ok (tt, c''))
    × (3 ≡ c''.pos + count_items two_flags)
skip-short_example =
    skip-short 0 t_true flags_header two_flags (at_pos [] 3)
      (omega arith, (omega arith, (omega arith, tt))) flags_read refl
