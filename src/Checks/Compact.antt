-- ===== src/Checks/Compact.antt =====
-- tools/check/page_index.py, class Compact: a struct of a byte, and a byte behind it.
use zpq.Common.{◌≡◌, refl, [], ◌∷◌}
use zpq.Common.Int.{pos, ◌+ℤ◌}
use zpq.Common.Result.{ok}
use zpq.Thrift.Value.{Value, int, struct, no_fields, field, t_struct, t_byte, kind_of}
use zpq.Thrift.Cursor.{Cursor, at_pos, byte}
use zpq.Thrift.Reader.{value, value_of, read_struct, read_fields, read_field, field_id}
use zpq.Walker.Footer.Follows.{ends}
use zpq.PageIndex.Compact.{obj}
use zpq.PageIndex.Compact.Same.{as_obj, obj-as_obj}

-- {1: -1}
abbrev signed_byte : Cursor
signed_byte = at_pos (0x13 ∷ 0xff ∷ 0 ∷ 9 ∷ []) 0

abbrev minus_one : Value
minus_one = struct (field (pos 1) t_byte (int (pos 255)) no_fields)

signed_byte_read : value 2 t_struct signed_byte ≡ ok (minus_one, at_pos (9 ∷ []) 3)
unfolding value value_of kind_of read_struct read_fields read_field field_id byte ◌+ℤ◌
signed_byte_read = refl

obj-as_obj_example :
    obj 2 t_struct signed_byte ≡ ends (as_obj t_struct minus_one) (at_pos (9 ∷ []) 3)
obj-as_obj_example =
    obj-as_obj 2 t_struct signed_byte minus_one (at_pos (9 ∷ []) 3) signed_byte_read
