-- ===== src/Thrift/Writer.antt =====
-- tools/datagen/parquet.py: _varint, _zigzag and write_value.
use zpq.Common.{
  ℕ, zero, suc, ◌*◌, ◌/◌, ◌^◌, ◌<◌, Bool, true, false, not, ◌&&◌, [], ◌∷◌, ◌++◌, bit_and, bit_or,
  arith,
}
use zpq.Common.Tests.{◌==◌, ltb, if◌then◌else◌}
use zpq.Common.Lists.{length}
use zpq.Common.Int.{ℤ, pos, negsuc, pos_part, ltb_ℤ, eqb_ℤ, ◌-ℤ◌, shl, shr, xor_ℤ}
use zpq.Common.Order.{lt_wf}
use zpq.Common.Result.{Result, ok, raised, out_of_fuel, value_error, type_error, ◌>>=◌}
use zpq.Thrift.Value.{
  Bytes, Value, Items, Fields, bool, int, bytes, list, struct, nil, cons, no_fields, field, Kind,
  bool_kind, byte_kind, int_kind, double_kind, binary_kind, list_kind, struct_kind, unsupported,
  kind_of, is_bool, t_true, t_false, count_items, sort_fields, depth,
}
use mathlib.Core.Logic.{dite}
use mathlib.Core.WellFounded.{Acc}
use native.Mathlib.Decide.{dec_lt}

pub shift_shrinks : (v : ℕ) → ¬ (v < 128) → v / 2 ^ 7 < v
shift_shrinks v h = omega arith

-- The loop of _varint on a number: seven bits a byte, the lowest first, the top bit on all but the last.
unfoldable pub varint_bytes : (v : ℕ) → Acc ◌<◌ v → Bytes
varint_bytes v (Acc.intro _ smaller) =
    dite (dec_lt v 128) (λ _. v ∷ [])
      (λ more.
        bit_or (bit_and v 0x7f) 0x80 ∷ varint_bytes (v / 2 ^ 7) (smaller _ (shift_shrinks v more)))

-- `_varint`: bytearray.append refuses a negative number.
unfoldable pub write_varint : ℤ → Result Bytes
unfolding varint_bytes lt_wf
write_varint (pos v) = ok (varint_bytes v (lt_wf.apply v))
write_varint (negsuc n) = raised value_error

-- `_zigzag`
unfoldable pub write_zigzag : ℤ → Result Bytes
write_zigzag v = write_varint (xor_ℤ (shl v 1) (shr v 63))

-- bytes([v]): ValueError outside 0..255.
unfoldable pub one_byte : ℤ → Result Bytes
one_byte (pos n) = if ltb n 256 then ok (n ∷ []) else raised value_error
one_byte (negsuc n) = raised value_error

-- The Python value as an int, bytes, a pair or a list of fields. Python's further coercions (bytes(5)
-- is five zeros) are left out: such a value is a TypeError here.
unfoldable pub as_int : Value → Result ℤ
as_int (int z) = ok z
as_int (bool b) = ok (pos (if b then 1 else 0))
as_int _ = raised type_error

unfoldable pub as_bytes : Value → Result Bytes
as_bytes (bytes b) = ok b
as_bytes _ = raised type_error

unfoldable pub as_list : Value → Result (ℕ × Items)
as_list (list et vs) = ok (et, vs)
as_list _ = raised type_error

unfoldable pub as_struct : Value → Result Fields
as_struct (struct fs) = ok fs
as_struct _ = raised type_error

-- bool(v)
unfoldable pub truthy : Value → Bool
truthy (bool b) = b
truthy (int z) = not (eqb_ℤ z (pos 0))
truthy (bytes b) = not (length b == 0)
truthy (list et vs) = true
truthy (struct no_fields) = false
truthy (struct (field i t v fs)) = true

-- bytes(1 if x else 2 for x in items)
unfoldable pub bool_bytes : Items → Bytes
unfolding truthy
bool_bytes nil = []
bool_bytes (cons v vs) = (if truthy v then 1 else 2) ∷ bool_bytes vs

-- b"".join(write(x) for x in items)
unfoldable pub write_items : (Value → Result Bytes) → Items → Result Bytes
write_items write nil = ok []
write_items write (cons v vs) = do b ← write v; bs ← write_items write vs; ok (b ++ bs)

-- The header of a list: count and element type share a byte below 15 items.
unfoldable pub list_head : ℕ → ℕ → Result Bytes
list_head et n =
    if ltb n 15
    then one_byte (pos (bit_or (n * 2 ^ 4) et))
    else (do h ← one_byte (pos (bit_or 0xf0 et)); c ← write_varint (pos n); ok (h ++ c))

unfoldable pub write_list : (ℕ → Value → Result Bytes) → ℕ → Items → Result Bytes
write_list write et items = do
  head ← list_head et (count_items items)
  body ← if is_bool et then ok (bool_bytes items) else write_items (write et) items
  ok (head ++ body)

-- wire_t: a boolean field carries its value in the type.
unfoldable pub wire_type : ℕ → Value → ℕ
unfolding truthy
wire_type ft v = if is_bool ft then (if truthy v then t_true else t_false) else ft

-- The header of a field: the id's distance from the last one in the high nibble if it fits, else the id.
unfoldable pub field_head : ℤ → ℤ → ℕ → Result Bytes
field_head last fid wire =
    let delta = fid -ℤ last in
    if ltb_ℤ (pos 0) delta && not (ltb_ℤ (pos 15) delta)
    then one_byte (pos (bit_or (pos_part delta * 2 ^ 4) wire))
    else (do h ← one_byte (pos wire); z ← write_zigzag fid; ok (h ++ z))

unfoldable pub write_fields : (ℕ → Value → Result Bytes) → ℤ → Fields → Result Bytes
write_fields write last no_fields = ok []
write_fields write last (field fid ft v fs) = do
  head ← field_head last fid (wire_type ft v)
  body ← if is_bool ft then ok [] else write ft v
  more ← write_fields write fid fs
  ok (head ++ (body ++ more))

-- The branches of `write_value`; `write` writes what is nested.
unfoldable pub write_of : (ℕ → Value → Result Bytes) → Kind → Value → Result Bytes
unfolding as_int as_bytes as_list as_struct
write_of write byte_kind v = do z ← as_int v; one_byte z
write_of write int_kind v = do z ← as_int v; write_zigzag z
write_of write double_kind v = as_bytes v
write_of write binary_kind v = do b ← as_bytes v; n ← write_varint (pos (length b)); ok (n ++ b)
write_of write list_kind v = do (et, items) ← as_list v; write_list write et items
write_of write struct_kind v = do
  fs ← as_struct v
  body ← write_fields write (pos 0) (sort_fields fs)
  ok (body ++ 0 ∷ [])
write_of write bool_kind v = raised value_error
write_of write unsupported v = raised value_error

-- `write_value`: the fuel bounds the nesting.
unfoldable pub write_value : ℕ → ℕ → Value → Result Bytes
write_value zero t v = out_of_fuel
write_value (suc fuel) t v = write_of (write_value fuel) (kind_of t) v

-- write_value(t, v) with the fuel that the value's depth asks for.
unfoldable pub encode : ℕ → Value → Result Bytes
encode t v = write_value (suc (depth v)) t v
