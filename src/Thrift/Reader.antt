-- ===== src/Thrift/Reader.antt =====
-- tools/datagen/parquet.py, Reader.value: one value of a given type tag, by recursive descent.
use zpq.Common.{ℕ, zero, suc, ◌/◌, ◌^◌, bit_and}
use zpq.Common.Tests.{◌==◌, if◌then◌else◌}
use zpq.Common.Lists.{length}
use zpq.Common.Int.{ℤ, pos, ◌+ℤ◌}
use zpq.Common.Result as Res
use zpq.Common.Result.{Result, ok, out_of_fuel, value_error}
use zpq.Thrift.Value.{
  Bytes, Value, Items, Fields, bool, int, bytes, list, struct, nil, cons, no_fields, field, Kind,
  bool_kind, byte_kind, int_kind, double_kind, binary_kind, list_kind, struct_kind, unsupported,
  kind_of, is_bool, t_true,
}
use zpq.Thrift.Cursor.{Read, pure, fail, ◌>>=◌, byte, varint, zigzag, slice, at_pos}

-- [read() for _ in range(n)]
unfoldable pub read_items : Read Value → ℕ → Read Items
read_items read zero = pure nil
read_items read (suc n) = do v ← read; vs ← read_items read n; pure (cons v vs)

-- n, et = h >> 4, h & 0x0F; a count of 15 stands for a varint that follows.
unfoldable pub item_count : ℕ → Read ℕ
item_count h = let n = h / 2 ^ 4 in if n == 15 then varint else pure n

-- self.byte() == 1
unfoldable pub bool_item : Read Value
bool_item = do b ← byte; pure (bool (b == 1))

unfoldable pub read_list : (ℕ → Read Value) → Read Value
read_list value = do
  h ← byte
  n ← item_count h
  let et = bit_and h 0x0f
  vs ← read_items (if is_bool et then bool_item else value et) n
  pure (list et vs)

-- fid = last + delta if delta else self.zigzag()
unfoldable pub field_id : ℤ → ℕ → Read ℤ
field_id last delta = if delta == 0 then zigzag else pure (last +ℤ pos delta)

-- One round of the loop over a struct's fields; `loop` is the rest of it, from the id just read.
unfoldable pub read_field : (ℕ → Read Value) → (ℤ → Read Fields) → ℤ → ℕ → Read Fields
read_field value loop last h = do
  fid ← field_id last (h / 2 ^ 4)
  v ← value (bit_and h 0x0f)
  more ← loop fid
  pure (field fid (bit_and h 0x0f) v more)

-- Each round takes a byte at least, so that a byte more than are left is fuel enough.
unfoldable pub read_fields : (ℕ → Read Value) → ℕ → ℤ → Read Fields
read_fields value zero last = λ c. out_of_fuel
read_fields value (suc rounds) last = do
  h ← byte
  if h == 0 then pure no_fields else read_field value (read_fields value rounds) last h

unfoldable pub read_struct : (ℕ → Read Value) → Read Value
read_struct value c =
    ◌>>=◌ (read_fields value (suc (length c.unread)) (pos 0)) (λ fs. pure (struct fs)) c

-- The branches of `Reader.value`; `value` reads what is nested.
unfoldable pub value_of : (ℕ → Read Value) → ℕ → Kind → Read Value
value_of value t bool_kind = pure (bool (t == t_true))
value_of value t byte_kind = do b ← byte; pure (int (pos b))
value_of value t int_kind = do z ← zigzag; pure (int z)
value_of value t double_kind = do bs ← slice 8; pure (bytes bs)
value_of value t binary_kind = do n ← varint; bs ← slice n; pure (bytes bs)
value_of value t list_kind = read_list value
value_of value t struct_kind = read_struct value
value_of value t unsupported = fail value_error

-- `Reader.value`: the fuel bounds the nesting.
unfoldable pub value : ℕ → ℕ → Read Value
value zero t = λ c. out_of_fuel
value (suc fuel) t = value_of (value fuel) t (kind_of t)

-- Reader(buf).value(t)
unfoldable pub decode : ℕ → Bytes → Result Value
decode t buf = Res.◌>>=◌ (value (suc (length buf)) t (at_pos buf 0)) λ (v, _). ok v
