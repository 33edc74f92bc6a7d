-- ===== src/PageIndex/Compact.antt =====
-- tools/check/page_index.py, class Compact: a third reader of the compact protocol, which makes Python's own values.
-- The methods byte, varint and zigzag are those of Reader. A float is kept as its eight bytes, and the dict of a map
-- as its pairs in the order in which they are read.
pub mod Same
pub mod Total
use zpq.Common.{ℕ, zero, suc, ◌+◌, ◌-◌, ◌/◌, ◌^◌, Bool, true, false, bit_and}
use zpq.Common.Tests.{ltb, ◌==◌, if◌then◌else◌}
use zpq.Common.Lists.{length}
use zpq.Common.Int.{ℤ, pos, negsuc, eqb_ℤ, ◌+ℤ◌}
use zpq.Common.Result.{Result, ok, out_of_fuel, value_error, type_error, struct_error}
use zpq.Thrift.Value.{
  Bytes, Kind, bool_kind, byte_kind, int_kind, double_kind, binary_kind, list_kind, struct_kind,
  unsupported, kind_of, is_bool, t_map,
}
use zpq.Thrift.Cursor.{Cursor, Read, pure, fail, ◌>>=◌, ◌>>◌, byte, varint, zigzag, slice, at_pos}

mutual
  pub data Obj : Type 0 where
    flag : Bool → Obj
    number : ℤ → Obj
    float : Bytes → Obj
    binary : Bytes → Obj
    items : Objs → Obj
    members : Dict → Obj
    pairs : Pairs → Obj

  pub data Objs : Type 0 where
    no_objs : Objs
    obj_and : Obj → Objs → Objs

  -- A struct, by the ids of its fields.
  pub data Dict : Type 0 where
    empty : Dict
    entry : ℤ → Obj → Dict → Dict

  pub data Pairs : Type 0 where
    no_pairs : Pairs
    pair_and : Obj → Obj → Pairs → Pairs

-- out[fid] = value
unfoldable pub set_member : ℤ → Obj → Dict → Dict
set_member i o empty = entry i o empty
set_member i o (entry j p d) = if eqb_ℤ j i then entry j o d else entry j p (set_member i o d)

-- struct.unpack("b", bytes([b]))
unfoldable pub signed : ℕ → ℤ
signed b = if ltb b 128 then pos b else negsuc (255 - b)

-- struct.unpack("<d", bs)
unfoldable pub unpack_double : Bytes → Read Obj
unpack_double bs = if length bs == 8 then pure (float bs) else fail struct_error

-- A dict's key; lists and dicts have no hash.
unfoldable pub is_hashable : Obj → Bool
is_hashable (items o) = false
is_hashable (members d) = false
is_hashable (pairs p) = false
is_hashable o = true

-- [read() for _ in range(n)]
unfoldable pub obj_items : Read Obj → ℕ → Read Objs
obj_items read zero = pure no_objs
obj_items read (suc n) = do o ← read; os ← obj_items read n; pure (obj_and o os)

unfoldable pub obj_count : ℕ → Read ℕ
obj_count h = let n = h / 2 ^ 4 in if n == 15 then varint else pure n

unfoldable pub flag_item : Read Obj
flag_item = do b ← byte; pure (flag (b == 1))

unfoldable pub obj_list : (ℕ → Read Obj) → Read Obj
unfolding obj_items obj_count flag_item
obj_list read = do
  h ← byte
  n ← obj_count h
  os ← obj_items (if is_bool (bit_and h 0x0f) then flag_item else read (bit_and h 0x0f)) n
  pure (items os)

unfoldable pub obj_pairs : Read Obj → Read Obj → ℕ → Read Pairs
unfolding is_hashable
obj_pairs key value zero = pure no_pairs
obj_pairs key value (suc n) = do
  k ← key
  v ← value
  if is_hashable k then (do ps ← obj_pairs key value n; pure (pair_and k v ps)) else fail type_error

unfoldable pub obj_map : (ℕ → Read Obj) → Read Obj
unfolding obj_pairs
obj_map read = do
  n ← varint
  if n == 0 then pure (pairs no_pairs) else do
    kv ← byte
    ps ← obj_pairs (read (kv / 2 ^ 4)) (read (bit_and kv 0x0f)) n
    pure (pairs ps)

unfoldable pub member_id : ℤ → ℕ → Read ℤ
member_id last delta = if delta == 0 then zigzag else pure (last +ℤ pos delta)

-- Compact.struct, from a field on; `out` is what there is so far.
unfoldable pub struct_loop : (ℕ → Read Obj) → ℕ → ℤ → Dict → Read Dict
unfolding set_member member_id
struct_loop read zero last out = λ c. out_of_fuel
struct_loop read (suc rounds) last out = do
  h ← byte
  if h == 0 then pure out else do
    fid ← member_id last (h / 2 ^ 4)
    o ← read (bit_and h 0x0f)
    struct_loop read rounds fid (set_member fid o out)

-- Each round takes a byte at least, so that a byte more than are left is fuel enough.
unfoldable pub obj_struct : (ℕ → Read Obj) → Read Dict
unfolding struct_loop
obj_struct read c = struct_loop read (suc (length c.unread)) (pos 0) empty c

-- The branches of Compact.value; `read` reads what is nested.
unfoldable pub obj_of : (ℕ → Read Obj) → ℕ → Kind → Read Obj
unfolding signed unpack_double obj_list obj_map obj_struct
obj_of read t bool_kind = pure (flag (t == 1))
obj_of read t byte_kind = do b ← byte; pure (number (signed b))
obj_of read t int_kind = do z ← zigzag; pure (number z)
obj_of read t double_kind = do bs ← slice 8; unpack_double bs
obj_of read t binary_kind = do n ← varint; bs ← slice n; pure (binary bs)
obj_of read t list_kind = obj_list read
obj_of read t struct_kind = do d ← obj_struct read; pure (members d)
obj_of read t unsupported = if t == t_map then obj_map read else fail value_error

-- Compact.value: the fuel bounds the nesting.
unfoldable pub obj : ℕ → ℕ → Read Obj
unfolding obj_of
obj zero t = λ c. out_of_fuel
obj (suc fuel) t = obj_of (obj fuel) t (kind_of t)
