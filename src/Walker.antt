-- ===== src/Walker.antt =====
-- tools/check/readback.py, class _Thrift: the footer walker, which skips what it does not look for. Its
-- position is the reader's of tools/datagen/parquet.py: what is unread, and how far it has come.
pub mod Agreement
pub mod Flags
pub mod Footer
pub mod Header
use zpq.Common.{ℕ, zero, suc, ◌+◌, ◌*◌, ◌/◌, ◌^◌, List, [], ◌∷◌, bit_and, bit_or}
use zpq.Common.Tests.{ltb, ◌==◌, if◌then◌else◌}
use zpq.Common.Lists.{length}
use zpq.Common.Int.{ℤ, pos, ◌+ℤ◌}
use zpq.Common.Result.{Result, ok, raised, out_of_fuel, index_error, value_error}
use zpq.Thrift.Value.{
  Bytes, Kind, bool_kind, byte_kind, int_kind, double_kind, binary_kind, list_kind, struct_kind,
  unsupported, kind_of, t_map,
}
use zpq.Thrift.Cursor.{Cursor, Read, pure, fail, ◌>>=◌, ◌>>◌, byte, slice, unzigzag, at_pos}

-- The loop of _varint, over the bytes that it has not reached.
unfoldable pub walk_varint_loop : Bytes → ℕ → ℕ → ℕ → Result (ℕ × Cursor)
walk_varint_loop [] n r s = raised index_error
walk_varint_loop (c ∷ bs) n r s =
    let r' = bit_or r (bit_and c 0x7f * 2 ^ s) in
    let more = walk_varint_loop bs (n + 1) r' (s + 7) in
    if ltb c 0x80 then ok (r', at_pos bs (n + 1)) else more

-- _Thrift.varint
unfoldable pub walk_varint : Read ℕ
unfolding walk_varint_loop
walk_varint c = walk_varint_loop c.unread c.pos 0 0

-- _Thrift.zigzag
unfoldable pub walk_zigzag : Read ℤ
unfolding walk_varint
walk_zigzag = do z ← walk_varint; pure (unzigzag z)

-- _Thrift.binary
unfoldable pub walk_binary : Read Bytes
unfolding walk_varint
walk_binary = do n ← walk_varint; slice n

unfoldable pub walk_count : ℕ → Read ℕ
unfolding walk_varint
walk_count h = let n = h / 2 ^ 4 in if n == 15 then walk_varint else pure n

-- _Thrift.list_header
unfoldable pub list_header : Read (ℕ × ℕ)
unfolding walk_count
list_header = do h ← byte; n ← walk_count h; pure (n, bit_and h 0xf)

-- self.i += n
abbrev pub advance : ℕ → Read (Unit {0})
advance n = do bs ← slice n; pure tt

-- for _ in range(n): …
unfoldable pub repeat : Read (Unit {0}) → ℕ → Read (Unit {0})
repeat each zero = pure tt
repeat each (suc n) = do each; repeat each n

-- _Thrift.fields: the id of a field behind the one with id `last`.
unfoldable pub walk_id : ℤ → ℕ → Read ℤ
unfolding walk_zigzag
walk_id last delta = if delta == 0 then walk_zigzag else pure (last +ℤ pos delta)

-- skip over the fields of a struct. Each round takes a byte at least, so that a byte more than are left is
-- fuel enough.
unfoldable pub skip_fields : (ℕ → Read (Unit {0})) → ℕ → ℤ → Read (Unit {0})
unfolding walk_id
skip_fields skip zero last = λ c. out_of_fuel
skip_fields skip (suc rounds) last = do
  h ← byte
  if h == 0
      then pure tt
      else do fid ← walk_id last (h / 2 ^ 4); skip (bit_and h 0xf); skip_fields skip rounds fid

unfoldable pub skip_struct : (ℕ → Read (Unit {0})) → Read (Unit {0})
unfolding skip_fields
skip_struct skip c = skip_fields skip (suc (length c.unread)) (pos 0) c

unfoldable pub skip_list : (ℕ → Read (Unit {0})) → Read (Unit {0})
unfolding list_header repeat
skip_list skip = do (n, et) ← list_header; repeat (skip et) n

unfoldable pub skip_pairs : (ℕ → Read (Unit {0})) → ℕ → Read (Unit {0})
unfolding repeat
skip_pairs skip zero = pure tt
skip_pairs skip (suc n) = do kv ← byte; repeat (do skip (kv / 2 ^ 4); skip (bit_and kv 0xf)) (suc n)

unfoldable pub skip_map : (ℕ → Read (Unit {0})) → Read (Unit {0})
unfolding walk_varint skip_pairs
skip_map skip = do n ← walk_varint; skip_pairs skip n

-- The branches of _Thrift.skip.
unfoldable pub skip_of : (ℕ → Read (Unit {0})) → ℕ → Kind → Read (Unit {0})
unfolding walk_varint walk_binary skip_list skip_struct skip_map
skip_of skip t bool_kind = pure tt
skip_of skip t byte_kind = advance 1
skip_of skip t int_kind = do v ← walk_varint; pure tt
skip_of skip t double_kind = advance 8
skip_of skip t binary_kind = do v ← walk_binary; pure tt
skip_of skip t list_kind = skip_list skip
skip_of skip t struct_kind = skip_struct skip
skip_of skip t unsupported = if t == t_map then skip_map skip else fail value_error

-- _Thrift.skip: the fuel bounds the nesting.
unfoldable pub skip : ℕ → ℕ → Read (Unit {0})
unfolding skip_of kind_of
skip zero t = λ c. out_of_fuel
skip (suc fuel) t = skip_of (skip fuel) t (kind_of t)
