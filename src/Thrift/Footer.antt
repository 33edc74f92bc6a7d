-- ===== src/Thrift/Footer.antt =====
-- tools/datagen/parquet.py: rewrite_footer, and the little-endian length that ends a Parquet file.
pub mod Laws
use zpq.Common.{
  ℕ, zero, suc, ◌+◌, ◌-◌, ◌*◌, ◌/◌, ◌%◌, ◌^◌, ◌≤◌, ◌<◌, ◌≡◌, refl, Bool, true, false, ◌&&◌, List,
  [], ◌∷◌, ◌++◌,
}
use zpq.Common.Tests.{ltb, ◌==◌, if◌then◌else◌}
use zpq.Common.Lists.{length}
use zpq.Common.Slices.{slice, slice_from, slice_to}
use zpq.Common.Int.{ℤ, pos, negsuc, ◌-ℤ◌}
use zpq.Common.Result.{Result, ok, raised, ◌>>=◌, ◌>>◌, guard, assertion_error, struct_error}
use zpq.Thrift.Value.{Bytes, Value, t_struct}
use zpq.Thrift.Reader.{decode}
use zpq.Thrift.Writer.{encode}

-- b"PAR1"
abbrev pub magic : Bytes
magic = b'P' ∷ b'A' ∷ b'R' ∷ b'1' ∷ []

-- Equality of byte strings.
unfoldable pub bytes_eq : Bytes → Bytes → Bool
bytes_eq [] [] = true
bytes_eq [] (c ∷ cs) = false
bytes_eq (b ∷ bs) [] = false
bytes_eq (b ∷ bs) (c ∷ cs) = b == c && bytes_eq bs cs

-- struct.pack("<I", n) and struct.unpack("<I", bs)[0]
unfoldable pub pack_u32 : ℕ → Result Bytes
pack_u32 n =
    if ltb n (2 ^ 32)
    then ok (n % 256 ∷ n / 2 ^ 8 % 256 ∷ n / 2 ^ 16 % 256 ∷ n / 2 ^ 24 ∷ [])
    else raised struct_error

unfoldable pub unpack_u32 : Bytes → Result ℕ
unpack_u32 (a ∷ b ∷ c ∷ d ∷ []) = ok (a + b * 2 ^ 8 + c * 2 ^ 16 + d * 2 ^ 24)
unpack_u32 _ = raised struct_error

-- The first half of `rewrite_footer`: the FileMetaData and the file up to the footer.
unfoldable pub read_footer : Bytes → Result (Value × Bytes)
read_footer file = do
  guard (bytes_eq (slice_to (pos 4) file) magic && bytes_eq (slice_from (negsuc 3) file) magic)
      assertion_error
  footer_len ← unpack_u32 (slice (negsuc 7) (negsuc 3) file)
  let start = pos (length file) -ℤ pos 8 -ℤ pos footer_len
  meta ← decode t_struct (slice start (pos (length file) -ℤ pos 8) file)
  ok (meta, slice_to start file)

-- The second half: the footer of `meta` behind `body`.
unfoldable pub write_footer : Value → Bytes → Result Bytes
write_footer meta body = do
  footer ← encode t_struct meta
  len ← pack_u32 (length footer)
  ok (body ++ (footer ++ (len ++ magic)))

-- `edit(meta, body)` changes both in place: here it returns them.
unfoldable pub rewrite_footer : (Value → Bytes → Result (Value × Bytes)) → Bytes → Result Bytes
rewrite_footer edit file = do
  (meta, body) ← read_footer file
  (meta', body') ← edit meta body
  write_footer meta' body'
