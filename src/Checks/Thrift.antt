-- ===== src/Checks/Thrift.antt =====
-- tools/datagen/parquet.py on small values.
use zpq.Common.{ℕ, suc, ◌+◌, ◌≡◌, ◌≢◌, refl, true, false, [], ◌∷◌, ◌++◌, arith}
use zpq.Common.Lists.{length}
use zpq.Common.Int.{pos, negsuc, ◌-ℤ◌, shl, shr, xor_ℤ}
use zpq.Common.Result.{ok, out_of_fuel}
use zpq.Thrift.Value.{
  Bytes, Value, Fields, bool, int, bytes, list, struct, nil, cons, no_fields, field, t_struct,
  t_i32, t_binary, t_list, t_true, t_false, kind_of, sort_fields, depth, count_items,
}
use native.Mathlib.Decide.{dec_lt}
use zpq.Thrift.Writer.{
  encode, write_value, write_of, one_byte, write_fields, field_head, wire_type, write_list,
  list_head, bool_bytes, write_zigzag, write_varint,
}
use zpq.Thrift.Reader.{decode, value, value_of, read_struct, read_fields}
use zpq.Thrift.Cursor.{at_pos, byte}
use zpq.Thrift.Canonical.{
  Fits, int_fits, binary_fits, list_fits, struct_fits, flag_fits, plain_fits, nil_fits, cons_fits,
  none_fit, field_fits, canonical,
}
use zpq.Thrift.RoundTrip.{decode-encode}
use zpq.Thrift.Total.{decode-ne-out_of_fuel}
use zpq.Thrift.Footer.{read_footer, rewrite_footer, bytes_eq, unpack_u32, magic}
use zpq.Thrift.Footer.Laws.{rewrite_footer-reads}
use zpq.Common.Slices.{slice, slice_from, slice_to}

-- {1: -3, 40: [true, false], 2: true, 3: b"ab"}
abbrev sample_fields : Fields
sample_fields = field (pos 1) t_i32 (int (negsuc 2)) (
    field (pos 40) t_list (list t_true (cons (bool true) (cons (bool false) nil)))
      (field (pos 2) t_false (bool true) (field (pos 3) t_binary (bytes (97 ∷ 98 ∷ [])) no_fields)))

abbrev sample : Value
sample = struct sample_fields

abbrev sample_bytes : Bytes
sample_bytes = 0x15 ∷ 0x05 ∷ 0x11 ∷ 0x18 ∷ 0x02 ∷ 97 ∷ 98 ∷ 0x09 ∷ 0x50 ∷ 0x21 ∷ 1 ∷ 2 ∷ 0 ∷ []

sample_written : encode t_struct sample ≡ ok sample_bytes
unfolding encode write_value depth kind_of write_of write_fields sort_fields field_head one_byte
    wire_type write_list list_head bool_bytes count_items write_zigzag write_varint ◌-ℤ◌ shl shr
    xor_ℤ dec_lt
sample_written = refl

sample-Fits : Fits t_struct sample
unfolding kind_of
sample-Fits = struct_fits refl (
    field_fits (omega arith) (omega arith) (omega arith)
      (plain_fits refl (int_fits refl (omega arith)))
      (field_fits (omega arith) (omega arith) (omega arith)
        (plain_fits refl (
          list_fits refl (omega arith)
            (cons_fits (flag_fits refl) (cons_fits (flag_fits refl) nil_fits))))
        (field_fits (omega arith) (omega arith) (omega arith) (flag_fits refl) (
          field_fits (omega arith) (omega arith) (omega arith) (plain_fits refl (binary_fits refl))
            none_fit))))

decode-encode_example :
    (bs : Bytes) × (encode t_struct sample ≡ ok bs)
    × (decode t_struct bs ≡ ok (canonical sample))
    × ((rest : Bytes) (n : ℕ)
        → value (suc (length bs)) t_struct (at_pos (bs ++ rest) n)
          ≡ ok (canonical sample, at_pos rest (n + length bs)))
decode-encode_example = decode-encode t_struct sample sample-Fits

decode-ne-out_of_fuel_example : decode t_struct (0x19 ∷ 0xf5 ∷ 0xff ∷ []) ≢ out_of_fuel
decode-ne-out_of_fuel_example = decode-ne-out_of_fuel t_struct (0x19 ∷ 0xf5 ∷ 0xff ∷ [])

empty-Fits : Fits t_struct (struct no_fields)
unfolding kind_of
empty-Fits = struct_fits refl none_fit

-- A file of the magic, the footer of an empty struct and its length.
abbrev small_file : Bytes
small_file = magic ++ 0 ∷ 1 ∷ 0 ∷ 0 ∷ 0 ∷ magic

small_read : read_footer small_file ≡ ok (struct no_fields, magic)
unfolding read_footer bytes_eq slice_to slice_from slice unpack_u32 ◌-ℤ◌ decode value value_of
    kind_of read_struct read_fields byte
small_read = refl

empty_written : encode t_struct (struct no_fields) ≡ ok (0 ∷ [])
unfolding encode write_value depth kind_of write_of write_fields sort_fields
empty_written = refl

rewrite_footer-reads_example :
    (new : Bytes) × (rewrite_footer (λ meta body. ok (meta, body ++ 7 ∷ [])) small_file ≡ ok new)
    × (read_footer new ≡ ok (canonical (struct no_fields), magic ++ 7 ∷ []))
rewrite_footer-reads_example =
    rewrite_footer-reads (λ meta body. ok (meta, body ++ 7 ∷ [])) small_file (struct no_fields)
      (struct no_fields) magic (7 ∷ []) (0 ∷ []) small_read refl empty-Fits empty_written
      (omega arith)
