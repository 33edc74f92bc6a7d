-- ===== src/Checks/Footer.antt =====
-- tools/check/readback.py, footer_stats, footer_filters and load: a footer of one chunk, and a filter of 32 bytes.
use zpq.Common.{◌≡◌, refl, true, false, some, [], ◌∷◌, ◌++◌, arith}
use zpq.Common.Int.{pos, ◌+ℤ◌, shl, shr, xor_ℤ}
use zpq.Common.Result.{ok, raised, assertion_error}
use zpq.Thrift.Value.{
  Bytes, Value, bool, int, bytes, list, struct, nil, cons, no_fields, field, t_struct, t_i32, t_i64,
  t_list, t_binary, t_true, t_false, kind_of,
}
use zpq.Thrift.Cursor.{Cursor, at_pos, byte, varint, zigzag, unzigzag, slice}
use zpq.Thrift.Reader.{
  value, value_of, read_struct, read_fields, read_field, field_id, read_list, read_items,
  item_count, bool_item,
}
use zpq.Thrift.Writer.{write_zigzag, write_varint, varint_bytes}
use native.Mathlib.Decide.{dec_lt}
use zpq.Common.Order.{lt_wf}
use zpq.Walker.Agreement.{NoFlags}
use zpq.Walker.Footer.{footer_stats}
use zpq.Walker.Footer.Follows.{ends}
use zpq.Walker.Footer.Bounds.{IsFooter, IsChunk, stats_in, footer_stats-agrees}
use zpq.Walker.Footer.Bloom.{footer_filters}
use zpq.Walker.Footer.Chunks.{IsFilterChunk, filters_in}
use zpq.Walker.Footer.Filters.{footer_filters-agrees}
use zpq.Walker.Header.{load}
use zpq.Walker.Header.Stored.{header_of, load-stored}

-- One row group of one chunk, with its type, its path, its statistics and its filter.
abbrev one_chunk : Cursor
one_chunk =
    at_pos
      (0x49 ∷ 0x1c ∷ 0x19 ∷ 0x1c ∷ 0x3c ∷ 0x15 ∷ 0x02 ∷ 0x29 ∷ 0x18 ∷ 0x01 ∷ 0x61 ∷ 0x9c ∷ 0x58
        ∷ 0x01 ∷ 0x07 ∷ 0x21 ∷ 0x12 ∷ 0 ∷ 0x26 ∷ 0x08 ∷ 0 ∷ 0 ∷ 0 ∷ 0 ∷ [])
      0

abbrev statistics : Value
statistics = struct (
    field (pos 5) t_binary (bytes (7 ∷ []))
      (field (pos 7) t_true (bool true) (field (pos 8) t_false (bool false) no_fields)))

abbrev metadata : Value
metadata = struct (
    field (pos 1) t_i32 (int (pos 1)) (
      field (pos 3) t_list (list t_binary (cons (bytes (0x61 ∷ [])) nil))
        (field (pos 12) t_struct statistics (field (pos 14) t_i64 (int (pos 4)) no_fields))))

abbrev one_footer : Value
one_footer = struct (
    field (pos 4) t_list
      (list t_struct (
        cons
          (struct (
            field (pos 1) t_list
              (list t_struct (cons (struct (field (pos 3) t_struct metadata no_fields)) nil))
              no_fields))
          nil))
      no_fields)

one_chunk_read : value 9 t_struct one_chunk ≡ ok (one_footer, at_pos [] 24)
unfolding value value_of kind_of read_struct read_fields read_field field_id byte varint zigzag ◌+ℤ◌
    unzigzag slice read_list read_items item_count bool_item
one_chunk_read = refl

one_footer-IsFooter : IsFooter IsChunk one_footer
unfolding NoFlags kind_of
one_footer-IsFooter = (
  (
    refl,
    (((refl, (((tt, ((refl, (tt, tt)), ((tt, (refl, (refl, tt))), (tt, tt)))), tt), tt)), tt), tt),
  ),
  tt,
)

one_footer-IsFilters : IsFooter IsFilterChunk one_footer
unfolding NoFlags kind_of
one_footer-IsFilters = (
  (
    refl,
    (
      ((refl, (((refl, ((refl, (refl, tt)), ((tt, (tt, (tt, tt))), (refl, tt)))), tt), tt)), tt),
      tt,
    ),
  ),
  tt,
)

footer_stats-agrees_example : footer_stats 8 one_chunk ≡ ends (stats_in one_footer) (at_pos [] 24)
footer_stats-agrees_example =
    footer_stats-agrees 8 t_struct one_chunk one_footer (at_pos [] 24) (omega arith) one_chunk_read
      one_footer-IsFooter

footer_filters-agrees_example :
    footer_filters {Text = Bytes} (λ bs. ok bs) 8 one_chunk
    ≡ ends (filters_in (λ bs. ok bs) one_footer) (at_pos [] 24)
footer_filters-agrees_example =
    footer_filters-agrees (λ bs. ok bs) 8 t_struct one_chunk one_footer (at_pos [] 24) (omega arith)
      one_chunk_read one_footer-IsFilters

-- 64, the zigzag of 32
abbrev number : Bytes
number = 0x40 ∷ []

number_written : write_zigzag (pos 32) ≡ ok number
unfolding write_zigzag write_varint varint_bytes lt_wf shl shr xor_ℤ dec_lt
number_written = refl

-- Three bytes behind the header, of the 32 that it announces.
load-stored_example :
    load (0x50 ∷ (header_of number ++ (1 ∷ 2 ∷ 3 ∷ []))) 1 (some 47) ≡ raised assertion_error
load-stored_example =
    load-stored (0x50 ∷ []) number (1 ∷ 2 ∷ 3 ∷ []) 32 (some 47) number_written (omega arith)
      (omega arith) (omega arith) (omega arith) (omega arith)
