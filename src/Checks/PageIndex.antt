-- ===== src/Checks/PageIndex.antt =====
-- tools/check/page_index.py: the bytes of a dictionary page and two data pages, with their offset index.
use zpq.Common.{
  ℕ, suc, ◌≡◌, ◌≢◌, refl, subst, true, false, some, none, List, [], ◌∷◌, ◌++◌, arith, sym, ◌∙◌,
}
use zpq.Common.Int.{ℤ, pos, negsuc, ◌+ℤ◌, ◌-ℤ◌, ◌≤ℤ◌, int_laws}
use zpq.Common.Result.{ok, ok-injective, raised, out_of_fuel, system_exit, index_error}
use zpq.Thrift.Value.{Bytes, kind_of}
use zpq.Thrift.Cursor.{byte, varint, zigzag, unzigzag}
use zpq.PageIndex.Compact.{obj_struct, obj}
use zpq.PageIndex.{
  Header, Page, Chunk, File, header_at, is_dictionary, data_pages, values_of, any_page, is_some,
  starts_at, check_chunk,
}
use zpq.PageIndex.Layout.{Tiles, Indexed, check_chunk-Tiles}
use zpq.PageIndex.Fuel.{Sized, check_chunk-ne-out_of_fuel, check_chunk-stalls}

-- PAR1, and pages of a header of nine bytes and a body of one.
abbrev mark : Bytes
mark = 0x50 ∷ 0x41 ∷ 0x52 ∷ 0x31 ∷ []

abbrev dictionary_page : Bytes
dictionary_page = 0x15 ∷ 4 ∷ 0x25 ∷ 2 ∷ 0x4c ∷ 0x15 ∷ 6 ∷ 0 ∷ 0 ∷ 0 ∷ []

abbrev data_page : Bytes
data_page = 0x15 ∷ 0 ∷ 0x25 ∷ 2 ∷ 0x2c ∷ 0x15 ∷ 10 ∷ 0 ∷ 0 ∷ 0 ∷ []

abbrev offset_index : Bytes
offset_index =
    0x19 ∷ 0x2c ∷ 0x16 ∷ 28 ∷ 0x15 ∷ 20 ∷ 0x16 ∷ 0 ∷ 0 ∷ 0x16 ∷ 48 ∷ 0x15 ∷ 20 ∷ 0x16 ∷ 10 ∷ 0 ∷ 0
    ∷ []

abbrev a_file : File
a_file = record {
  bytes = mark ++ dictionary_page ++ data_page ++ data_page ++ offset_index;
  from_end = λ at. raised index_error;
}

abbrev a_chunk : Chunk
a_chunk = record {
  dictionary_offset = some (pos 4);
  data_offset = pos 14;
  compressed_size = pos 30;
  num_values = pos 10;
  index_offset = some (pos 34);
  index_length = some (pos 17);
  column_index_offset = some (pos 60);
}

abbrev its_pages : List Page
its_pages =
    record { kind = pos 2; offset = pos 4; size = pos 10; values = pos 3 }
    ∷ record { kind = pos 0; offset = pos 14; size = pos 10; values = pos 5 }
    ∷ record { kind = pos 0; offset = pos 24; size = pos 10; values = pos 5 }
    ∷ []

a_chunk-accepted : check_chunk a_file 30 true a_chunk (pos 10) ≡ ok its_pages
unfolding check_chunk ◌-ℤ◌ ◌+ℤ◌ obj_struct byte obj kind_of zigzag varint unzigzag
a_chunk-accepted = refl

-- A chunk that counts another row is refused.
a_chunk-refused : check_chunk a_file 30 true a_chunk (pos 11) ≡ raised system_exit
unfolding check_chunk ◌+ℤ◌ obj_struct byte obj kind_of zigzag varint unzigzag
a_chunk-refused = refl

check_chunk-Tiles_example :
    Tiles (pos 4) its_pages (pos 34)
    × (values_of (data_pages its_pages) ≡ pos 10)
    × (a_chunk.num_values ≡ pos 10)
    × (is_some (some (pos 4)) ≡ any_page is_dictionary its_pages)
    × (starts_at (pos 14) (data_pages its_pages) ≡ true)
    × Indexed a_file true its_pages (some (pos 34))
unfolding ◌+ℤ◌
check_chunk-Tiles_example =
    check_chunk-Tiles a_file 30 true a_chunk (pos 10) its_pages a_chunk-accepted

-- A round of the walk, by the header that is read.
header-Sized :
    (f : File) (rounds : ℕ) (at end : ℤ) {h : Header} {body : ℤ}
    → header_at f at ≡ ok (h, body)
    → pos 0 ≤ℤ h.body_size
    → Sized f rounds (body +ℤ h.body_size) end
    → Sized f (suc rounds) at end
header-Sized f rounds at end {h} {body} e sized later h' body' l read_ =
    subst (λ (r : Header × ℤ). (pos 0 ≤ℤ r.0.body_size) × Sized f rounds (r.1 +ℤ r.0.body_size) end)
      (ok-injective (sym e ∙ read_)) (sized, later)

-- Three headers, and the end.
a_file-Sized : Sized a_file 30 (pos 4) (pos 34)
unfolding header_at ◌+ℤ◌ obj_struct byte obj kind_of zigzag varint unzigzag
a_file-Sized = header-Sized a_file 29 (pos 4) (pos 34) refl (omega arith) (
    header-Sized a_file 28 (pos 14) (pos 34) refl (omega arith) (
      header-Sized a_file 27 (pos 24) (pos 34) refl (omega arith)
        λ h body l read_. absurd (omega (arith, l))))

check_chunk-ne-out_of_fuel_example : check_chunk a_file 30 true a_chunk (pos 10) ≢ out_of_fuel
unfolding ◌+ℤ◌
check_chunk-ne-out_of_fuel_example =
    check_chunk-ne-out_of_fuel a_file 30 true a_chunk (pos 10) (omega arith) (omega arith)
      a_file-Sized (omega arith)

-- A header of nine bytes whose body has -9: the loop reads it again and again.
abbrev stuck_file : File
stuck_file = record {
  bytes = mark ++ 0x15 ∷ 0 ∷ 0x25 ∷ 17 ∷ 0x2c ∷ 0x15 ∷ 10 ∷ 0 ∷ 0 ∷ 0 ∷ [];
  from_end = λ at. raised index_error;
}

abbrev stuck_chunk : Chunk
stuck_chunk = record {
  dictionary_offset = none;
  data_offset = pos 4;
  compressed_size = pos 10;
  num_values = pos 5;
  index_offset = none;
  index_length = none;
  column_index_offset = none;
}

stuck_header :
    header_at stuck_file (pos 4)
    ≡ ok (record { kind = pos 0; body_size = negsuc 8; values = pos 5 }, pos 13)
unfolding header_at ◌+ℤ◌ obj_struct byte obj kind_of zigzag varint unzigzag
stuck_header = refl

stuck_chunk-stalls :
    (fuel : ℕ) → check_chunk stuck_file fuel false stuck_chunk (pos 5) ≡ out_of_fuel
unfolding ◌+ℤ◌
stuck_chunk-stalls fuel =
    check_chunk-stalls stuck_file fuel false stuck_chunk (pos 5) _ (pos 13) refl stuck_header
      (omega int_laws)
