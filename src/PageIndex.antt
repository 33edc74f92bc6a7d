-- ===== src/PageIndex.antt =====
-- tools/check/page_index.py, check_file: the pages of a column chunk and its offset index, which Compact.struct reads.
-- Positions, sizes and counts are Python's integers, so a size may be negative. Where parquet.thrift has an integer, a
-- list or a struct and the bytes hold another type, the outcome here is a TypeError; Python's own may be another.
pub mod Compact
pub mod Layout
pub mod Fuel
use zpq.Common.{ℕ, zero, suc, Bool, true, false, not, ◌||◌, ◌&&◌, Option, none, some, List, [], ◌∷◌}
use zpq.Common.Tests.{same_bool, ◌==◌, if◌then◌else◌}
use zpq.Common.Lists.{length, drop}
use zpq.Common.Int.{ℤ, pos, negsuc, ◌+ℤ◌, ◌-ℤ◌, ltb_ℤ, eqb_ℤ}
use zpq.Common.Result.{
  Result, ok, raised, out_of_fuel, ◌>>=◌, ◌>>◌, guard, key_error, type_error, attribute_error,
  system_exit,
}
use zpq.Bench.Names.{filter}
use zpq.Thrift.Value.{Bytes}
use zpq.Thrift.Cursor.{at_pos}
use zpq.PageIndex.Compact.{
  Obj, Objs, Dict, Pairs, flag, number, float, binary, items, members, pairs, no_objs, obj_and,
  empty, entry, no_pairs, pair_and, obj_struct, obj,
}

-- A page header: its type, the compressed size of the body, and the number of values.
pub record Header : Type 0 where
  pub kind : ℤ
  pub body_size : ℤ
  pub values : ℤ

pub record Page : Type 0 where
  pub kind : ℤ
  pub offset : ℤ
  pub size : ℤ
  pub values : ℤ

-- The members of a chunk and its metadata that are read.
pub record Chunk : Type 0 where
  pub dictionary_offset : Option ℤ
  pub data_offset : ℤ
  pub compressed_size : ℤ
  pub num_values : ℤ
  pub index_offset : Option ℤ
  pub index_length : Option ℤ
  pub column_index_offset : Option ℤ

-- The bytes of a file. What is read from a position before the first one, where Python counts from the end, is left
-- open.
pub record File : Type 0 where
  pub bytes : Bytes
  pub from_end : ℤ → Result (Dict × ℤ)

-- d.get(i)
unfoldable pub get_member : ℤ → Dict → Option Obj
get_member i empty = none
get_member i (entry j o d) = if eqb_ℤ j i then some o else get_member i d

-- Python's integers, the Booleans among them.
unfoldable pub as_integer : Obj → Result ℤ
as_integer (number z) = ok z
as_integer (flag false) = ok (pos 0)
as_integer (flag true) = ok (pos 1)
as_integer o = raised type_error

-- d[i], an integer
unfoldable pub integer_at : ℤ → Dict → Result ℤ
unfolding get_member as_integer
integer_at i d = elim (get_member i d) [ none ↦ raised key_error | some o ↦ as_integer o ]

abbrev pub dict_of : Obj → Result Dict
dict_of (members d) = ok d
dict_of o = raised type_error

-- The bytes of 0.0 and of -0.0
unfoldable pub is_float_zero : Bytes → Bool
is_float_zero [] = true
is_float_zero (b ∷ []) = (b == 0) || (b == 0x80)
is_float_zero (b ∷ bs) = (b == 0) && is_float_zero bs

-- bool(o)
unfoldable pub is_truthy : Obj → Bool
unfolding is_float_zero
is_truthy (flag b) = b
is_truthy (number z) = not (eqb_ℤ z (pos 0))
is_truthy (float bs) = not (is_float_zero bs)
is_truthy (binary []) = false
is_truthy (items no_objs) = false
is_truthy (members empty) = false
is_truthy (pairs no_pairs) = false
is_truthy o = true

-- (h.get(5) or h.get(8) or h.get(7) or {}), by the first of the ids that has one
unfoldable pub first_true : List ℤ → Dict → Obj
unfolding get_member is_truthy
first_true [] h = members empty
first_true (i ∷ is) h =
    let rest = first_true is h in
    elim (get_member i h) [ none ↦ rest | some o ↦ if is_truthy o then o else rest ]

-- .get(1, 0); a map is no struct of the format.
unfoldable pub count_in : Obj → Result ℤ
unfolding get_member as_integer
count_in (members d) = elim (get_member (pos 1) d) [ none ↦ ok (pos 0) | some o ↦ as_integer o ]
count_in (pairs p) = raised type_error
count_in o = raised attribute_error

-- h[1], h[3] and n
unfoldable pub as_header : Dict → Result Header
unfolding integer_at first_true count_in
as_header h = do
  kind ← integer_at (pos 1) h
  size ← integer_at (pos 3) h
  n ← count_in (first_true (pos 5 ∷ pos 8 ∷ pos 7 ∷ []) h)
  ok (record { kind = kind; body_size = size; values = n })

-- Compact(data, pos).struct() and the position behind it; a byte more than the file has bounds the nesting.
unfoldable pub struct_at : File → ℤ → Result (Dict × ℤ)
struct_at f (negsuc n) = f.from_end (negsuc n)
struct_at f (pos n) = do
  (d, c) ← obj_struct (obj (suc (length f.bytes))) (at_pos (drop n f.bytes) n)
  ok (d, pos c.pos)

unfoldable pub header_at : File → ℤ → Result (Header × ℤ)
unfolding struct_at as_header
header_at f at = do (d, body) ← struct_at f at; h ← as_header d; ok (h, body)

-- DATA_PAGE, DATA_PAGE_V2
abbrev pub is_data : Page → Bool
is_data p = eqb_ℤ p.kind (pos 0) || eqb_ℤ p.kind (pos 3)

-- DICTIONARY_PAGE
abbrev pub is_dictionary : Page → Bool
is_dictionary p = eqb_ℤ p.kind (pos 2)

abbrev pub data_pages : List Page → List Page
data_pages = filter is_data

abbrev pub page_of : ℤ → Header → ℤ → Page
page_of at h body = record {
  kind = h.kind;
  offset = at;
  size = (body -ℤ at) +ℤ h.body_size;
  values = h.values;
}

-- start
abbrev pub start_of : Chunk → ℤ
start_of c = elim c.dictionary_offset [ none ↦ c.data_offset | some d ↦ d ]

abbrev pub end_of : Chunk → ℤ
end_of c = start_of c +ℤ c.compressed_size

-- while pos < end: the pages and the position behind them. The next position is the header's end and the size that it
-- has, so that it may be no further on; the fuel is the number of rounds.
unfoldable pub walk : File → (fuel : ℕ) → (at end : ℤ) → Result (List Page × ℤ)
unfolding header_at
walk f zero at end = if ltb_ℤ at end then out_of_fuel else ok ([], at)
walk f (suc fuel) at end = elim (ltb_ℤ at end) [
  | false ↦ ok ([], at)
  | true ↦ do
    (h, body) ← header_at f at
    (ps, last) ← walk f fuel (body +ℤ h.body_size) end
    ok (page_of at h body ∷ ps, last)
]

-- sum(p["values"] for p in pages)
unfoldable pub values_of : List Page → ℤ
values_of [] = pos 0
values_of (p ∷ ps) = p.values +ℤ values_of ps

unfoldable pub any_page : (Page → Bool) → List Page → Bool
any_page test [] = false
any_page test (p ∷ ps) = test p || any_page test ps

abbrev pub is_some : Option ℤ → Bool
is_some none = false
is_some (some n) = true

-- The first data page stands where the chunk says.
unfoldable pub starts_at : ℤ → List Page → Bool
starts_at n [] = true
starts_at n (p ∷ ps) = eqb_ℤ p.offset n

-- The pages of a chunk, checked.
unfoldable pub check_pages : File → (fuel : ℕ) → Chunk → (rows : ℤ) → Result (List Page)
unfolding walk values_of any_page starts_at
check_pages f fuel c rows = do
  (ps, last) ← walk f fuel (start_of c) (end_of c)
  guard (eqb_ℤ last (end_of c)) system_exit
  guard (eqb_ℤ (values_of (data_pages ps)) c.num_values) system_exit
  guard (eqb_ℤ c.num_values rows) system_exit
  guard (same_bool (is_some c.dictionary_offset) (any_page is_dictionary ps)) system_exit
  guard (starts_at c.data_offset (data_pages ps)) system_exit
  ok ps

abbrev pub objs_of : Objs → List Obj
objs_of no_objs = []
objs_of (obj_and o os) = o ∷ objs_of os

-- oi[1]
unfoldable pub list_at : ℤ → Dict → Result (List Obj)
unfolding get_member
list_at i d = elim (get_member i d) [
  | none ↦ raised key_error
  | some o ↦ elim o [ items os ↦ ok (objs_of os) | _ ↦ raised type_error ]
]

-- for loc, p in zip(locs, data_pages)
unfoldable pub check_locations : (first : ℤ) → List Obj → List Page → Result (Unit {0})
unfolding integer_at
check_locations first (o ∷ os) (p ∷ ps) = do
  loc ← dict_of o
  offset ← integer_at (pos 1) loc
  guard (eqb_ℤ offset p.offset) system_exit
  size ← integer_at (pos 2) loc
  guard (eqb_ℤ size p.size) system_exit
  row ← integer_at (pos 3) loc
  guard (eqb_ℤ row first) system_exit
  check_locations (first +ℤ p.values) os ps
check_locations first _ _ = ok tt

-- The length of the index, where the chunk gives one.
unfoldable pub has_length : Option ℤ → ℤ → Bool
has_length none n = true
has_length (some l) n = eqb_ℤ n l

unfoldable pub check_offset_index : File → Chunk → ℤ → List Page → Result (Unit {0})
unfolding struct_at check_locations has_length list_at
check_offset_index f c at ps = do
  (oi, behind) ← struct_at f at
  guard (has_length c.index_length (behind -ℤ at)) system_exit
  locs ← list_at (pos 1) oi
  guard (length locs == length ps) system_exit
  check_locations (pos 0) locs ps

-- A chunk with its offset index, up to its column index: what there is to check, by what the chunk has.
unfoldable pub check_index :
    File
    → (require : Bool) → Chunk
    → List Page
    → (index column_index : Option ℤ) → Result (Unit {0})
unfolding check_offset_index
check_index f require c ps none none = guard (not require) system_exit
check_index f require c ps none (some n) = raised key_error
check_index f require c ps (some n) none = do
  check_offset_index f c n (data_pages ps)
  guard (not require) system_exit
check_index f require c ps (some n) (some m) = check_offset_index f c n (data_pages ps)

-- check_file, of one chunk; the fuel bounds its number of pages.
unfoldable pub check_chunk :
    File → (fuel : ℕ) → (require : Bool) → Chunk → (rows : ℤ) → Result (List Page)
unfolding check_pages check_index
check_chunk f fuel require c rows = do
  ps ← check_pages f fuel c rows
  check_index f require c ps c.index_offset c.column_index_offset
  ok ps
