-- ===== src/Walker/Footer/Bloom.antt =====
-- tools/check/readback.py, footer_filters: where the Bloom filters of a footer's chunks lie.
use zpq.Common.{ℕ, zero, suc, pred, ◌-◌, Option, none, some, List, [], ◌∷◌}
use zpq.Common.Tests.{ltb, if◌then◌else◌}
use zpq.Common.Int.{ℤ, pos, negsuc, eqb_ℤ}
use zpq.Common.Result.{Result, ok, raised, out_of_fuel, key_error, index_error}
use zpq.Common.Result as Res
use zpq.Thrift.Value.{Bytes}
use zpq.Thrift.Cursor.{Read, pure, ◌>>=◌}
use zpq.Walker.{walk_zigzag, walk_binary, list_header}
use zpq.Walker.Footer.{over_fields, pass_by, enter_at, footer_groups}

-- PHYSICAL
pub data Physical : Type 0 where
  boolean int32 int64 int96 float double byte_array fixed_len_byte_array : Physical

abbrev physical_of : ℕ → Result Physical
physical_of zero = ok boolean
physical_of (suc zero) = ok int32
physical_of (suc (suc zero)) = ok int64
physical_of (suc (suc (suc zero))) = ok int96
physical_of (suc (suc (suc (suc zero)))) = ok float
physical_of (suc (suc (suc (suc (suc zero))))) = ok double
physical_of (suc (suc (suc (suc (suc (suc zero)))))) = ok byte_array
physical_of (suc (suc (suc (suc (suc (suc (suc zero))))))) = ok fixed_len_byte_array
physical_of (suc (suc (suc (suc (suc (suc (suc (suc n)))))))) = raised index_error

-- PHYSICAL[z]: a negative index counts from the end.
unfoldable pub physical : ℤ → Result Physical
physical (pos n) = physical_of n
physical (negsuc n) = if ltb n 8 then physical_of (7 - n) else raised index_error

-- An outcome that takes no byte.
abbrev pub lift : {A : Type 0} → Result A → Read A
lift r c = Res.◌>>=◌ r λ a. ok (a, c)

-- The dict `meta` of a chunk.
pub record Meta (Text : Type 0) : Type 0 where
  pub kind : Option Physical
  pub path : Option (List Text)
  pub offset : Option ℤ
  pub size : Option ℤ

-- What footer_filters says of a chunk: path, physical type, offset and length.
pub record Filter (Text : Type 0) : Type 0 where
  pub path : List Text
  pub kind : Physical
  pub offset : Option ℤ
  pub size : Option ℤ

pub data MetaField : Type 0 where
  kind_field path_field offset_field size_field other_field : MetaField

-- The tests of footer_filters on a field's id, as what is to be done.
unfoldable pub meta_field_of : ℤ → MetaField
meta_field_of fid =
    if eqb_ℤ fid (pos 1)
    then kind_field
    else if eqb_ℤ fid (pos 3)
    then path_field
    else if eqb_ℤ fid (pos 14)
    then offset_field
    else if eqb_ℤ fid (pos 15)
    then size_field
    else other_field

-- bytes.decode is Python's.
module _ {Text : Type 0} (decode : Bytes → Result Text) where
  -- tuple(r.binary().decode() for _ in range(k))
  unfoldable pub texts : ℕ → Read (List Text)
  texts zero = pure []
  texts (suc k) = do bs ← walk_binary; x ← lift (decode bs); xs ← texts k; pure (x ∷ xs)

  unfoldable pub meta_step : MetaField → ℕ → ℕ → Meta Text → Read (Meta Text)
  unfolding physical texts pass_by
  meta_step kind_field fuel t m = do
    z ← walk_zigzag
    k ← lift (physical z)
    pure (record m { kind = some k })
  meta_step path_field fuel t m = do
    (k, _) ← list_header
    xs ← texts k
    pure (record m { path = some xs })
  meta_step offset_field fuel t m = do z ← walk_zigzag; pure (record m { offset = some z })
  meta_step size_field fuel t m = do z ← walk_zigzag; pure (record m { size = some z })
  meta_step other_field fuel t m = pass_by fuel t m

  unfoldable pub meta_each : ℕ → ℤ → ℕ → Meta Text → Read (Meta Text)
  unfolding meta_field_of meta_step
  meta_each fuel fid t m = meta_step (meta_field_of fid) fuel t m

  -- meta[key]
  abbrev pub member_of : {A : Type 0} → Option A → Result A
  member_of none = raised key_error
  member_of (some a) = ok a

  -- (meta["path"], meta["type"], meta.get("offset"), meta.get("length"))
  unfoldable pub as_filter : Meta Text → Result (Filter Text)
  as_filter m = Res.◌>>=◌ (member_of m.path) λ p.
      Res.◌>>=◌ (member_of m.kind)
        λ k. ok (record { path = p; kind = k; offset = m.offset; size = m.size })

  abbrev pub no_meta : Meta Text
  no_meta = record { kind = none; path = none; offset = none; size = none }

  unfoldable pub chunk_meta : ℕ → Meta Text → Read (Meta Text)
  unfolding over_fields enter_at meta_each
  chunk_meta fuel = over_fields (enter_at (pos 3) (over_fields (meta_each (pred fuel))) fuel)

  -- A ColumnChunk.
  unfoldable pub chunk_filter : ℕ → Read (Filter Text)
  unfolding chunk_meta as_filter
  chunk_filter fuel = do m ← chunk_meta fuel no_meta; lift (as_filter m)

  -- footer_filters, from the footer's first byte on
  unfoldable pub footer_filters : ℕ → Read (List (List (Filter Text)))
  unfolding footer_groups chunk_filter
  footer_filters = footer_groups chunk_filter
