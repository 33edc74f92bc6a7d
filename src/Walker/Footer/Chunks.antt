-- ===== src/Walker/Footer/Chunks.antt =====
-- What footer_filters makes of a chunk that the full reader has read.
use zpq.Common.{ℕ, ◌≡◌, List, some, none, Option, ◌||◌}
use zpq.Common.Int.{ℤ, pos, eqb_ℤ}
use zpq.Common.Tests.{if◌then◌else◌}
use zpq.Common.Result.{Result, ok, raised, type_error, key_error, ◌>>=◌}
use zpq.Thrift.Value.{Bytes, Value, int, bytes, list, kind_of, int_kind, binary_kind}
use zpq.Walker.Agreement.{NoFlags}
use zpq.Walker.Footer.Meaning.{of_struct, collect, at_field, IsStruct, IsList, AtField}
use zpq.Walker.Footer.Bounds.{footer_of}
use zpq.Walker.Footer.Bloom.{
  physical, Physical, Meta, Filter, MetaField, kind_field, path_field, offset_field, size_field,
  other_field, no_meta,
}

-- An integer under one of the zigzag tags.
abbrev pub IsInt : ℕ → Value → Type 0
IsInt t (int z) = kind_of t ≡ int_kind
IsInt t v = ⊥

abbrev pub IsText : ℕ → Value → Type 0
IsText t (bytes bs) = kind_of t ≡ binary_kind
IsText t v = ⊥

abbrev pub IsStep : MetaField → ℕ → Value → Type 0
IsStep kind_field t v = IsInt t v
IsStep path_field t v = IsList IsText v
IsStep offset_field t v = IsInt t v
IsStep size_field t v = IsInt t v
IsStep other_field t v = NoFlags v

-- The types that the Parquet format gives to the fields that are looked at; no other holds a list of booleans.
abbrev pub IsMeta : ℤ → ℕ → Value → Type 0
IsMeta fid t v =
    if eqb_ℤ fid (pos 3)
    then IsList IsText v
    else if eqb_ℤ fid (pos 1) || eqb_ℤ fid (pos 14) || eqb_ℤ fid (pos 15)
    then IsInt t v
    else NoFlags v

abbrev pub IsFilterChunk : Value → Type 0
IsFilterChunk = IsStruct (AtField (pos 3) (IsStruct IsMeta))

unfoldable pub int_of : Value → Result ℤ
int_of (int z) = ok z
int_of v = raised type_error

module _ {Text : Type 0} (decode : Bytes → Result Text) where
  unfoldable pub text_of : Value → Result Text
  text_of (bytes bs) = decode bs
  text_of v = raised type_error

  unfoldable pub path_of : Value → Result (List Text)
  unfolding text_of
  path_of (list t vs) = collect text_of vs
  path_of v = raised type_error

  -- The same by the step that the id leads to.
  unfoldable pub step_means : MetaField → Value → Meta Text → Result (Meta Text)
  unfolding int_of path_of
  step_means kind_field v m = do z ← int_of v; k ← physical z; ok (record m { kind = some k })
  step_means path_field v m = do xs ← path_of v; ok (record m { path = some xs })
  step_means offset_field v m = do z ← int_of v; ok (record m { offset = some z })
  step_means size_field v m = do z ← int_of v; ok (record m { size = some z })
  step_means other_field v m = ok m

  -- What a field of ColumnMetaData adds.
  unfoldable pub meta_means : ℤ → Value → Meta Text → Result (Meta Text)
  unfolding int_of path_of
  meta_means fid v m =
      if eqb_ℤ fid (pos 1)
      then (do z ← int_of v; k ← physical z; ok (record m { kind = some k }))
      else if eqb_ℤ fid (pos 3)
      then (do xs ← path_of v; ok (record m { path = some xs }))
      else if eqb_ℤ fid (pos 14)
      then (do z ← int_of v; ok (record m { offset = some z }))
      else if eqb_ℤ fid (pos 15)
      then (do z ← int_of v; ok (record m { size = some z }))
      else ok m

  -- A chunk has a path and a type.
  abbrev pub filter_of : Meta Text → Result (Filter Text)
  filter_of m = named m.path m.kind
    where
      named : Option (List Text) → Option Physical → Result (Filter Text)
      named (some p) (some k) = ok (record { path = p; kind = k; offset = m.offset; size = m.size })
      named (some p) none = raised key_error
      named none k = raised key_error

  abbrev pub chunk_means : Value → Meta Text → Result (Meta Text)
  chunk_means = of_struct (at_field (pos 3) (of_struct (λ fid t. meta_means fid)))

  -- The filters of a footer's value, per row group and column chunk.
  unfoldable pub filters_in : Value → Result (List (List (Filter Text)))
  filters_in = footer_of (λ v. chunk_means v (no_meta decode) >>= filter_of)
