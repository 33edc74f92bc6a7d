-- ===== src/Thrift/Canonical.antt =====
-- The values that `write_value` encodes in full, and the form in which they come back: fields in the
-- order of their ids, and a boolean field under the type that carries its value.
use zpq.Common.{ℕ, ◌<◌, ◌≡◌, refl, ◌∙◌, Bool, true, false, max, arith, inl, inr}
use zpq.Common.Tests.{Bool-cases}
use zpq.Common.Lists.{length}
use zpq.Common.Int.{ℤ, pos, ltb_ℤ}
use zpq.Thrift.Value.{
  Bytes, Value, Items, Fields, bool, int, bytes, list, struct, nil, cons, no_fields, field,
  byte_kind, int_kind, double_kind, binary_kind, list_kind, struct_kind, kind_of, is_bool,
  insert_field, sort_fields, depth, depth_fields,
}
use zpq.Thrift.Writer.{wire_type}
use zpq.Thrift.Numbers.{IsI64}

-- The values of a tag: ints in the range of their wire form, doubles of eight bytes, tags of a nibble,
-- booleans where the tag is a boolean's.
mutual
  pub data Fits : ℕ → Value → Type 0 where
    byte_fits : {t n : ℕ} → kind_of t ≡ byte_kind → n < 256 → Fits t (int (pos n))
    int_fits : {t : ℕ} {z : ℤ} → kind_of t ≡ int_kind → IsI64 z → Fits t (int z)
    double_fits : {t : ℕ} {b : Bytes} → kind_of t ≡ double_kind → length b ≡ 8 → Fits t (bytes b)
    binary_fits : {t : ℕ} {b : Bytes} → kind_of t ≡ binary_kind → Fits t (bytes b)
    list_fits :
        {t et : ℕ} {vs : Items}
        → kind_of t ≡ list_kind
        → et < 16
        → ItemsFit et vs
        → Fits t (list et vs)
    struct_fits :
        {t : ℕ} {fs : Fields} → kind_of t ≡ struct_kind → FieldsFit fs → Fits t (struct fs)

  -- An item, or a field's value.
  pub data MemberFits : ℕ → Value → Type 0 where
    flag_fits : {t : ℕ} {b : Bool} → is_bool t ≡ true → MemberFits t (bool b)
    plain_fits : {t : ℕ} {v : Value} → is_bool t ≡ false → Fits t v → MemberFits t v

  pub data ItemsFit : ℕ → Items → Type 0 where
    nil_fits : {et : ℕ} → ItemsFit et nil
    cons_fits :
        {et : ℕ} {v : Value} {vs : Items}
        → MemberFits et v
        → ItemsFit et vs
        → ItemsFit et (cons v vs)

  pub data FieldsFit : Fields → Type 0 where
    none_fit : FieldsFit no_fields
    field_fits :
        {i : ℤ} {t : ℕ} {v : Value} {fs : Fields}
        → IsI64 i
        → 0 < t
        → t < 16
        → MemberFits t v
        → FieldsFit fs
        → FieldsFit (field i t v fs)

unfoldable mutual
  unfolding wire_type sort_fields

  pub canonical : Value → Value
  canonical (bool b) = bool b
  canonical (int z) = int z
  canonical (bytes b) = bytes b
  canonical (list et vs) = list et (canonical_items vs)
  canonical (struct fs) = struct (sort_fields (canonical_fields fs))

  pub canonical_items : Items → Items
  canonical_items nil = nil
  canonical_items (cons v vs) = cons (canonical v) (canonical_items vs)

  pub canonical_fields : Fields → Fields
  canonical_fields no_fields = no_fields
  canonical_fields (field i t v fs) = field i (wire_type t v) (canonical v) (canonical_fields fs)

-- Sorting goes past the canonical form of the fields, and keeps what they fit and their depth.
canonical-insert :
    (i : ℤ) (t : ℕ) (v : Value) (fs : Fields)
    → canonical_fields (insert_field i t v fs)
      ≡ insert_field i (wire_type t v) (canonical v) (canonical_fields fs)
unfolding insert_field canonical
canonical-insert i t v no_fields = refl
canonical-insert i t v (field j u w fs) = elim (Bool-cases (ltb_ℤ j i)) [
  | inl e ↦ rw (e, canonical-insert i t v fs)
  | inr e ↦ rw e
]

pub canonical-sort :
    (fs : Fields) → canonical_fields (sort_fields fs) ≡ sort_fields (canonical_fields fs)
unfolding sort_fields canonical
canonical-sort no_fields = refl
canonical-sort (field i t v fs) = canonical-insert i t v (sort_fields fs) ∙ rw (canonical-sort fs)

insert-FieldsFit :
    (i : ℤ) (t : ℕ) (v : Value) (fs : Fields)
    → IsI64 i
    → 0 < t
    → t < 16
    → MemberFits t v
    → FieldsFit fs
    → FieldsFit (insert_field i t v fs)
unfolding insert_field
insert-FieldsFit i t v no_fields hi lo hi' m none_fit = field_fits hi lo hi' m none_fit
insert-FieldsFit i t v (field j u w fs) hi lo hi' m (field_fits hj lj hj' mj rest) =
    elim (Bool-cases (ltb_ℤ j i)) [
      | inl e ↦ rw e (field_fits hj lj hj' mj (insert-FieldsFit i t v fs hi lo hi' m rest))
      | inr e ↦ rw e (field_fits hi lo hi' m (field_fits hj lj hj' mj rest))
    ]

pub sort-FieldsFit : {fs : Fields} → FieldsFit fs → FieldsFit (sort_fields fs)
unfolding sort_fields
sort-FieldsFit none_fit = none_fit
sort-FieldsFit (field_fits {i} {t} {v} {fs} hi lo hi' m rest) =
    insert-FieldsFit i t v (sort_fields fs) hi lo hi' m (sort-FieldsFit rest)

depth-insert :
    (i : ℤ) (t : ℕ) (v : Value) (fs : Fields)
    → depth_fields (insert_field i t v fs) ≡ max (depth v) (depth_fields fs)
unfolding insert_field depth
depth-insert i t v no_fields = refl
depth-insert i t v (field j u w fs) = elim (Bool-cases (ltb_ℤ j i)) [
  | inl e ↦ rw e (omega (arith, depth-insert i t v fs))
  | inr e ↦ rw e
]

pub depth-sort : (fs : Fields) → depth_fields (sort_fields fs) ≡ depth_fields fs
unfolding sort_fields depth
depth-sort no_fields = refl
depth-sort (field i t v fs) = depth-insert i t v (sort_fields fs) ∙ rw (depth-sort fs)
