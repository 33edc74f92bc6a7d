-- ===== src/Thrift/Typed.antt =====
-- tools/datagen/parquet.py, Reader.value: what is read is of the type that its tag says, however deep.
use zpq.Common.{ℕ, zero, suc, ◌/◌, ◌^◌, ◌≤◌, ◌≡◌, refl, ap, subst, ◌⊎◌, inl, inr, bit_and, arith}
use zpq.Common.Tests.{◌==◌, if◌then◌else◌, Bool-cases}
use zpq.Common.Lists.{length, take, length-take}
use zpq.Common.Int.{ℤ, pos}
use zpq.Common.Result.{Result, ok, >>=-eq-ok, ok-injective}
use zpq.Thrift.Value.{
  Value, Items, Fields, bool, int, bytes, list, struct, nil, cons, no_fields, field, Kind,
  bool_kind, byte_kind, int_kind, double_kind, binary_kind, list_kind, struct_kind, unsupported,
  kind_of, is_bool, t_true,
}
use zpq.Thrift.Cursor.{Cursor, Read, byte, varint, zigzag, slice}
use zpq.Thrift.Reader.{
  read_items, item_count, bool_item, read_list, field_id, read_field, read_fields, read_struct,
  value_of, value,
}

abbrev IsFlag : Value → Type 0
IsFlag (bool b) = Unit
IsFlag v = ⊥

-- The values of a tag: a flag is in its tag, a double has eight bytes at most.
unfoldable mutual
  pub IsOf : ℕ → Value → Type 0
  IsOf t (bool b) = (kind_of t ≡ bool_kind) × (b ≡ (t == t_true))
  IsOf t (int z) = (kind_of t ≡ byte_kind) ⊎ (kind_of t ≡ int_kind)
  IsOf t (bytes b) = ((kind_of t ≡ double_kind) × (length b ≤ 8)) ⊎ (kind_of t ≡ binary_kind)
  IsOf t (list et vs) = (kind_of t ≡ list_kind) × ItemsOf et vs
  IsOf t (struct fs) = (kind_of t ≡ struct_kind) × FieldsOf fs

  pub ItemsOf : ℕ → Items → Type 0
  ItemsOf et nil = Unit
  ItemsOf et (cons v vs) = (if is_bool et then IsFlag v else IsOf et v) × ItemsOf et vs

  pub FieldsOf : Fields → Type 0
  FieldsOf no_fields = Unit
  FieldsOf (field i t v fs) = IsOf t v × FieldsOf fs

-- What a read gives is as `P` says.
abbrev Yields : {A : Type 0} → (A → Type 0) → Read A → Type 0
Yields {A} P reading = (c : Cursor) (a : A) (c' : Cursor) → reading c ≡ ok (a, c') → P a

yields_last :
    {A : Type 0} (P : A → Type 0) {a b : A} {c c' : Cursor}
    → P a
    → ◌≡◌ {A = Result (A × Cursor)} (ok (a, c)) (ok (b, c'))
    → P b
yields_last {A} P p e = subst P (ap (λ (r : A × Cursor). r.0) (ok-injective e)) p

items-Yields :
    (et : ℕ) (reading : Read Value)
    → Yields (λ v. if is_bool et then IsFlag v else IsOf et v) reading
    → (n : ℕ) → Yields (ItemsOf et) (read_items reading n)
unfolding read_items IsOf
items-Yields et reading h zero c a c' e = yields_last (ItemsOf et) tt e
items-Yields et reading h (suc n) c a c' e =
    let ((v, c1), first, rest) = >>=-eq-ok (reading c) _ e in
    let ((vs, c2), second, made) = >>=-eq-ok (read_items reading n c1) _ rest in
    yields_last (ItemsOf et) (h c v c1 first, items-Yields et reading h n c1 vs c2 second) made

module _ (read : ℕ → Read Value) (typed : (t : ℕ) → Yields (IsOf t) (read t)) where
  member-Yields :
      (et : ℕ)
      → Yields
          (λ v. if is_bool et then IsFlag v else IsOf et v)
          (if is_bool et then bool_item else read et)
  unfolding bool_item
  member-Yields et c a c' e = elim (Bool-cases (is_bool et)) [
    | inl flags ↦
        let ((b, c1), first, made) = >>=-eq-ok (byte c) _ (rw flags at e) in
        rw flags (yields_last IsFlag tt made)
    | inr plain ↦ rw plain (typed et c a c' (rw plain at e))
  ]

  list-Yields : (t : ℕ) → kind_of t ≡ list_kind → Yields (IsOf t) (read_list read)
  unfolding read_list IsOf
  list-Yields t k c a c' e =
      let ((b, c1), first, rest) = >>=-eq-ok (byte c) _ e in
      let ((n, c2), second, rest2) = >>=-eq-ok (item_count b c1) _ rest in
      let et : ℕ = bit_and b 0x0f in
      let ((vs, c3), third, made) =
        >>=-eq-ok (read_items (if is_bool et then bool_item else read et) n c2) _ rest2 in
      yields_last (IsOf t) (k, items-Yields et _ (member-Yields et) n c2 vs c3 third) made

  fields-Yields : (rounds : ℕ) (last : ℤ) → Yields FieldsOf (read_fields read rounds last)
  unfolding read_fields read_field IsOf
  fields-Yields zero last c a c' e = cc
  fields-Yields (suc rounds) last c a c' e =
      let ((b, c1), first, rest) = >>=-eq-ok (byte c) _ e in
      elim (Bool-cases (b == 0)) [
        | inl stop ↦ yields_last FieldsOf tt (rw stop at rest)
        | inr more ↦
            let ((fid, c2), second, rest2) =
              >>=-eq-ok (field_id last (b / 2 ^ 4) c1) _ (rw more at rest) in
            let ((v, c3), third, rest3) = >>=-eq-ok (read (bit_and b 0x0f) c2) _ rest2 in
            let ((fs, c4), fourth, made) = >>=-eq-ok (read_fields read rounds fid c3) _ rest3 in
            yields_last FieldsOf
              (typed (bit_and b 0x0f) c2 v c3 third, fields-Yields rounds fid c3 fs c4 fourth) made
      ]

  value_of-Yields : (t : ℕ) (k : Kind) → kind_of t ≡ k → Yields (IsOf t) (value_of read t k)
  unfolding value_of read_struct slice zigzag IsOf
  value_of-Yields t bool_kind k c a c' e = yields_last (IsOf t) (k, refl) e
  value_of-Yields t byte_kind k c a c' e =
      let ((b, c1), first, made) = >>=-eq-ok (byte c) _ e in yields_last (IsOf t) (inl k) made
  value_of-Yields t int_kind k c a c' e =
      let ((z, c1), first, made) = >>=-eq-ok (zigzag c) _ e in yields_last (IsOf t) (inr k) made
  value_of-Yields t double_kind k c a c' e =
      yields_last (IsOf t) (inl (k, omega (arith, length-take 8 c.unread))) e
  value_of-Yields t binary_kind k c a c' e =
      let ((n, c1), first, rest) = >>=-eq-ok (varint c) _ e in
      yields_last (IsOf t) {a = bytes (take n c1.unread)} (inr k) rest
  value_of-Yields t list_kind k c a c' e = list-Yields t k c a c' e
  value_of-Yields t struct_kind k c a c' e =
      let ((fs, c1), first, made) =
        >>=-eq-ok (read_fields read (suc (length c.unread)) (pos 0) c) _ e in
      yields_last (IsOf t) (k, fields-Yields (suc (length c.unread)) (pos 0) c fs c1 first) made
  value_of-Yields t unsupported k c a c' e = cc

-- Whatever the bytes, a value that the reader yields is one of its tag: a flag that is its tag's, an integer, at
-- most eight bytes for a double, bytes, a list of which each item is a flag or one of the items' tag, or a struct
-- of which each field's value is one of the field's tag, at every depth.
pub value-IsOf :
    (fuel t : ℕ) (c : Cursor) (v : Value) (c' : Cursor) → value fuel t c ≡ ok (v, c') → IsOf t v
unfolding value
value-IsOf zero t c v c' e = cc
value-IsOf (suc fuel) t c v c' e =
    value_of-Yields (value fuel) (value-IsOf fuel) t (kind_of t) refl c v c' e
