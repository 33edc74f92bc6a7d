-- ===== src/Thrift/Total.antt =====
-- tools/datagen/parquet.py, Reader.value: it ends on every input, well formed or not.
use zpq.Common.{ℕ, zero, suc, ◌/◌, ◌^◌, ◌≤◌, ◌<◌, ◌≢◌, [], ◌∷◌, bit_and, inl, inr, arith}
use zpq.Common.Tests.{◌==◌, if◌then◌else◌, Bool-cases}
use zpq.Common.Lists.{length, length-drop}
use zpq.Common.Int.{ℤ, pos}
use zpq.Common.Result.{Result, out_of_fuel, Ends, gives, raises, Ends-ne, Ends-bind}
use zpq.Thrift.Value.{
  Bytes, Value, Fields, Kind, bool_kind, byte_kind, int_kind, double_kind, binary_kind, list_kind,
  struct_kind, unsupported, kind_of, is_bool,
}
use zpq.Thrift.Cursor.{Cursor, Read, at_pos, byte, varint_loop, varint, zigzag, slice}
use zpq.Thrift.Reader.{
  read_items, item_count, bool_item, read_list, field_id, read_field, read_fields, read_struct,
  value_of, value, decode,
}

-- The read ends, and leaves at most `m` bytes.
abbrev Leaves {ℓ} : {A : Type ℓ} → ℕ → Result (A × Cursor) → Type ℓ
Leaves m r = Ends (λ (_, c). length c.unread ≤ m) r

-- A read that never goes back, from any cursor with fewer than `m` bytes.
abbrev Advances {ℓ} : {A : Type ℓ} → ℕ → Read A → Type ℓ
Advances m p = (c : Cursor) → length c.unread < m → Leaves (length c.unread) (p c)

Leaves-le {ℓ} : {A : Type ℓ} {r : Result (A × Cursor)} (m n : ℕ) → m ≤ n → Leaves m r → Leaves n r
Leaves-le m n h (gives p) = gives (omega arith)
Leaves-le m n h raises = raises

byte_at : (bs : Bytes) (n : ℕ) → Ends (λ (_, c). length c.unread < length bs) (byte (at_pos bs n))
unfolding byte
byte_at [] n = raises
byte_at (b ∷ bs) n = gives (omega arith)

byte-Leaves : (c : Cursor) → Ends (λ (_, c'). length c'.unread < length c.unread) (byte c)
byte-Leaves c = byte_at c.unread c.pos

varint_loop-Leaves :
    (bs : Bytes) (n out shift : ℕ) → Leaves (length bs) (varint_loop bs n out shift)
unfolding varint_loop
varint_loop-Leaves [] n out shift = raises
varint_loop-Leaves (b ∷ bs) n out shift = elim (Bool-cases (bit_and b 0x80 == 0)) [
  | inl e ↦ rw e (gives (omega arith))
  | inr e ↦ rw e (Leaves-le (length bs) _ (omega arith) (varint_loop-Leaves bs _ _ _))
]

varint-Leaves : (c : Cursor) → Leaves (length c.unread) (varint c)
unfolding varint
varint-Leaves c = varint_loop-Leaves c.unread c.pos 0 0

zigzag-Leaves : (c : Cursor) → Leaves (length c.unread) (zigzag c)
unfolding zigzag
zigzag-Leaves c = Ends-bind (varint-Leaves c) λ _ h. gives h

slice-Leaves : (n : ℕ) (c : Cursor) → Leaves (length c.unread) (slice n c)
unfolding slice
slice-Leaves n c = gives (omega (arith, length-drop n c.unread))

-- The parts of a value, given that what is nested advances.
module _ (read : ℕ → Read Value) (m : ℕ) (nested : (t : ℕ) → Advances m (read t)) where
  items-Leaves : (p : Read Value) → Advances m p → (n : ℕ) → Advances m (read_items p n)
  unfolding read_items
  items-Leaves p adv zero c h = gives (omega arith)
  items-Leaves p adv (suc n) c h = Ends-bind (adv c h) λ (_, c₁) h₁.
      Ends-bind (Leaves-le (length c₁.unread) _ h₁ (items-Leaves p adv n c₁ (omega arith)))
        λ _ h₂. gives h₂

  bool_item-Advances : Advances m bool_item
  unfolding bool_item
  bool_item-Advances c h = Ends-bind (byte-Leaves c) λ _ l. gives (omega arith)

  list-Leaves : (c : Cursor) → length c.unread ≤ m → Leaves (length c.unread) (read_list read c)
  unfolding read_list item_count
  list-Leaves c h = Ends-bind (byte-Leaves c) λ (b, c₁) h₁. Ends-bind (count b c₁) λ (n, c₂) h₂.
      Ends-bind (items-Leaves _ (item (bit_and b 0x0f)) n c₂ (omega arith))
        λ _ h₃. gives (omega arith)
    where
      count : (b : ℕ) (c : Cursor) → Leaves (length c.unread) (item_count b c)
      count b c = elim (Bool-cases (b / 2 ^ 4 == 15)) [
        | inl e ↦ rw e (varint-Leaves c)
        | inr e ↦ rw e (gives (omega arith))
      ]

      item : (et : ℕ) → Advances m (if is_bool et then bool_item else read et)
      item et = elim (Bool-cases (is_bool et)) [
        | inl e ↦ rw e bool_item-Advances
        | inr e ↦ rw e (nested et)
      ]

  field_id-Leaves : (last : ℤ) (d : ℕ) (c : Cursor) → Leaves (length c.unread) (field_id last d c)
  unfolding field_id
  field_id-Leaves last d c = elim (Bool-cases (d == 0)) [
    | inl e ↦ rw e (zigzag-Leaves c)
    | inr e ↦ rw e (gives (omega arith))
  ]

  field-Leaves :
      (loop : ℤ → Read Fields) (k : ℕ)
      → ((i : ℤ) → Advances k (loop i))
      → k ≤ m
      → (last : ℤ) (b : ℕ) → Advances k (read_field read loop last b)
  unfolding read_field
  field-Leaves loop k go_on within last b c h =
      Ends-bind (field_id-Leaves last (b / 2 ^ 4) c) λ (i, c₁) h₁.
        Ends-bind (nested (bit_and b 0x0f) c₁ (omega arith))
          λ (_, c₂) h₂. Ends-bind (go_on i c₂ (omega arith)) λ _ h₃. gives (omega arith)

  -- A round for each byte left is enough.
  fields-Leaves :
      (rounds : ℕ) (last : ℤ) (c : Cursor)
      → length c.unread ≤ m
      → length c.unread < rounds
      → Leaves (length c.unread) (read_fields read rounds last c)
  unfolding read_fields
  fields-Leaves zero last c h r = absurd (omega arith)
  fields-Leaves (suc rounds) last c h r =
      let go_on = λ (i : ℤ) (c₂ : Cursor) (l : length c₂.unread < length c.unread).
        fields-Leaves rounds i c₂ (omega arith) (omega arith) in
      Ends-bind (byte-Leaves c) λ (b, c₁) h₁. elim (Bool-cases (b == 0)) [
        | inl e ↦ rw e (gives (omega arith))
        | inr e ↦ rw e (
            Leaves-le (length c₁.unread) _ (omega arith)
              (field-Leaves (read_fields read rounds) (length c.unread) go_on h last b c₁ h₁))
      ]

  struct-Leaves : (c : Cursor) → length c.unread ≤ m → Leaves (length c.unread) (read_struct read c)
  unfolding read_struct
  struct-Leaves c h =
      Ends-bind (fields-Leaves (suc (length c.unread)) (pos 0) c h (omega arith)) λ _ l. gives l

  value_of-Leaves :
      (t : ℕ) (k : Kind) (c : Cursor)
      → length c.unread ≤ m
      → Leaves (length c.unread) (value_of read t k c)
  unfolding value_of
  value_of-Leaves t bool_kind c h = gives (omega arith)
  value_of-Leaves t byte_kind c h = Ends-bind (byte-Leaves c) λ _ l. gives (omega arith)
  value_of-Leaves t int_kind c h = Ends-bind (zigzag-Leaves c) λ _ l. gives l
  value_of-Leaves t double_kind c h = Ends-bind (slice-Leaves 8 c) λ _ l. gives l
  value_of-Leaves t binary_kind c h =
      Ends-bind (varint-Leaves c)
        λ (n, c₁) h₁. Ends-bind (slice-Leaves n c₁) λ _ l. gives (omega arith)
  value_of-Leaves t list_kind c h = list-Leaves c h
  value_of-Leaves t struct_kind c h = struct-Leaves c h
  value_of-Leaves t unsupported c h = raises

-- With fuel above the bytes left, a value ends and never goes back.
pub value-Leaves :
    (f t : ℕ) (c : Cursor) → length c.unread < f → Leaves (length c.unread) (value f t c)
unfolding value
value-Leaves zero t c h = absurd (omega arith)
value-Leaves (suc f) t c h =
    value_of-Leaves (value f) f (λ u c₁ l. value-Leaves f u c₁ l) t (kind_of t) c (omega arith)

-- Decoding any bytes under any tag ends in a value or an exception: the model's fuel always lasts.
pub decode-ne-out_of_fuel : (t : ℕ) (buf : Bytes) → decode t buf ≢ out_of_fuel
unfolding decode
decode-ne-out_of_fuel t buf =
    let ends = value-Leaves (suc (length buf)) t (at_pos buf 0) (omega arith) in
    Ends-ne (
      Ends-bind {P = λ (_, c). length c.unread ≤ length buf} {Q = λ (v : Value). Unit {0}} ends
        λ _ _. gives tt)
