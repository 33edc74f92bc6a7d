-- ===== src/PageIndex/Compact/Total.antt =====
-- Compact.struct ends on every input, behind the position where it starts.
use zpq.Common.{ℕ, zero, suc, ◌+◌, ◌/◌, ◌^◌, ◌≤◌, ◌<◌, [], ◌∷◌, bit_and, inl, inr, arith}
use zpq.Common.Tests.{◌==◌, if◌then◌else◌, Bool-cases}
use zpq.Common.Lists.{length, length-drop}
use zpq.Common.Int.{ℤ, pos}
use zpq.Common.Result.{Result, Ends, gives, raises, Ends-bind}
use zpq.Thrift.Value.{
  Bytes, Kind, bool_kind, byte_kind, int_kind, double_kind, binary_kind, list_kind, struct_kind,
  unsupported, kind_of, is_bool, t_map,
}
use zpq.Thrift.Cursor.{Cursor, Read, ◌>>=◌, next_byte, byte, varint_loop, varint, zigzag, slice}
use zpq.PageIndex.Compact.{
  Obj, Dict, is_hashable, obj_items, obj_count, flag_item, obj_list, unpack_double, obj_pairs,
  obj_map, member_id, struct_loop, set_member, obj_struct, obj_of, obj,
}

-- The read ends, with at most `m` bytes left and no position before `n`.
abbrev Onward {ℓ} : {A : Type ℓ} → ℕ → ℕ → Result (A × Cursor) → Type ℓ
Onward m n r = Ends (λ (_, c). (length c.unread ≤ m) × (n ≤ c.pos)) r

-- It also takes a byte.
abbrev Past {ℓ} : {A : Type ℓ} → Cursor → Result (A × Cursor) → Type ℓ
Past c r = Ends (λ (_, c'). (length c'.unread < length c.unread) × (c.pos < c'.pos)) r

-- A read that never goes back, from any cursor with fewer than `m` bytes.
abbrev Advances {ℓ} : {A : Type ℓ} → ℕ → Read A → Type ℓ
Advances m p = (c : Cursor) → length c.unread < m → Onward (length c.unread) c.pos (p c)

widened {ℓ} :
    {A : Type ℓ} {r : Result (A × Cursor)} (m n p q : ℕ)
    → m ≤ n
    → q ≤ p
    → Onward m p r
    → Onward n q r
widened m n p q h k (gives (s, t)) = gives (omega arith, omega arith)
widened m n p q h k raises = raises

later {ℓ} :
    {A : Type ℓ} {r : Result (A × Cursor)} (c c' : Cursor)
    → length c'.unread ≤ length c.unread
    → c.pos ≤ c'.pos
    → Past c' r
    → Past c r
later c c' h k (gives (s, t)) = gives (omega arith, omega arith)
later c c' h k raises = raises

byte-Past : (c : Cursor) → Past c (byte c)
unfolding byte next_byte
byte-Past c = at c.unread c.pos
  where
    at :
        (bs : Bytes) (n : ℕ)
        → Ends (λ (_, c'). (length c'.unread < length bs) × (n < c'.pos)) (next_byte bs n)
    at [] n = raises
    at (b ∷ bs) n = gives (omega arith, omega arith)

varint_loop-Onward :
    (bs : Bytes) (n out shift : ℕ) → Onward (length bs) n (varint_loop bs n out shift)
unfolding varint_loop
varint_loop-Onward [] n out shift = raises
varint_loop-Onward (b ∷ bs) n out shift = elim (Bool-cases (bit_and b 0x80 == 0)) [
  | inl e ↦ rw e (gives (omega arith, omega arith))
  | inr e ↦
      rw e
        (widened (length bs) _ (n + 1) n (omega arith) (omega arith) (varint_loop-Onward bs _ _ _))
]

varint-Onward : (c : Cursor) → Onward (length c.unread) c.pos (varint c)
unfolding varint
varint-Onward c = varint_loop-Onward c.unread c.pos 0 0

zigzag-Onward : (c : Cursor) → Onward (length c.unread) c.pos (zigzag c)
unfolding zigzag
zigzag-Onward c = Ends-bind (varint-Onward c) λ _ h. gives h

slice-Onward : (n : ℕ) (c : Cursor) → Onward (length c.unread) c.pos (slice n c)
unfolding slice
slice-Onward n c = gives (omega (arith, length-drop n c.unread), omega arith)

double-Onward :
    (c : Cursor) → Onward (length c.unread) c.pos ((slice 8 >>= λ bs. unpack_double bs) c)
unfolding unpack_double
double-Onward c = Ends-bind (slice-Onward 8 c) λ (bs, c₁) h₁. elim (Bool-cases (length bs == 8)) [
  | inl e ↦ rw e (gives h₁)
  | inr e ↦ rw e raises
]

-- The parts of a value, given that what is nested advances.
module _ (read : ℕ → Read Obj) (m : ℕ) (nested : (t : ℕ) → Advances m (read t)) where
  items-Onward : (p : Read Obj) → Advances m p → (n : ℕ) → Advances m (obj_items p n)
  unfolding obj_items
  items-Onward p adv zero c h = gives (omega arith, omega arith)
  items-Onward p adv (suc n) c h = Ends-bind (adv c h) λ (_, c₁) (h₁, p₁).
      Ends-bind (items-Onward p adv n c₁ (omega arith))
        λ _ (h₂, p₂). gives (omega arith, omega arith)

  flag_item-Advances : Advances m flag_item
  unfolding flag_item
  flag_item-Advances c h = Ends-bind (byte-Past c) λ _ (h₁, p₁). gives (omega arith, omega arith)

  list-Onward :
      (c : Cursor) → length c.unread ≤ m → Onward (length c.unread) c.pos (obj_list read c)
  unfolding obj_list obj_count
  list-Onward c h = Ends-bind (byte-Past c) λ (b, c₁) (h₁, p₁).
      Ends-bind (count b c₁) λ (n, c₂) (h₂, p₂).
        Ends-bind (items-Onward _ (item (bit_and b 0x0f)) n c₂ (omega arith))
          λ _ (h₃, p₃). gives (omega arith, omega arith)
    where
      count : (b : ℕ) (c : Cursor) → Onward (length c.unread) c.pos (obj_count b c)
      count b c = elim (Bool-cases (b / 2 ^ 4 == 15)) [
        | inl e ↦ rw e (varint-Onward c)
        | inr e ↦ rw e (gives (omega arith, omega arith))
      ]

      item : (et : ℕ) → Advances m (if is_bool et then flag_item else read et)
      item et = elim (Bool-cases (is_bool et)) [
        | inl e ↦ rw e flag_item-Advances
        | inr e ↦ rw e (nested et)
      ]

  pairs-Advances : (key value : ℕ) (n : ℕ) → Advances m (obj_pairs (read key) (read value) n)
  unfolding obj_pairs
  pairs-Advances key value zero c h = gives (omega arith, omega arith)
  pairs-Advances key value (suc n) c h = Ends-bind (nested key c h) λ (k, c₁) (h₁, p₁).
      Ends-bind (nested value c₁ (omega arith)) λ (v, c₂) (h₂, p₂).
        elim (Bool-cases (is_hashable k)) [
          | inr e ↦ rw e raises
          | inl e ↦ rw e (
              Ends-bind (pairs-Advances key value n c₂ (omega arith))
                λ _ (h₃, p₃). gives (omega arith, omega arith))
        ]

  map-Onward : (c : Cursor) → length c.unread ≤ m → Onward (length c.unread) c.pos (obj_map read c)
  unfolding obj_map
  map-Onward c h = Ends-bind (varint-Onward c) λ (n, c₁) (h₁, p₁). elim (Bool-cases (n == 0)) [
    | inl e ↦ rw e (gives (omega arith, omega arith))
    | inr e ↦ rw e (
        Ends-bind (byte-Past c₁) λ (kv, c₂) (h₂, p₂).
          Ends-bind (pairs-Advances (kv / 2 ^ 4) (bit_and kv 0x0f) n c₂ (omega arith))
            λ _ (h₃, p₃). gives (omega arith, omega arith))
  ]

  member_id-Onward :
      (last : ℤ) (d : ℕ) (c : Cursor) → Onward (length c.unread) c.pos (member_id last d c)
  unfolding member_id
  member_id-Onward last d c = elim (Bool-cases (d == 0)) [
    | inl e ↦ rw e (zigzag-Onward c)
    | inr e ↦ rw e (gives (omega arith, omega arith))
  ]

  -- A round for each byte left is enough.
  loop-Past :
      (rounds : ℕ) (last : ℤ) (out : Dict) (c : Cursor)
      → length c.unread ≤ m
      → length c.unread < rounds
      → Past c (struct_loop read rounds last out c)
  unfolding struct_loop
  loop-Past zero last out c h r = absurd (omega arith)
  loop-Past (suc rounds) last out c h r = Ends-bind (byte-Past c) λ (b, c₁) (h₁, p₁).
      elim (Bool-cases (b == 0)) [
        | inl e ↦ rw e (gives (omega arith, omega arith))
        | inr e ↦ rw e (
            Ends-bind (member_id-Onward last (b / 2 ^ 4) c₁) λ (i, c₂) (h₂, p₂).
              Ends-bind (nested (bit_and b 0x0f) c₂ (omega arith)) λ (o, c₃) (h₃, p₃).
                later c c₃ (omega arith) (omega arith)
                  (loop-Past rounds i (set_member i o out) c₃ (omega arith) (omega arith)))
      ]

  struct-Past : (c : Cursor) → length c.unread ≤ m → Past c (obj_struct read c)
  unfolding obj_struct
  struct-Past c h = loop-Past (suc (length c.unread)) (pos 0) _ c h (omega arith)

  obj_of-Onward :
      (t : ℕ) (k : Kind) (c : Cursor)
      → length c.unread ≤ m
      → Onward (length c.unread) c.pos (obj_of read t k c)
  unfolding obj_of
  obj_of-Onward t bool_kind c h = gives (omega arith, omega arith)
  obj_of-Onward t byte_kind c h =
      Ends-bind (byte-Past c) λ _ (h₁, p₁). gives (omega arith, omega arith)
  obj_of-Onward t int_kind c h = Ends-bind (zigzag-Onward c) λ _ l. gives l
  obj_of-Onward t double_kind c h = double-Onward c
  obj_of-Onward t binary_kind c h = Ends-bind (varint-Onward c) λ (n, c₁) (h₁, p₁).
      Ends-bind (slice-Onward n c₁) λ _ (h₂, p₂). gives (omega arith, omega arith)
  obj_of-Onward t list_kind c h = list-Onward c h
  obj_of-Onward t struct_kind c h =
      Ends-bind (struct-Past c h) λ _ (h₁, p₁). gives (omega arith, omega arith)
  obj_of-Onward t unsupported c h = elim (Bool-cases (t == t_map)) [
    | inl e ↦ rw e (map-Onward c h)
    | inr e ↦ rw e raises
  ]

obj-Advances : (f t : ℕ) → Advances f (obj f t)
unfolding obj
obj-Advances zero t c h = absurd (omega arith)
obj-Advances (suc f) t c h = obj_of-Onward (obj f) f (obj-Advances f) t (kind_of t) c (omega arith)

-- With more fuel than there are bytes left, Compact.struct ends in a value or an exception; a value is read from a
-- byte at least, so that the position behind it is further on.
pub obj_struct-Past : (f : ℕ) (c : Cursor) → length c.unread < f → Past c (obj_struct (obj f) c)
obj_struct-Past f c h = struct-Past (obj f) f (obj-Advances f) c (omega arith)
