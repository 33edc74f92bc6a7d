-- ===== src/Walker/Footer/Inside.antt =====
-- What Reader.value went through where it yields a struct, a list, an integer or a flag.
use zpq.Common.{ℕ, zero, suc, pred, ◌≡◌, refl, sym, ap, ◌∙◌, false, bit_and}
use zpq.Common.Lists.{length}
use zpq.Common.Tests.{◌==◌, if◌then◌else◌}
use zpq.Common.Int.{ℤ, pos}
use zpq.Common.Result.{Result, ok, >>=-eq-ok}
use zpq.Thrift.Value.{
  Bytes, Value, Items, Fields, bool, int, bytes, list, struct, Kind, bool_kind, byte_kind, int_kind,
  double_kind, binary_kind, list_kind, struct_kind, unsupported, kind_of, is_bool, t_true,
}
use zpq.Thrift.Cursor.{Cursor, Read, pure, ◌>>=◌, byte, varint, zigzag, slice}
use zpq.Thrift.Reader.{
  read_items, item_count, bool_item, read_list, read_fields, read_struct, value_of, value,
}
use zpq.Walker.{list_header, walk_zigzag, walk_binary}
use zpq.Walker.Agreement.{
  IsBytes, byte-IsBytes, count-agrees, zigzag-agrees, varint-agrees, slice-IsBytes, ends_at,
  gives_value,
}

struct-injective : {fs gs : Fields} → struct fs ≡ struct gs → fs ≡ gs
struct-injective h = cc

int-injective : {a b : ℤ} → int a ≡ int b → a ≡ b
int-injective h = cc

bytes-injective : {a b : Bytes} → bytes a ≡ bytes b → a ≡ b
bytes-injective h = cc

-- A read whose value is made of what one read gave.
made_of {ℓ} :
    {A : Type ℓ} (p : Read A) (f : A → Value) (c : Cursor) {v : Value} {c' : Cursor}
    → (p >>= λ a. pure (f a)) c ≡ ok (v, c')
    → (a : A) × (p c ≡ ok (a, c')) × (f a ≡ v)
made_of p f c e =
    let ((a, c1), first, made) = >>=-eq-ok (p c) _ e in
    (a, first ∙ ap (λ c'. ok (a, c')) (ends_at made), gives_value made)

giving {ℓ} :
    {A : Type ℓ} {r : Result (A × Cursor)} {a b : A} {c : Cursor}
    → r ≡ ok (a, c)
    → a ≡ b
    → r ≡ ok (b, c)
giving {c} e same = e ∙ ap (λ a. ok (a, c)) same

binary_made :
    (c : Cursor) {v : Value} {c' : Cursor}
    → (varint >>= λ n. slice n >>= λ bs. pure (bytes bs)) c ≡ ok (v, c')
    → (bs : Bytes) × (bytes bs ≡ v)
binary_made c e =
    let ((n, c1), first, rest) = >>=-eq-ok (varint c) _ e in
    let (bs, taken, made) = made_of (slice n) bytes c1 rest in (bs, made)

module _ (read : ℕ → Read Value) where
  list_made :
      (c : Cursor) {v : Value} {c' : Cursor}
      → read_list read c ≡ ok (v, c')
      → (et : ℕ) × (vs : Items) × (list et vs ≡ v)
  unfolding read_list
  list_made c e =
      let ((b, c1), first, rest) = >>=-eq-ok (byte c) _ e in
      let ((n, c2), second, rest2) = >>=-eq-ok (item_count b c1) _ rest in
      let (vs, third, made) = made_of (read_items _ n) (list (bit_and b 0x0f)) c2 rest2 in
      (bit_and b 0x0f, vs, made)

  struct_of :
      (t : ℕ) (k : Kind) (c : Cursor) {fs : Fields} {c' : Cursor}
      → value_of read t k c ≡ ok (struct fs, c')
      → read_fields read (suc (length c.unread)) (pos 0) c ≡ ok (fs, c')
  unfolding value_of read_struct
  struct_of t bool_kind c e = cc
  struct_of t byte_kind c e = let (b, first, made) = made_of byte (λ b. int (pos b)) c e in cc
  struct_of t int_kind c e = let (z, first, made) = made_of zigzag int c e in cc
  struct_of t double_kind c e = let (z, first, made) = made_of (slice 8) bytes c e in cc
  struct_of t binary_kind c e = let (z, made) = binary_made c e in cc
  struct_of t list_kind c e = let (et, vs, made) = list_made c e in cc
  struct_of t struct_kind c e =
      let (fs, first, made) =
        made_of (read_fields read (suc (length c.unread)) (pos 0)) struct c e in
      giving first (struct-injective made)
  struct_of t unsupported c e = cc

  -- The header that read_list reads, as list_header reads it.
  list_items :
      (c : Cursor) (et : ℕ) (vs : Items) {c' : Cursor}
      → IsBytes c
      → is_bool et ≡ false
      → read_list read c ≡ ok (list et vs, c')
      → (n : ℕ) × (c1 : Cursor) × (list_header c ≡ ok ((n, et), c1))
        × (read_items (read et) n c1 ≡ ok (vs, c'))
        × IsBytes c1
  unfolding read_list list_header
  list_items c et vs h plain e =
      let ((b, c1), first, rest) = >>=-eq-ok (byte c) _ e in
      let ((n, c2), second, rest2) = >>=-eq-ok (item_count b c1) _ rest in
      let (walked, bytes2) = count-agrees b c1 (byte-IsBytes c h first) second in
      let (ws, third, made) =
        made_of
          (read_items (if is_bool (bit_and b 0x0f) then bool_item else read (bit_and b 0x0f)) n)
          (list (bit_and b 0x0f)) c2 rest2 in
      let tag : bit_and b 0x0f ≡ et = cc in
      let same : ws ≡ vs = cc in
      let items = rw plain at (rw tag at third) in
      (n, c2, rw (first, walked, tag) refl, rw (← same) items, bytes2)

  list_of :
      (t : ℕ) (k : Kind) (c : Cursor) {et : ℕ} {vs : Items} {c' : Cursor}
      → value_of read t k c ≡ ok (list et vs, c')
      → read_list read c ≡ ok (list et vs, c')
  unfolding value_of read_struct
  list_of t bool_kind c e = cc
  list_of t byte_kind c e = let (b, first, made) = made_of byte (λ b. int (pos b)) c e in cc
  list_of t int_kind c e = let (z, first, made) = made_of zigzag int c e in cc
  list_of t double_kind c e = let (z, first, made) = made_of (slice 8) bytes c e in cc
  list_of t binary_kind c e = let (z, made) = binary_made c e in cc
  list_of t list_kind c e = e
  list_of t struct_kind c e =
      let (fs, first, made) =
        made_of (read_fields read (suc (length c.unread)) (pos 0)) struct c e in
      cc
  list_of t unsupported c e = cc

-- A struct's fields are read with one less fuel, from the very place.
pub struct_inside :
    (fuel t : ℕ) (c : Cursor) {fs : Fields} {c' : Cursor}
    → value fuel t c ≡ ok (struct fs, c')
    → read_fields (value (pred fuel)) (suc (length c.unread)) (pos 0) c ≡ ok (fs, c')
unfolding value
struct_inside zero t c e = cc
struct_inside (suc fuel) t c e = struct_of (value fuel) t (kind_of t) c e

-- A list without flags: its header, and its items with one less fuel.
pub list_inside :
    (fuel t : ℕ) (c : Cursor) (et : ℕ) (vs : Items) {c' : Cursor}
    → IsBytes c
    → is_bool et ≡ false
    → value fuel t c ≡ ok (list et vs, c')
    → (n : ℕ) × (c1 : Cursor) × (list_header c ≡ ok ((n, et), c1))
      × (read_items (value (pred fuel) et) n c1 ≡ ok (vs, c'))
      × IsBytes c1
unfolding value
list_inside zero t c et vs h plain e = cc
list_inside (suc fuel) t c et vs h plain e =
    list_items (value fuel) c et vs h plain (list_of (value fuel) t (kind_of t) c e)

module _ (read : ℕ → Read Value) (t : ℕ) (c : Cursor) where
  int_of :
      {z : ℤ} {c' : Cursor}
      → IsBytes c
      → value_of read t int_kind c ≡ ok (int z, c')
      → (walk_zigzag c ≡ ok (z, c')) × IsBytes c'
  unfolding value_of
  int_of h e =
      let (z', first, made) = made_of zigzag int c e in
      zigzag-agrees c h (giving first (int-injective made))

  binary_of :
      {bs : Bytes} {c' : Cursor}
      → IsBytes c
      → value_of read t binary_kind c ≡ ok (bytes bs, c')
      → (walk_binary c ≡ ok (bs, c')) × IsBytes c'
  unfolding value_of walk_binary
  binary_of h e =
      let ((n, c1), first, rest) = >>=-eq-ok (varint c) _ e in
      let (walked, bytes1) = varint-agrees c h first in
      let (bs', second, made) = made_of (slice n) bytes c1 rest in
      let taken = giving second (bytes-injective made) in
      (rw walked taken, slice-IsBytes n c1 bytes1 taken)

  flag_of :
      {v : Value} {c' : Cursor}
      → value_of read t bool_kind c ≡ ok (v, c')
      → (c ≡ c') × (v ≡ bool (t == t_true))
  unfolding value_of
  flag_of e = (ends_at e, sym (gives_value e))

-- An integer of a zigzag tag.
pub int_inside :
    (fuel t : ℕ) (c : Cursor) {z : ℤ} {c' : Cursor}
    → IsBytes c
    → kind_of t ≡ int_kind
    → value fuel t c ≡ ok (int z, c')
    → (walk_zigzag c ≡ ok (z, c')) × IsBytes c'
unfolding value
int_inside zero t c h k e = cc
int_inside (suc fuel) t c h k e = int_of (value fuel) t c h (rw k at e)

-- A text of the binary tag.
pub bytes_inside :
    (fuel t : ℕ) (c : Cursor) {bs : Bytes} {c' : Cursor}
    → IsBytes c
    → kind_of t ≡ binary_kind
    → value fuel t c ≡ ok (bytes bs, c')
    → (walk_binary c ≡ ok (bs, c')) × IsBytes c'
unfolding value
bytes_inside zero t c h k e = cc
bytes_inside (suc fuel) t c h k e = binary_of (value fuel) t c h (rw k at e)

-- A flag is in its tag.
pub flag_inside :
    (fuel t : ℕ) (c : Cursor) {v : Value} {c' : Cursor}
    → kind_of t ≡ bool_kind
    → value fuel t c ≡ ok (v, c')
    → (c ≡ c') × (v ≡ bool (t == t_true))
unfolding value
flag_inside zero t c k e = cc
flag_inside (suc fuel) t c k e = flag_of (value fuel) t c (rw k at e)
