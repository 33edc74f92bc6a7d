-- ===== src/Walker/Agreement.antt =====
-- The walker skips exactly the bytes that the reader reads, where no list has boolean items.
use zpq.Common.{
  ℕ, zero, suc, ◌+◌, ◌*◌, ◌/◌, ◌^◌, ◌<◌, ◌≡◌, refl, sym, ap, subst, ◌∙◌, false, [], ◌∷◌, inl, inr,
  arith, bit_and, bit_or,
}
use zpq.Common.Tests.{ltb, ◌==◌, if◌then◌else◌, Bool-cases}
use zpq.Common.Lists.{All, drop, length}
use zpq.Common.Bits.{top_bit}
use zpq.Common.Int.{ℤ, pos}
use zpq.Common.Result.{Result, ok, >>=-eq-ok, ok-injective}
use zpq.Thrift.Value.{
  Bytes, Value, Items, Fields, bool, int, bytes, list, struct, nil, cons, no_fields, field, Kind,
  bool_kind, byte_kind, int_kind, double_kind, binary_kind, list_kind, struct_kind, unsupported,
  kind_of, is_bool,
}
use zpq.Thrift.Cursor.{Cursor, Read, byte, next_byte, varint_loop, varint, zigzag, slice, at_pos}
use zpq.Thrift.Reader.{
  read_items, item_count, bool_item, read_list, field_id, read_field, read_fields, read_struct,
  value_of, value,
}
use zpq.Walker.{
  walk_varint_loop, walk_varint, walk_zigzag, walk_binary, walk_count, list_header, advance, repeat,
  walk_id, skip_fields, skip_struct, skip_list, skip_of, skip,
}

-- No list in the value has boolean items.
unfoldable mutual
  pub NoFlags : Value → Type 0
  NoFlags (bool b) = Unit
  NoFlags (int z) = Unit
  NoFlags (bytes b) = Unit
  NoFlags (list t vs) = (is_bool t ≡ false) × NoFlagsItems vs
  NoFlags (struct fs) = NoFlagsFields fs

  pub NoFlagsItems : Items → Type 0
  NoFlagsItems nil = Unit
  NoFlagsItems (cons v vs) = NoFlags v × NoFlagsItems vs

  pub NoFlagsFields : Fields → Type 0
  NoFlagsFields no_fields = Unit
  NoFlagsFields (field i t v fs) = NoFlags v × NoFlagsFields fs

-- What is unread are bytes.
abbrev pub IsBytes : Cursor → Type 0
IsBytes c = All (λ b. b < 256) c.unread

pub byte-IsBytes : (c : Cursor) {b : ℕ} {c' : Cursor} → IsBytes c → byte c ≡ ok (b, c') → IsBytes c'
unfolding byte next_byte
byte-IsBytes c h e = go c.unread h e
  where
    go :
        (bs : Bytes) {b : ℕ} {c' : Cursor}
        → All (λ b. b < 256) bs
        → next_byte bs c.pos ≡ ok (b, c')
        → IsBytes c'
    go [] h e = cc
    go (b ∷ bs) (p, ps) e = subst IsBytes (ap (λ (r : ℕ × Cursor). r.1) (ok-injective e)) ps

byte-advance : (c : Cursor) {b : ℕ} {c' : Cursor} → byte c ≡ ok (b, c') → advance 1 c ≡ ok (tt, c')
unfolding byte next_byte slice
byte-advance c e = go c.unread e
  where
    go :
        (bs : Bytes) {b : ℕ} {c' : Cursor}
        → next_byte bs c.pos ≡ ok (b, c')
        → advance 1 (at_pos bs c.pos) ≡ ok (tt, c')
    go [] e = cc
    go (b ∷ bs) e = ap (λ c'. ok (tt, c')) (ap (λ (r : ℕ × Cursor). r.1) (ok-injective e))

drop-IsBytes : (n : ℕ) (bs : Bytes) → All (λ b. b < 256) bs → All (λ b. b < 256) (drop n bs)
drop-IsBytes zero bs h = h
drop-IsBytes (suc n) [] h = h
drop-IsBytes (suc n) (b ∷ bs) (p, ps) = drop-IsBytes n bs ps

pub slice-IsBytes :
    (n : ℕ) (c : Cursor) {b : Bytes} {c' : Cursor} → IsBytes c → slice n c ≡ ok (b, c') → IsBytes c'
unfolding slice
slice-IsBytes n c h e =
    subst IsBytes (ap (λ (r : Bytes × Cursor). r.1) (ok-injective e)) (drop-IsBytes n c.unread h)

-- The two loops test the top bit in their own ways.
varint_loop-agrees :
    (bs : Bytes) (n out shift : ℕ)
    → All (λ b. b < 256) bs
    → walk_varint_loop bs n out shift ≡ varint_loop bs n out shift
unfolding walk_varint_loop varint_loop
varint_loop-agrees [] n out shift h = refl
varint_loop-agrees (b ∷ bs) n out shift (p, ps) =
    let ih =
      varint_loop-agrees bs (n + 1) (bit_or out (bit_and b 0x7f * 2 ^ shift)) (shift + 7) ps in
    let same : ltb b 0x80 ≡ (bit_and b 0x80 == 0) = ground (arith, top_bit b p) in
    rw (same, ih) refl

varint_loop-IsBytes :
    (bs : Bytes) (n out shift : ℕ) {v : ℕ} {c' : Cursor}
    → All (λ b. b < 256) bs
    → varint_loop bs n out shift ≡ ok (v, c')
    → IsBytes c'
unfolding varint_loop
varint_loop-IsBytes [] n out shift h e = cc
varint_loop-IsBytes (b ∷ bs) n out shift (p, ps) e = elim (Bool-cases (bit_and b 0x80 == 0)) [
  | inl last ↦ subst IsBytes (ap (λ (r : ℕ × Cursor). r.1) (ok-injective (rw last at e))) ps
  | inr more ↦ varint_loop-IsBytes bs _ _ _ ps (rw more at e)
]

pub varint-agrees :
    (c : Cursor) {v : ℕ} {c' : Cursor}
    → IsBytes c
    → varint c ≡ ok (v, c')
    → (walk_varint c ≡ ok (v, c')) × IsBytes c'
unfolding varint walk_varint
varint-agrees c h e =
    (varint_loop-agrees c.unread c.pos 0 0 h ∙ e, varint_loop-IsBytes c.unread c.pos 0 0 h e)

-- `skipping` takes the very bytes that `reading` takes, of a value as `P` says.
abbrev pub Skips {ℓ} : {A : Type ℓ} → (A → Type 0) → Read A → Read (Unit {0}) → Type ℓ
Skips {A = A} P reading skipping =
    (c : Cursor) (a : A) (c' : Cursor)
    → IsBytes c
    → reading c ≡ ok (a, c')
    → P a
    → (skipping c ≡ ok (tt, c')) × IsBytes c'

pub ends_at {ℓ} :
    {A : Type ℓ} {a b : A} {c c' : Cursor}
    → ◌≡◌ {A = Result (A × Cursor)} (ok (a, c)) (ok (b, c'))
    → c ≡ c'
ends_at {A = A} e = ap (λ (r : A × Cursor). r.1) (ok-injective e)

pub gives_value {ℓ} :
    {A : Type ℓ} {a b : A} {c c' : Cursor}
    → ◌≡◌ {A = Result (A × Cursor)} (ok (a, c)) (ok (b, c'))
    → a ≡ b
gives_value {A = A} e = ap (λ (r : A × Cursor). r.0) (ok-injective e)

repeat-Skips :
    (reading : Read Value) (skipping : Read (Unit {0})) (n : ℕ)
    → Skips NoFlags reading skipping
    → Skips NoFlagsItems (read_items reading n) (repeat skipping n)
unfolding read_items repeat NoFlagsItems
repeat-Skips reading skipping zero s c a c' h e p =
    (ap (λ c'. ok (tt, c')) (ends_at e), subst IsBytes (ends_at e) h)
repeat-Skips reading skipping (suc n) s c a c' h e p =
    let ((v, c1), first, rest) = >>=-eq-ok (reading c) _ e in
    let ((vs, c2), later, made) = >>=-eq-ok (read_items reading n c1) _ rest in
    let (pv, pvs) : NoFlags v × NoFlagsItems vs = subst NoFlagsItems (sym (gives_value made)) p in
    let (skipped, bytes1) = s c _ _ h first pv in
    let (others, bytes2) = repeat-Skips reading skipping n s c1 _ _ bytes1 later pvs in
    (
      rw (skipped, others) (ap (λ c'. ok (tt, c')) (ends_at made)),
      subst IsBytes (ends_at made) bytes2,
    )

pub zigzag-agrees :
    (c : Cursor) {z : ℤ} {c' : Cursor}
    → IsBytes c
    → zigzag c ≡ ok (z, c')
    → (walk_zigzag c ≡ ok (z, c')) × IsBytes c'
unfolding zigzag walk_zigzag
zigzag-agrees c h e =
    let ((v, c1), first, made) = >>=-eq-ok (varint c) _ e in
    let (walked, bytes1) = varint-agrees c h first in
    (rw walked made, subst IsBytes (ends_at made) bytes1)

pub field_id-agrees :
    (last : ℤ) (delta : ℕ) (c : Cursor) {z : ℤ} {c' : Cursor}
    → IsBytes c
    → field_id last delta c ≡ ok (z, c')
    → (walk_id last delta c ≡ ok (z, c')) × IsBytes c'
unfolding field_id walk_id
field_id-agrees last delta c h e = elim (Bool-cases (delta == 0)) [
  | inl far ↦ rw far (zigzag-agrees c h (rw far at e))
  | inr near ↦ rw near (rw near at e, subst IsBytes (ends_at (rw near at e)) h)
]

pub count-agrees :
    (head : ℕ) (c : Cursor) {n : ℕ} {c' : Cursor}
    → IsBytes c
    → item_count head c ≡ ok (n, c')
    → (walk_count head c ≡ ok (n, c')) × IsBytes c'
unfolding item_count walk_count
count-agrees head c h e = elim (Bool-cases (head / 2 ^ 4 == 15)) [
  | inl long ↦ rw long (varint-agrees c h (rw long at e))
  | inr short ↦ rw short (rw short at e, subst IsBytes (ends_at (rw short at e)) h)
]

module _ (read : ℕ → Read Value) (skipping : ℕ → Read (Unit {0}))
    (s : (t : ℕ) → Skips NoFlags (read t) (skipping t)) where
  skip_fields-Skips :
      (rounds : ℕ) (last : ℤ)
      → Skips NoFlagsFields (read_fields read rounds last) (skip_fields skipping rounds last)
  unfolding read_fields read_field skip_fields NoFlagsFields
  skip_fields-Skips zero last c a c' h e p = cc
  skip_fields-Skips (suc rounds) last c a c' h e p =
      let ((b, c1), first, rest) = >>=-eq-ok (byte c) _ e in
      let bytes1 = byte-IsBytes c h first in
      elim (Bool-cases (b == 0)) [
        | inl stop ↦
            let made = rw stop at rest in
            (
              rw (first, stop) (ap (λ c'. ok (tt, c')) (ends_at made)),
              subst IsBytes (ends_at made) bytes1,
            )
        | inr more ↦
            let ((fid, c2), second, rest2) =
              >>=-eq-ok (field_id last (b / 2 ^ 4) c1) _ (rw more at rest) in
            let ((v, c3), third, rest3) = >>=-eq-ok (read (bit_and b 0x0f) c2) _ rest2 in
            let ((fs, c4), fourth, made) = >>=-eq-ok (read_fields read rounds fid c3) _ rest3 in
            let (pv, pfs) : NoFlags v × NoFlagsFields fs =
              subst NoFlagsFields (sym (gives_value made)) p in
            let (walked, bytes2) = field_id-agrees last (b / 2 ^ 4) c1 bytes1 second in
            let (skipped, bytes3) = s (bit_and b 0x0f) c2 _ _ bytes2 third pv in
            let (others, bytes4) = skip_fields-Skips rounds fid c3 _ _ bytes3 fourth pfs in
            (
              rw (first, more, walked, skipped, others) (ap (λ c'. ok (tt, c')) (ends_at made)),
              subst IsBytes (ends_at made) bytes4,
            )
      ]

  skip_list-Skips : Skips NoFlags (read_list read) (skip_list skipping)
  unfolding read_list skip_list list_header NoFlags
  skip_list-Skips c a c' h e p =
      let ((b, c1), first, rest) = >>=-eq-ok (byte c) _ e in
      let ((n, c2), second, rest2) = >>=-eq-ok (item_count b c1) _ rest in
      let ((vs, c3), third, made) =
        >>=-eq-ok
          (read_items (if is_bool (bit_and b 0x0f) then bool_item else read (bit_and b 0x0f)) n c2)
          _ rest2 in
      let (no_bool, pvs) : (is_bool (bit_and b 0x0f) ≡ false) × NoFlagsItems vs =
        subst NoFlags (sym (gives_value made)) p in
      let (walked, bytes2) = count-agrees b c1 (byte-IsBytes c h first) second in
      let read_all : read_items (read (bit_and b 0x0f)) n c2 ≡ ok (vs, c3) = rw no_bool at third in
      let (skipped, bytes3) = repeat-Skips _ _ n (s (bit_and b 0x0f)) c2 _ _ bytes2 read_all pvs in
      (
        rw (first, walked, skipped) (ap (λ c'. ok (tt, c')) (ends_at made)),
        subst IsBytes (ends_at made) bytes3,
      )

  skip_of-Skips : (t : ℕ) (k : Kind) → Skips NoFlags (value_of read t k) (skip_of skipping t k)
  unfolding value_of skip_of read_struct skip_struct walk_binary NoFlags zigzag
  skip_of-Skips t bool_kind c a c' h e p =
      (ap (λ c'. ok (tt, c')) (ends_at e), subst IsBytes (ends_at e) h)
  skip_of-Skips t byte_kind c a c' h e p =
      let ((b, c1), first, made) = >>=-eq-ok (byte c) _ e in
      (
        byte-advance c first ∙ ap (λ c'. ok (tt, c')) (ends_at made),
        subst IsBytes (ends_at made) (byte-IsBytes c h first),
      )
  skip_of-Skips t int_kind c a c' h e p =
      let ((z, c1), first, made) = >>=-eq-ok (zigzag c) _ e in
      let ((v, c2), taken, same) = >>=-eq-ok (varint c) _ first in
      let (walked, bytes1) = varint-agrees c h taken in
      let e' = ends_at same ∙ ends_at made in
      (rw walked (ap (λ c'. ok (tt, c')) e'), subst IsBytes e' bytes1)
  skip_of-Skips t double_kind c a c' h e p =
      let ((bs, c1), first, made) = >>=-eq-ok (slice 8 c) _ e in
      (
        rw first (ap (λ c'. ok (tt, c')) (ends_at made)),
        subst IsBytes (ends_at made) (slice-IsBytes 8 c h first),
      )
  skip_of-Skips t binary_kind c a c' h e p =
      let ((n, c1), first, rest) = >>=-eq-ok (varint c) _ e in
      let ((bs, c2), second, made) = >>=-eq-ok (slice n c1) _ rest in
      let (walked, bytes1) = varint-agrees c h first in
      (
        rw (walked, second) (ap (λ c'. ok (tt, c')) (ends_at made)),
        subst IsBytes (ends_at made) (slice-IsBytes n c1 bytes1 second),
      )
  skip_of-Skips t list_kind c a c' h e p = skip_list-Skips c a c' h e p
  skip_of-Skips t struct_kind c a c' h e p =
      let ((fs, c1), first, made) =
        >>=-eq-ok (read_fields read (suc (length c.unread)) (pos 0) c) _ e in
      let flagless : NoFlagsFields fs = subst NoFlags (sym (gives_value made)) p in
      let (skipped, bytes1) =
        skip_fields-Skips (suc (length c.unread)) (pos 0) c _ _ h first flagless in
      (skipped ∙ ap (λ c'. ok (tt, c')) (ends_at made), subst IsBytes (ends_at made) bytes1)
  skip_of-Skips t unsupported c a c' h e p = cc

pub skip-Skips : (fuel t : ℕ) → Skips NoFlags (value fuel t) (skip fuel t)
unfolding value skip
skip-Skips zero t c a c' h e p = cc
skip-Skips (suc fuel) t c a c' h e p =
    skip_of-Skips (value fuel) (skip fuel) (skip-Skips fuel) t (kind_of t) c a c' h e p

-- Where the reader yields a value that holds no list of booleans, from bytes, the walker's `skip` of the
-- same tag ends without an error at the very position where the reader stands.
pub skip-agrees :
    (fuel t : ℕ) (c : Cursor) (v : Value) (c' : Cursor)
    → IsBytes c
    → value fuel t c ≡ ok (v, c')
    → NoFlags v
    → skip fuel t c ≡ ok (tt, c')
skip-agrees fuel t c v c' h e p = (skip-Skips fuel t c v c' h e p).0
