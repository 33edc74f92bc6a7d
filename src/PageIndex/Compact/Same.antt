-- ===== src/PageIndex/Compact/Same.antt =====
-- Compact makes of the bytes what the full reader reads there.
use zpq.Common.{ℕ, zero, suc, ◌/◌, ◌^◌, ◌≡◌, refl, subst, false, inl, inr, bit_and}
use zpq.Common.Tests.{◌==◌, if◌then◌else◌, Bool-cases}
use zpq.Common.Lists.{length}
use zpq.Common.Int.{ℤ, pos, negsuc}
use zpq.Common.Result.{Result, ok, raised, struct_error, ◌>>=◌, >>=-eq-ok, ok-injective}
use zpq.Thrift.Value.{
  Bytes, Value, Items, Fields, bool, int, bytes, list, struct, nil, cons, no_fields, field, Kind,
  bool_kind, byte_kind, int_kind, double_kind, binary_kind, list_kind, struct_kind, unsupported,
  kind_of, is_bool,
}
use zpq.Thrift.Cursor.{Cursor, Read, byte, varint, zigzag, slice}
use zpq.Thrift.Reader.{
  read_items, item_count, bool_item, read_list, field_id, read_field, read_fields, read_struct,
  value_of, value,
}
use zpq.Walker.Footer.Follows.{ends, then_rest}
use zpq.PageIndex.Compact.{
  Obj, Objs, Dict, flag, number, float, binary, items, members, no_objs, obj_and, empty, set_member,
  signed, unpack_double, obj_items, obj_count, flag_item, obj_list, member_id, struct_loop,
  obj_struct, obj_of, obj,
}

-- A byte is signed.
unfoldable pub int_obj : Kind → ℤ → Obj
int_obj byte_kind (pos n) = number (signed n)
int_obj byte_kind (negsuc n) = number (negsuc n)
int_obj _ z = number z

-- A double that is cut short is refused.
unfoldable pub bytes_obj : Kind → Bytes → Result Obj
bytes_obj double_kind bs = if length bs == 8 then ok (float bs) else raised struct_error
bytes_obj _ bs = ok (binary bs)

-- The value of a tag as Python's own; of two fields of one id the later counts.
unfoldable mutual
  unfolding set_member int_obj bytes_obj

  pub as_obj : ℕ → Value → Result Obj
  as_obj t (bool b) = ok (flag b)
  as_obj t (int z) = ok (int_obj (kind_of t) z)
  as_obj t (bytes bs) = bytes_obj (kind_of t) bs
  as_obj t (list et vs) = as_objs et vs >>= λ os. ok (items os)
  as_obj t (struct fs) = as_dict fs empty >>= λ d. ok (members d)

  as_objs : ℕ → Items → Result Objs
  as_objs et nil = ok no_objs
  as_objs et (cons v vs) = as_obj et v >>= λ o. as_objs et vs >>= λ os. ok (obj_and o os)

  as_dict : Fields → Dict → Result Dict
  as_dict no_fields d = ok d
  as_dict (field i t v fs) d = as_obj t v >>= λ o. as_dict fs (set_member i o d)

-- Where `reading` gives a value, `making` gives what `m` makes of it, and ends where that ends.
abbrev Makes : {A B : Type 0} → (A → Result B) → Read A → Read B → Type 0
Makes {A} m reading making =
    (c : Cursor) (a : A) (c' : Cursor) → reading c ≡ ok (a, c') → making c ≡ ends (m a) c'

settled :
    {A B : Type 0} (m : A → Result B) {w : Result (B × Cursor)} {a b : A} {c c' : Cursor}
    → ◌≡◌ {A = Result (A × Cursor)} (ok (a, c)) (ok (b, c'))
    → w ≡ ends (m a) c
    → w ≡ ends (m b) c'
settled {A} m {w} e h = subst (λ (r : A × Cursor). w ≡ ends (m r.0) r.1) (ok-injective e) h

then_map :
    {A B : Type 0} (r : Result A) (c : Cursor) (f : A → B)
    → (ends r c >>= λ (a, c). ok (f a, c)) ≡ ends (r >>= λ a. ok (f a)) c
then_map r c f = then_rest r c c (λ a c. ok (f a, c)) (λ a. ok (f a)) (λ a. refl)

one_item :
    (et n : ℕ) (making : Read Obj) (c c1 c2 : Cursor) (v : Value) (vs : Items)
    → making c ≡ ends (as_obj et v) c1
    → obj_items making n c1 ≡ ends (as_objs et vs) c2
    → obj_items making (suc n) c ≡ ends (as_objs et (cons v vs)) c2
unfolding obj_items as_obj
one_item et n making c c1 c2 v vs first later = rw first (
    then_rest (as_obj et v) c1 c2 (λ o c. obj_items making n c >>= λ (os, c). ok (obj_and o os, c))
      (λ o. as_objs et vs >>= λ os. ok (obj_and o os))
      (λ o. rw later (then_map (as_objs et vs) c2 (λ os. obj_and o os))))

items-Makes :
    (et : ℕ) (reading : Read Value) (making : Read Obj)
    → Makes (as_obj et) reading making
    → (n : ℕ) → Makes (as_objs et) (read_items reading n) (obj_items making n)
unfolding read_items
items-Makes et reading making makes zero c a c' e =
    unfold obj_items as_obj in settled (as_objs et) e refl
items-Makes et reading making makes (suc n) c a c' e =
    let ((v, c1), first, rest) = >>=-eq-ok (reading c) _ e in
    let ((vs, c2), second, made) = >>=-eq-ok (read_items reading n c1) _ rest in
    settled (as_objs et) made (
      one_item et n making c c1 c2 v vs (makes c v c1 first)
        (items-Makes et reading making makes n c1 vs c2 second))

one_member :
    (making : ℕ → Read Obj) (rounds : ℕ) (last fid : ℤ) (b : ℕ) (v : Value) (fs : Fields) (d : Dict)
    (c c1 c2 c3 c4 : Cursor)
    → byte c ≡ ok (b, c1)
    → (b == 0) ≡ false
    → member_id last (b / 2 ^ 4) c1 ≡ ok (fid, c2)
    → making (bit_and b 0x0f) c2 ≡ ends (as_obj (bit_and b 0x0f) v) c3
    → ((d : Dict) → struct_loop making rounds fid d c3 ≡ ends (as_dict fs d) c4)
    → struct_loop making (suc rounds) last d c
      ≡ ends (as_dict (field fid (bit_and b 0x0f) v fs) d) c4
unfolding struct_loop as_obj
one_member making rounds last fid b v fs d c c1 c2 c3 c4 first more named here later =
    rw (first, more, named, here)
      (then_rest (as_obj (bit_and b 0x0f) v) c3 c4
        (λ o. struct_loop making rounds fid (set_member fid o d))
        (λ o. as_dict fs (set_member fid o d)) (λ o. later (set_member fid o d)))

module _ (read : ℕ → Read Value) (making : ℕ → Read Obj)
    (makes : (t : ℕ) → Makes (as_obj t) (read t) (making t)) where
  fields-Makes :
      (rounds : ℕ) (last : ℤ) (d : Dict)
      → Makes (λ fs. as_dict fs d) (read_fields read rounds last) (struct_loop making rounds last d)
  unfolding read_fields read_field field_id member_id
  fields-Makes zero last d c a c' e = cc
  fields-Makes (suc rounds) last d c a c' e =
      let ((b, c1), first, rest) = >>=-eq-ok (byte c) _ e in
      elim (Bool-cases (b == 0)) [
        | inl stop ↦
            settled (λ fs. as_dict fs d) (rw stop at rest)
              (unfold struct_loop as_obj in rw (first, stop) refl)
        | inr more ↦
            let ((fid, c2), second, rest2) =
              >>=-eq-ok (field_id last (b / 2 ^ 4) c1) _ (rw more at rest) in
            let ((v, c3), third, rest3) = >>=-eq-ok (read (bit_and b 0x0f) c2) _ rest2 in
            let ((fs, c4), fourth, made) = >>=-eq-ok (read_fields read rounds fid c3) _ rest3 in
            settled (λ fs. as_dict fs d) made
              (one_member making rounds last fid b v fs d c c1 c2 c3 c4 first more second
                (makes (bit_and b 0x0f) c2 v c3 third)
                (λ d. fields-Makes rounds fid d c3 fs c4 fourth))
      ]

  member-Makes :
      (et : ℕ)
      → Makes
          (as_obj et)
          (if is_bool et then bool_item else read et)
          (if is_bool et then flag_item else making et)
  unfolding bool_item flag_item
  member-Makes et c a c' e = elim (Bool-cases (is_bool et)) [
    | inl flags ↦
        let ((b, c1), first, made) = >>=-eq-ok (byte c) _ (rw flags at e) in
        rw (flags, first) (settled (as_obj et) made (unfold as_obj in refl))
    | inr plain ↦ rw plain (makes et c a c' (rw plain at e))
  ]

  one_list :
      (t b n : ℕ) (c c1 c2 c3 : Cursor) (vs : Items)
      → byte c ≡ ok (b, c1)
      → item_count b c1 ≡ ok (n, c2)
      → obj_items (if is_bool (bit_and b 0x0f) then flag_item else making (bit_and b 0x0f)) n c2
        ≡ ends (as_objs (bit_and b 0x0f) vs) c3
      → obj_list making c ≡ ends (as_obj t (list (bit_and b 0x0f) vs)) c3
  unfolding obj_list obj_count item_count as_obj
  one_list t b n c c1 c2 c3 vs first second third =
      rw (first, second, third) (then_map (as_objs (bit_and b 0x0f) vs) c3 (λ os. items os))

  list-Makes : (t : ℕ) → Makes (as_obj t) (read_list read) (obj_list making)
  unfolding read_list
  list-Makes t c a c' e =
      let ((b, c1), first, rest) = >>=-eq-ok (byte c) _ e in
      let ((n, c2), second, rest2) = >>=-eq-ok (item_count b c1) _ rest in
      let et : ℕ = bit_and b 0x0f in
      let ((vs, c3), third, made) =
        >>=-eq-ok (read_items (if is_bool et then bool_item else read et) n c2) _ rest2 in
      settled (as_obj t) made (
        one_list t b n c c1 c2 c3 vs first second
          (items-Makes et _ _ (member-Makes et) n c2 vs c3 third))

  obj_of-Makes :
      (t : ℕ) (k : Kind) → kind_of t ≡ k → Makes (as_obj t) (value_of read t k) (obj_of making t k)
  unfolding value_of obj_of read_struct obj_struct as_obj int_obj bytes_obj unpack_double
  obj_of-Makes t bool_kind k c a c' e = settled (as_obj t) e refl
  obj_of-Makes t byte_kind k c a c' e =
      let ((b, c1), first, made) = >>=-eq-ok (byte c) _ e in
      settled (as_obj t) made (rw (first, k) refl)
  obj_of-Makes t int_kind k c a c' e =
      let ((z, c1), first, made) = >>=-eq-ok (zigzag c) _ e in
      settled (as_obj t) made (rw (first, k) refl)
  obj_of-Makes t double_kind k c a c' e =
      let ((bs, c1), first, made) = >>=-eq-ok (slice 8 c) _ e in
      settled (as_obj t) made (rw (first, k) (checked bs c1))
    where
      checked :
          (bs : Bytes) (c : Cursor)
          → unpack_double bs c
            ≡ ends (if length bs == 8 then ok (float bs) else raised struct_error) c
      checked bs c = elim (Bool-cases (length bs == 8)) [
        | inl whole ↦ rw whole refl
        | inr short ↦ rw short refl
      ]
  obj_of-Makes t binary_kind k c a c' e =
      let ((n, c1), first, rest) = >>=-eq-ok (varint c) _ e in
      let ((bs, c2), second, made) = >>=-eq-ok (slice n c1) _ rest in
      settled (as_obj t) made (rw (first, second, k) refl)
  obj_of-Makes t list_kind k c a c' e = list-Makes t c a c' e
  obj_of-Makes t struct_kind k c a c' e =
      let ((fs, c1), first, made) =
        >>=-eq-ok (read_fields read (suc (length c.unread)) (pos 0) c) _ e in
      settled (as_obj t) made (
        rw (fields-Makes (suc (length c.unread)) (pos 0) empty c fs c1 first)
          (then_map (as_dict fs empty) c1 (λ d. members d)))
  obj_of-Makes t unsupported k c a c' e = cc

-- Where the full reader yields a value, Compact makes it Python's own and ends at the same place: a byte is
-- signed, a struct is the dict of its fields, in which the last of an id counts, and a double that is cut short
-- is a struct.error.
pub obj-as_obj :
    (fuel t : ℕ) (c : Cursor) (v : Value) (c' : Cursor)
    → value fuel t c ≡ ok (v, c')
    → obj fuel t c ≡ ends (as_obj t v) c'
unfolding value obj
obj-as_obj zero t c v c' e = cc
obj-as_obj (suc fuel) t c v c' e =
    obj_of-Makes (value fuel) (obj fuel) (obj-as_obj fuel) t (kind_of t) refl c v c' e
