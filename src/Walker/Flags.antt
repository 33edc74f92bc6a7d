-- ===== src/Walker/Flags.antt =====
-- Where the walker and the reader differ: a list with boolean items.
use zpq.Common.{ℕ, zero, suc, ◌+◌, ◌≡◌, refl, sym, ap, ◌∙◌, true, [], ◌∷◌, arith, bit_and}
use zpq.Common.Tests.{if◌then◌else◌}
use zpq.Common.Result.{ok, >>=-eq-ok, ok-injective}
use zpq.Thrift.Value.{Bytes, Items, list, nil, kind_of, is_bool, t_list, count_items}
use zpq.Thrift.Cursor.{Cursor, byte, next_byte}
use zpq.Thrift.Reader.{read_items, item_count, bool_item, read_list, value_of, value}
use zpq.Walker.{list_header, repeat, skip_list, skip_of, skip}
use zpq.Walker.Agreement.{IsBytes, byte-IsBytes, count-agrees, ends_at, gives_value}

byte-moves : (c : Cursor) {b : ℕ} {c' : Cursor} → byte c ≡ ok (b, c') → c'.pos ≡ c.pos + 1
unfolding byte next_byte
byte-moves c e = go c.unread e
  where
    go : (bs : Bytes) {b : ℕ} {c' : Cursor} → next_byte bs c.pos ≡ ok (b, c') → c'.pos ≡ c.pos + 1
    go [] e = cc
    go (b ∷ bs) e = sym (ap (λ (r : ℕ × Cursor). r.1.pos) (ok-injective e))

-- Each boolean item is a byte.
flags-move :
    (n : ℕ) (c : Cursor) {vs : Items} {c' : Cursor}
    → read_items bool_item n c ≡ ok (vs, c')
    → c'.pos ≡ c.pos + count_items vs
unfolding read_items bool_item count_items
flags-move zero c {vs} {c'} e =
    let here : c ≡ c' = ends_at e in
    let items : nil ≡ vs = gives_value e in omega (arith, ap Cursor.pos here, ap count_items items)
flags-move (suc n) c {vs} {c'} e =
    let ((v, c1), first, rest) = >>=-eq-ok (bool_item c) _ e in
    let ((b, c0), taken, same) = >>=-eq-ok (byte c) _ first in
    let ((ws, c2), later, made) = >>=-eq-ok (read_items bool_item n c1) _ rest in
    omega (
      arith,
      byte-moves c taken,
      ap Cursor.pos (ends_at same),
      flags-move n c1 later,
      ap Cursor.pos (ends_at made),
      ap count_items (items_of (gives_value made)),
    )
  where
    items_of : {a b : Items} → a ≡ b → a ≡ b
    items_of h = h

list-injective : {t u : ℕ} {vs ws : Items} → list t vs ≡ list u ws → (t ≡ u) × (vs ≡ ws)
list-injective h = (cc, cc)

skip_flag : (fuel t : ℕ) (c : Cursor) → is_bool t ≡ true → skip (suc fuel) t c ≡ ok (tt, c)
unfolding skip skip_of kind_of
skip_flag fuel t c h = rw h refl

skip_flags :
    (fuel t n : ℕ) (c : Cursor) → is_bool t ≡ true → repeat (skip (suc fuel) t) n c ≡ ok (tt, c)
unfolding repeat
skip_flags fuel t zero c h = refl
skip_flags fuel t (suc n) c h = rw (skip_flag fuel t c h) (skip_flags fuel t n c h)

-- Behind the header of a list of booleans the reader takes a byte an item, as they are written, and the
-- walker's `skip` none: it ends without an error, as many bytes short as the list has items.
pub skip-short :
    (fuel et : ℕ) (c : Cursor) (vs : Items) (c' : Cursor)
    → IsBytes c
    → value (suc (suc fuel)) t_list c ≡ ok (list et vs, c')
    → is_bool et ≡ true
    → (c'' : Cursor) × (skip (suc (suc fuel)) t_list c ≡ ok (tt, c''))
      × (c'.pos ≡ c''.pos + count_items vs)
unfolding value value_of kind_of read_list skip skip_of skip_list list_header
skip-short fuel et c vs c' h e flags =
    let ((b, c1), first, rest) = >>=-eq-ok (byte c) _ e in
    let ((n, c2), second, rest2) = >>=-eq-ok (item_count b c1) _ rest in
    let (walked, _) = count-agrees b c1 (byte-IsBytes c h first) second in
    let ((ws, c3), third, made) =
      >>=-eq-ok
        (read_items
          (if is_bool (bit_and b 0x0f) then bool_item else value (suc fuel) (bit_and b 0x0f)) n c2)
        _ rest2 in
    let (tag, items) = list-injective (gives_value made) in
    let is_flag : is_bool (bit_and b 0x0f) ≡ true = ap is_bool tag ∙ flags in
    let all_flags : read_items bool_item n c2 ≡ ok (ws, c3) = rw is_flag at third in
    (
      c2,
      rw (first, walked) (skip_flags fuel (bit_and b 0x0f) n c2 is_flag),
      omega (arith, flags-move n c2 all_flags, ap Cursor.pos (ends_at made), ap count_items items),
    )
