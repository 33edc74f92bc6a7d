-- ===== src/PageIndex/Fuel.antt =====
-- When the walk over a chunk's pages ends, and when it never does.
use zpq.Common.{
  ℕ, zero, suc, ◌≡◌, ◌≢◌, refl, Bool, true, false, not, Option, none, some, List, [], ◌∷◌, inl, inr,
  arith,
}
use zpq.Common.Tests.{same_bool, ◌==◌, Bool-cases, Option-cases}
use zpq.Common.Lists.{length, length-drop}
use zpq.Common.Int.{ℤ, pos, negsuc, ◌+ℤ◌, ◌-ℤ◌, ◌≤ℤ◌, ◌<ℤ◌, ltb_ℤ, eqb_ℤ, int_laws}
use zpq.Common.Result.{
  Result, ok, raised, out_of_fuel, type_error, Exn, guard, Ends, gives, raises, Ends-ne, Ends-bind,
  system_exit,
}
use zpq.Thrift.Cursor.{at_pos}
use zpq.PageIndex.Compact.{Obj, Dict, flag, number, float, binary, items, members, pairs}
use zpq.PageIndex.Compact.Total.{obj_struct-Past}
use zpq.PageIndex.{
  Header, Page, Chunk, File, get_member, as_integer, integer_at, dict_of, first_true, count_in,
  as_header, struct_at, header_at, is_dictionary, data_pages, start_of, end_of, walk, values_of,
  any_page, is_some, starts_at, check_pages, objs_of, list_at, check_locations, has_length,
  check_offset_index, check_index, check_chunk,
}

-- None of the headers that the first rounds of a walk read has a negative size.
abbrev pub Sized : File → (rounds : ℕ) → (at end : ℤ) → Type 0
Sized f zero at end = Unit
Sized f (suc rounds) at end =
    (h : Header) (body : ℤ)
    → at <ℤ end
    → header_at f at ≡ ok (h, body)
    → (pos 0 ≤ℤ h.body_size) × Sized f rounds (body +ℤ h.body_size) end

-- An offset, where there is one, is not negative.
abbrev pub IsNatural : Option ℤ → Type 0
IsNatural none = Unit
IsNatural (some z) = pos 0 ≤ℤ z

-- A value, whatever it is.
abbrev Any {ℓ} : {A : Type ℓ} → A → Type 0
Any a = Unit {0}

guard-Ends : (b : Bool) (e : Exn) → Ends Any (guard b e)
guard-Ends true e = gives tt
guard-Ends false e = raises

Ends-eq : {A : Type 0} {P : A → Type 0} {r : Result A} → Ends P r → Ends (λ a. P a × (r ≡ ok a)) r
Ends-eq (gives h) = gives (h, refl)
Ends-eq raises = raises

as_integer-Ends : (o : Obj) → Ends Any (as_integer o)
unfolding as_integer
as_integer-Ends (number z) = gives tt
as_integer-Ends (flag false) = gives tt
as_integer-Ends (flag true) = gives tt
as_integer-Ends (float bs) = raises
as_integer-Ends (binary bs) = raises
as_integer-Ends (items os) = raises
as_integer-Ends (members d) = raises
as_integer-Ends (pairs p) = raises

integer_at-Ends : (i : ℤ) (d : Dict) → Ends Any (integer_at i d)
unfolding integer_at
integer_at-Ends i d = elim (Option-cases (get_member i d)) [
  | inl e ↦ rw (integer_at, e) raises
  | inr (o, e) ↦ rw (integer_at, e) (as_integer-Ends o)
]

count_in-Ends : (o : Obj) → Ends Any (count_in o)
unfolding count_in
count_in-Ends (members d) = elim (Option-cases (get_member (pos 1) d)) [
  | inl e ↦ rw (count_in, e) (gives tt)
  | inr (o, e) ↦ rw (count_in, e) (as_integer-Ends o)
]
count_in-Ends (pairs p) = raises
count_in-Ends (number z) = raises
count_in-Ends (flag b) = raises
count_in-Ends (float bs) = raises
count_in-Ends (binary bs) = raises
count_in-Ends (items os) = raises

as_header-Ends : (d : Dict) → Ends Any (as_header d)
unfolding as_header
as_header-Ends d = Ends-bind (integer_at-Ends (pos 1) d) λ kind t.
    Ends-bind (integer_at-Ends (pos 3) d) λ size t.
      Ends-bind (count_in-Ends (first_true (pos 5 ∷ pos 8 ∷ pos 7 ∷ []) d)) λ n t. gives tt

-- A struct is read from a byte at least.
struct_at-Ends : (f : File) (n : ℕ) → Ends (λ (_, behind). pos n <ℤ behind) (struct_at f (pos n))
unfolding struct_at
struct_at-Ends f n =
    Ends-bind
      (obj_struct-Past (suc (length f.bytes)) (at_pos _ n) (omega (arith, length-drop n f.bytes)))
      λ (d, c) (h, p). gives (omega arith)

header_at-Ends : (f : File) (n : ℕ) → Ends (λ (_, body). pos n <ℤ body) (header_at f (pos n))
unfolding header_at
header_at-Ends f n =
    Ends-bind (struct_at-Ends f n) λ (d, body) h. Ends-bind (as_header-Ends d) λ head t. gives h

walk-Ends :
    (f : File) (fuel : ℕ) (at end : ℤ)
    → pos 0 ≤ℤ at
    → Sized f fuel at end
    → end ≤ℤ at +ℤ pos fuel
    → Ends Any (walk f fuel at end)
unfolding walk
walk-Ends f fuel (negsuc n) end h s r = absurd (omega arith)
walk-Ends f zero (pos n) end h s r = rw (done (omega (int_laws, r))) (gives tt)
  where
    done : end ≤ℤ pos n → ltb_ℤ (pos n) end ≡ false
    done h = ground arith
walk-Ends f (suc fuel) (pos n) end h s r = elim (Bool-cases (ltb_ℤ (pos n) end)) [
  | inr done ↦ rw (walk, done) (gives tt)
  | inl more ↦
      rw (walk, more)
        (Ends-bind (Ends-eq (header_at-Ends f n)) λ (head, body) (ahead, read_).
          let (sized, later) = s head body (before more) read_ in
          Ends-bind
            (walk-Ends f fuel (body +ℤ head.body_size) end (natural body head.body_size ahead sized)
              later (enough body head.body_size ahead sized))
            λ r t. gives tt)
]
  where
    before : ltb_ℤ (pos n) end ≡ true → pos n <ℤ end
    before e = ground arith

    natural : (body size : ℤ) → pos n <ℤ body → pos 0 ≤ℤ size → pos 0 ≤ℤ body +ℤ size
    natural body size a b = omega int_laws

    enough : (body size : ℤ) → pos n <ℤ body → pos 0 ≤ℤ size → end ≤ℤ (body +ℤ size) +ℤ pos fuel
    enough body size a b = omega (int_laws, r)

check_pages-Ends :
    (f : File) (fuel : ℕ) (c : Chunk) (rows : ℤ)
    → pos 0 ≤ℤ start_of c
    → Sized f fuel (start_of c) (end_of c)
    → c.compressed_size ≤ℤ pos fuel
    → Ends Any (check_pages f fuel c rows)
unfolding check_pages
check_pages-Ends f fuel c rows h s r =
    Ends-bind
      (walk-Ends f fuel (start_of c) (end_of c) h s (enough (start_of c) c.compressed_size r))
      λ (ps, last) t. Ends-bind (guard-Ends (eqb_ℤ last (end_of c)) system_exit) λ u t.
        Ends-bind (guard-Ends (eqb_ℤ (values_of (data_pages ps)) c.num_values) system_exit) λ u t.
          Ends-bind (guard-Ends (eqb_ℤ c.num_values rows) system_exit) λ u t.
            Ends-bind
              (guard-Ends (same_bool (is_some c.dictionary_offset) (any_page is_dictionary ps))
                system_exit)
              λ u t.
                Ends-bind (guard-Ends (starts_at c.data_offset (data_pages ps)) system_exit)
                  λ u t. gives tt
  where
    enough : (start size : ℤ) → size ≤ℤ pos fuel → start +ℤ size ≤ℤ start +ℤ pos fuel
    enough start size h = omega int_laws

dict_of-Ends : (o : Obj) → Ends Any (dict_of o)
dict_of-Ends (members d) = gives tt
dict_of-Ends (number z) = raises
dict_of-Ends (flag b) = raises
dict_of-Ends (float bs) = raises
dict_of-Ends (binary bs) = raises
dict_of-Ends (items os) = raises
dict_of-Ends (pairs p) = raises

list_at-Ends : (i : ℤ) (d : Dict) → Ends Any (list_at i d)
unfolding list_at
list_at-Ends i d = elim (Option-cases (get_member i d)) [
  | inl e ↦ rw (list_at, e) raises
  | inr (o, e) ↦ rw (list_at, e) (list_items o)
]
  where
    list_items :
        (o : Obj) → Ends Any (elim o [ items os ↦ ok (objs_of os) | _ ↦ raised type_error ])
    list_items (items os) = gives tt
    list_items (members d) = raises
    list_items (number z) = raises
    list_items (flag b) = raises
    list_items (float bs) = raises
    list_items (binary bs) = raises
    list_items (pairs p) = raises

check_locations-Ends :
    (first : ℤ) (os : List Obj) (ps : List Page) → Ends Any (check_locations first os ps)
unfolding check_locations
check_locations-Ends first [] ps = gives tt
check_locations-Ends first (o ∷ os) [] = gives tt
check_locations-Ends first (o ∷ os) (p ∷ ps) = Ends-bind (dict_of-Ends o) λ loc t.
    Ends-bind (integer_at-Ends (pos 1) loc) λ offset t.
      Ends-bind (guard-Ends (eqb_ℤ offset p.offset) system_exit) λ u t.
        Ends-bind (integer_at-Ends (pos 2) loc) λ size t.
          Ends-bind (guard-Ends (eqb_ℤ size p.size) system_exit) λ u t.
            Ends-bind (integer_at-Ends (pos 3) loc) λ row t.
              Ends-bind (guard-Ends (eqb_ℤ row first) system_exit)
                λ u t. check_locations-Ends (first +ℤ p.values) os ps

check_offset_index-Ends :
    (f : File) (c : Chunk) (n : ℕ) (ps : List Page) → Ends Any (check_offset_index f c (pos n) ps)
unfolding check_offset_index
check_offset_index-Ends f c n ps = Ends-bind (struct_at-Ends f n) λ (oi, behind) t.
    Ends-bind (guard-Ends (has_length c.index_length (behind -ℤ pos n)) system_exit) λ u t.
      Ends-bind (list_at-Ends (pos 1) oi) λ locs t.
        Ends-bind (guard-Ends (length locs == length ps) system_exit)
          λ u t. check_locations-Ends (pos 0) locs ps

check_index-Ends :
    (f : File) (require : Bool) (c : Chunk) (ps : List Page) (index column_index : Option ℤ)
    → IsNatural index
    → Ends Any (check_index f require c ps index column_index)
unfolding check_index
check_index-Ends f require c ps none none h = guard-Ends (not require) system_exit
check_index-Ends f require c ps none (some n) h = raises
check_index-Ends f require c ps (some (negsuc n)) column_index h = absurd (omega arith)
check_index-Ends f require c ps (some (pos n)) none h =
    Ends-bind (check_offset_index-Ends f c n (data_pages ps))
      λ u t. guard-Ends (not require) system_exit
check_index-Ends f require c ps (some (pos n)) (some m) h =
    check_offset_index-Ends f c n (data_pages ps)

-- Of a chunk whose start is not negative and whose offset index, if it has one, has no negative offset: where none of
-- the headers that the walk over its pages reads has a negative size, its check ends on a round for each byte of the
-- chunk's size or more, with a list of pages or an exception.
pub check_chunk-ne-out_of_fuel :
    (f : File) (fuel : ℕ) (require : Bool) (c : Chunk) (rows : ℤ)
    → pos 0 ≤ℤ start_of c
    → IsNatural c.index_offset
    → Sized f fuel (start_of c) (end_of c)
    → c.compressed_size ≤ℤ pos fuel
    → check_chunk f fuel require c rows ≢ out_of_fuel
unfolding check_chunk
check_chunk-ne-out_of_fuel f fuel require c rows h i s r = Ends-ne {P = Any} (
    Ends-bind (check_pages-Ends f fuel c rows h s r) λ ps t.
      Ends-bind (check_index-Ends f require c ps c.index_offset c.column_index_offset i)
        λ u t. gives tt)

walk-stalls :
    (f : File) (fuel : ℕ) (at end : ℤ) (h : Header) (body : ℤ)
    → ltb_ℤ at end ≡ true
    → header_at f at ≡ ok (h, body)
    → body +ℤ h.body_size ≡ at
    → walk f fuel at end ≡ out_of_fuel
unfolding walk
walk-stalls f zero at end h body more read_ back = rw more
walk-stalls f (suc fuel) at end h body more read_ back =
    rw (walk, more, read_, back, walk-stalls f fuel at end h body more read_ back)

-- A header whose size is negative and cancels its own length is read again and again: the loop never ends.
pub check_chunk-stalls :
    (f : File) (fuel : ℕ) (require : Bool) (c : Chunk) (rows : ℤ) (h : Header) (body : ℤ)
    → ltb_ℤ (start_of c) (end_of c) ≡ true
    → header_at f (start_of c) ≡ ok (h, body)
    → body +ℤ h.body_size ≡ start_of c
    → check_chunk f fuel require c rows ≡ out_of_fuel
unfolding check_chunk check_pages
check_chunk-stalls f fuel require c rows h body more read_ back =
    rw (walk-stalls f fuel (start_of c) (end_of c) h body more read_ back)
