-- ===== src/PageIndex/Layout.antt =====
-- What an accepted chunk's pages and offset index are.
use zpq.Common.{
  ℕ, zero, suc, ◌≡◌, refl, subst, ◌∙◌, Bool, true, false, not, Option, none, some, List, [], ◌∷◌,
  inl, inr, arith,
}
use zpq.Common.Tests.{same_bool, same_bool-eq, ◌==◌, ==_iff, Bool-cases}
use zpq.Common.Lists.{length}
use zpq.Common.Int.{ℤ, pos, ◌+ℤ◌, ◌-ℤ◌, ltb_ℤ, eqb_ℤ, int_laws}
use zpq.Common.Result.{
  Result, ok, out_of_fuel, ok-injective, >>=-eq-ok, guard->>-eq-ok, guard-eq-ok, system_exit,
}
use zpq.PageIndex.Compact.{Obj, Dict}
use zpq.PageIndex.{
  Page, Chunk, File, integer_at, dict_of, struct_at, header_at, is_dictionary, data_pages, start_of,
  end_of, walk, values_of, any_page, is_some, starts_at, check_pages, list_at, check_locations,
  has_length, check_offset_index, check_index, check_chunk,
}

-- The pages are a chain from a position to an end: each page's offset and size lead to the next one's offset.
abbrev pub Tiles : ℤ → List Page → ℤ → Type 0
Tiles at [] end = at ≡ end
Tiles at (p ∷ ps) end = (p.offset ≡ at) × Tiles (at +ℤ p.size) ps end

-- An entry of an offset index for each page: its offset, its size, and the sum of the values before it as first row.
abbrev pub Locates : ℤ → List Obj → List Page → Type 0
Locates first [] [] = Unit
Locates first (o ∷ os) [] = ⊥
Locates first [] (p ∷ ps) = ⊥
Locates first (o ∷ os) (p ∷ ps) =
    ((loc : Dict) × (dict_of o ≡ ok loc)
      × (integer_at (pos 1) loc ≡ ok p.offset)
      × (integer_at (pos 2) loc ≡ ok p.size)
      × (integer_at (pos 3) loc ≡ ok first))
    × Locates (first +ℤ p.values) os ps

-- The index of a chunk, by what the chunk has.
abbrev pub Indexed : File → Bool → List Page → Option ℤ → Type 0
Indexed f require ps none = require ≡ false
Indexed f require ps (some at) =
    (oi : Dict) × (behind : ℤ) × (locs : List Obj) × (struct_at f at ≡ ok (oi, behind))
    × (list_at (pos 1) oi ≡ ok locs)
    × Locates (pos 0) locs (data_pages ps)

eqb_ℤ-eq : (a b : ℤ) → eqb_ℤ a b ≡ true → a ≡ b
eqb_ℤ-eq a b h = ground arith

walk-Tiles :
    (f : File) (fuel : ℕ) (at end : ℤ) {ps : List Page} {last : ℤ}
    → walk f fuel at end ≡ ok (ps, last)
    → Tiles at ps last
unfolding walk
walk-Tiles f zero at end {ps} {last} h = elim (Bool-cases (ltb_ℤ at end)) [
  | inl more ↦ absurd (no_ok (rw (walk, more) at h))
  | inr done ↦ finished (rw (walk, done) at h)
]
  where
    no_ok : ◌≡◌ {A = Result (List Page × ℤ)} out_of_fuel (ok (ps, last)) → ⊥
    no_ok e = cc

    finished : ◌≡◌ {A = Result (List Page × ℤ)} (ok ([], at)) (ok (ps, last)) → Tiles at ps last
    finished e = subst (λ (r : List Page × ℤ). Tiles at r.0 r.1) (ok-injective e) refl
walk-Tiles f (suc fuel) at end {ps} {last} h = elim (Bool-cases (ltb_ℤ at end)) [
  | inr done ↦
      subst (λ (r : List Page × ℤ). Tiles at r.0 r.1) (ok-injective (rw (walk, done) at h)) refl
  | inl more ↦
      let ((head, body), first, rest) = >>=-eq-ok (header_at f at) _ (rw (walk, more) at h) in
      let ((qs, stop), later, made) = >>=-eq-ok (walk f fuel (body +ℤ head.body_size) end) _ rest in
      let tiled = walk-Tiles f fuel (body +ℤ head.body_size) end later in
      subst (λ (r : List Page × ℤ). Tiles at r.0 r.1) (ok-injective made)
        (refl, subst (λ n. Tiles n qs stop) (joined body head.body_size) tiled)
]
  where
    joined : (body size : ℤ) → body +ℤ size ≡ at +ℤ ((body -ℤ at) +ℤ size)
    joined body size = omega int_laws

check_locations-Locates :
    (first : ℤ) (os : List Obj) (ps : List Page) {u : Unit {0}}
    → check_locations first os ps ≡ ok u
    → length os ≡ length ps
    → Locates first os ps
unfolding check_locations
check_locations-Locates first [] [] h e = tt
check_locations-Locates first (o ∷ os) [] h e = absurd (omega (arith, e))
check_locations-Locates first [] (p ∷ ps) h e = absurd (omega (arith, e))
check_locations-Locates first (o ∷ os) (p ∷ ps) h e =
    let (loc, struct, h) = >>=-eq-ok (dict_of o) _ h in
    let (offset, at, h) = >>=-eq-ok (integer_at (pos 1) loc) _ h in
    let (same_offset, h) = guard->>-eq-ok (eqb_ℤ offset p.offset) system_exit h in
    let (size, sized, h) = >>=-eq-ok (integer_at (pos 2) loc) _ h in
    let (same_size, h) = guard->>-eq-ok (eqb_ℤ size p.size) system_exit h in
    let (row, counted, h) = >>=-eq-ok (integer_at (pos 3) loc) _ h in
    let (same_row, h) = guard->>-eq-ok (eqb_ℤ row first) system_exit h in
    (
      (
        loc,
        struct,
        subst (λ z. integer_at (pos 1) loc ≡ ok z) (eqb_ℤ-eq offset p.offset same_offset) at,
        subst (λ z. integer_at (pos 2) loc ≡ ok z) (eqb_ℤ-eq size p.size same_size) sized,
        subst (λ z. integer_at (pos 3) loc ≡ ok z) (eqb_ℤ-eq row first same_row) counted,
      ),
      check_locations-Locates (first +ℤ p.values) os ps h (omega (arith, e)),
    )

check_offset_index-Indexed :
    (f : File) (require : Bool) (c : Chunk) (at : ℤ) (ps : List Page) {u : Unit {0}}
    → check_offset_index f c at (data_pages ps) ≡ ok u
    → Indexed f require ps (some at)
unfolding check_offset_index
check_offset_index-Indexed f require c at ps h =
    let ((oi, behind), read_, h) = >>=-eq-ok (struct_at f at) _ h in
    let (_, h) = guard->>-eq-ok (has_length c.index_length (behind -ℤ at)) system_exit h in
    let (locs, list_items, h) = >>=-eq-ok (list_at (pos 1) oi) _ h in
    let (sized, h) = guard->>-eq-ok (length locs == length (data_pages ps)) system_exit h in
    let same = (==_iff (length locs) (length (data_pages ps))).0 sized in
    (
      oi,
      behind,
      locs,
      read_,
      list_items,
      check_locations-Locates (pos 0) locs (data_pages ps) h same,
    )

check_index-Indexed :
    (f : File) (require : Bool) (c : Chunk) (ps : List Page) (index column_index : Option ℤ)
    {u : Unit {0}}
    → check_index f require c ps index column_index ≡ ok u
    → Indexed f require ps index
unfolding check_index
check_index-Indexed f require c ps none none {u} h =
    negated require (guard-eq-ok (not require) system_exit u h)
  where
    negated : (b : Bool) → not b ≡ true → b ≡ false
    negated false e = refl
    negated true e = cc
check_index-Indexed f require c ps none (some n) h = cc
check_index-Indexed f require c ps (some n) none h =
    let (u, indexed, _) = >>=-eq-ok (check_offset_index f c n (data_pages ps)) _ h in
    check_offset_index-Indexed f require c n ps indexed
check_index-Indexed f require c ps (some n) (some m) h =
    check_offset_index-Indexed f require c n ps h

-- Of a chunk that is accepted, whatever the fuel: each page's offset and size lead to the next page's offset, from
-- the chunk's start to its end (a size may be negative); its data pages hold its number of values, the row group's
-- number of rows; it has a dictionary page iff it says so, and its first data page where it says; and where it has an
-- offset index, the struct read there lists its data pages' offsets, sizes and first rows, one entry for each data
-- page. An index is there if one is required.
pub check_chunk-Tiles :
    (f : File) (fuel : ℕ) (require : Bool) (c : Chunk) (rows : ℤ) (ps : List Page)
    → check_chunk f fuel require c rows ≡ ok ps
    → Tiles (start_of c) ps (end_of c)
      × (values_of (data_pages ps) ≡ c.num_values)
      × (c.num_values ≡ rows)
      × (is_some c.dictionary_offset ≡ any_page is_dictionary ps)
      × (starts_at c.data_offset (data_pages ps) ≡ true)
      × Indexed f require ps c.index_offset
unfolding check_chunk check_pages
check_chunk-Tiles f fuel require c rows ps h =
    let (qs, pages, h) = >>=-eq-ok (check_pages f fuel c rows) _ h in
    let (_, indexed, made) =
      >>=-eq-ok (check_index f require c qs c.index_offset c.column_index_offset) _ h in
    let ((rs, last), walked, p) = >>=-eq-ok (walk f fuel (start_of c) (end_of c)) _ pages in
    let (ends, p) = guard->>-eq-ok (eqb_ℤ last (end_of c)) system_exit p in
    let (values, p) =
      guard->>-eq-ok (eqb_ℤ (values_of (data_pages rs)) c.num_values) system_exit p in
    let (flat, p) = guard->>-eq-ok (eqb_ℤ c.num_values rows) system_exit p in
    let (dictionary, p) =
      guard->>-eq-ok (same_bool (is_some c.dictionary_offset) (any_page is_dictionary rs))
        system_exit p in
    let (starts, p) = guard->>-eq-ok (starts_at c.data_offset (data_pages rs)) system_exit p in
    let same : qs ≡ ps = ok-injective made in
    let result : rs ≡ ps = ok-injective p ∙ same in
    (
      subst (λ ps. Tiles (start_of c) ps (end_of c)) result
          (subst (Tiles (start_of c) rs) (eqb_ℤ-eq last (end_of c) ends)
            (walk-Tiles f fuel (start_of c) (end_of c) walked)),
      subst (λ ps. values_of (data_pages ps) ≡ c.num_values) result
          (eqb_ℤ-eq _ c.num_values values),
      eqb_ℤ-eq c.num_values rows flat,
      subst (λ ps. is_some c.dictionary_offset ≡ any_page is_dictionary ps) result
          (same_bool-eq _ _ dictionary),
      subst (λ ps. starts_at c.data_offset (data_pages ps) ≡ true) result starts,
      subst (λ ps. Indexed f require ps c.index_offset) same
          (check_index-Indexed f require c qs c.index_offset c.column_index_offset indexed),
    )
