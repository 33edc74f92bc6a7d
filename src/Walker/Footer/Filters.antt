-- ===== src/Walker/Footer/Filters.antt =====
-- footer_filters finds what the footer's value holds, its exceptions included.
use zpq.Common.{
  ℕ, zero, suc, pred, ◌≡◌, refl, subst, sym, List, ◌∷◌, some, none, Option, false, inl, inr, arith,
}
use zpq.Common.Int.{ℤ, pos, eqb_ℤ}
use zpq.Common.Tests.{Bool-cases}
use zpq.Common.Result.{Result, ok, raised, out_of_fuel, ◌>>=◌, >>=-eq-ok}
use zpq.Thrift.Value.{Bytes, Value, Items, bool, int, bytes, list, struct, cons}
use zpq.Thrift.Cursor.{Cursor, Read}
use zpq.Thrift.Reader.{read_items, value}
use zpq.Walker.{walk_zigzag, walk_binary}
use zpq.Walker.Agreement.{IsBytes, gives_value}
use zpq.Walker.Footer.Inside.{int_inside, bytes_inside, list_inside}
use zpq.Walker.Footer.Meaning.{of_struct, collect, at_field, AllItems, IsStruct, IsList, AtField}
use zpq.Walker.Footer.Follows.{
  Walks, Gives, ends, settle, then_rest, enter_at-Walks, over_fields-Walks, pass_by-Walks,
}
use zpq.Walker.Footer.Bounds.{IsFooter, footer_groups-Gives}
use zpq.Walker.Footer.Bloom.{
  physical, Physical, lift, Meta, MetaField, kind_field, path_field, offset_field, size_field,
  other_field, meta_field_of, texts, meta_step, meta_each, as_filter, no_meta, chunk_meta,
  chunk_filter, footer_filters,
}
use zpq.Walker.Footer.Chunks.{
  IsInt, IsText, IsMeta, IsStep, IsFilterChunk, int_of, text_of, path_of, meta_means, step_means,
  chunk_means, filter_of, filters_in,
}

module _ {Text : Type 0} (decode : Bytes → Result Text) where
  -- A step that goes on from the integer read.
  int_of-Gives :
      {S : Type 0} (g : ℤ → Result S) (fuel t : ℕ) (walking : Read S)
      → ((c : Cursor) (z : ℤ) (c' : Cursor)
          → walk_zigzag c ≡ ok (z, c')
          → walking c ≡ ends (g z) c')
      → Gives (IsInt t) (λ v. int_of v >>= g) (value fuel t) walking
  unfolding int_of
  int_of-Gives g fuel t walking step c (int z) c' h e p =
      let (walked, bytes') = int_inside fuel t c h p e in (step c z c' walked, bytes')
  int_of-Gives g fuel t walking step c (bool b) c' h e p = absurd p
  int_of-Gives g fuel t walking step c (bytes b) c' h e p = absurd p
  int_of-Gives g fuel t walking step c (list b vs) c' h e p = absurd p
  int_of-Gives g fuel t walking step c (struct b) c' h e p = absurd p

  text_inside :
      (fuel t : ℕ) (c : Cursor) (v : Value) {c' : Cursor}
      → IsBytes c
      → value fuel t c ≡ ok (v, c')
      → IsText t v
      → (bs : Bytes) × (v ≡ bytes bs) × (walk_binary c ≡ ok (bs, c')) × IsBytes c'
  text_inside fuel t c (bytes bs) h e p =
      let (walked, bytes') = bytes_inside fuel t c h p e in (bs, refl, walked, bytes')
  text_inside fuel t c (bool b) h e p = absurd p
  text_inside fuel t c (int b) h e p = absurd p
  text_inside fuel t c (list b vs) h e p = absurd p
  text_inside fuel t c (struct b) h e p = absurd p

  -- A text, and then the others, which mean q.
  then_texts :
      (r : Result Text) (q : Result (List Text)) (c c' : Cursor) (later : Read (List Text))
      → later c ≡ ends q c'
      → (ends r c >>= λ (x, c). later c >>= λ (xs, c). ok (x ∷ xs, c))
        ≡ ends (r >>= λ x. q >>= λ xs. ok (x ∷ xs)) c'
  then_texts (ok x) q c c' later h = rw h (go q)
    where
      go :
          (q : Result (List Text))
          → (ends q c' >>= λ (xs, c). ok (x ∷ xs, c)) ≡ ends (q >>= λ xs. ok (x ∷ xs)) c'
      go (ok xs) = refl
      go (raised e) = refl
      go out_of_fuel = refl
  then_texts (raised e) q c c' later h = refl
  then_texts out_of_fuel q c c' later h = refl

  one_text :
      (n : ℕ) (c c1 c2 : Cursor) (v : Value) (vs : Items) (bs : Bytes)
      → walk_binary c ≡ ok (bs, c1)
      → v ≡ bytes bs
      → texts decode n c1 ≡ ends (collect (text_of decode) vs) c2
      → texts decode (suc n) c ≡ ends (collect (text_of decode) (cons v vs)) c2
  unfolding texts collect text_of
  one_text n c c1 c2 v vs bs walked same later =
      rw (same, walked)
        (then_texts (decode bs) (collect (text_of decode) vs) c1 c2 (texts decode n) later)

  texts-Gives :
      (fuel t n : ℕ)
      → Gives
          (AllItems IsText t)
          (collect (text_of decode))
          (read_items (value fuel t) n)
          (texts decode n)
  unfolding read_items texts collect text_of
  texts-Gives fuel t zero c a c' h e p = settle (collect (text_of decode)) e (refl, h)
  texts-Gives fuel t (suc n) c a c' h e p =
      let ((v, c1), first, rest) = >>=-eq-ok (value fuel t c) _ e in
      let ((vs, c2), second, made) = >>=-eq-ok (read_items (value fuel t) n c1) _ rest in
      let (pv, pvs) : IsText t v × AllItems IsText t vs =
        subst (AllItems IsText t) (sym (gives_value made)) p in
      let (bs, same, walked, bytes1) = text_inside fuel t c v h first pv in
      let (later, bytes2) = texts-Gives fuel t n c1 _ _ bytes1 second pvs in
      settle (collect (text_of decode)) made (one_text n c c1 c2 v vs bs walked same later, bytes2)

  path_of-Gives :
      (fuel t : ℕ) (m : Meta Text)
      → Gives
          (IsList IsText)
          (λ v. (step_means decode) path_field v m)
          (value fuel t)
          (meta_step decode path_field fuel t m)
  unfolding meta_step step_means path_of
  path_of-Gives fuel t m c (list et vs) c' h e (plain, p) =
      let (n, c1, header, items, bytes1) = list_inside fuel t c et vs h plain e in
      let (walked, bytes2) = texts-Gives (pred fuel) et n c1 vs c' bytes1 items p in
      (
        rw (header, walked)
            (then_rest (collect (text_of decode) vs) c' c'
              (λ xs c. ok (record m { path = some xs }, c)) (λ xs. ok (record m { path = some xs }))
              (λ xs. refl)),
        bytes2,
      )
  path_of-Gives fuel t m c (bool b) c' h e p = absurd p
  path_of-Gives fuel t m c (int b) c' h e p = absurd p
  path_of-Gives fuel t m c (bytes b) c' h e p = absurd p
  path_of-Gives fuel t m c (struct b) c' h e p = absurd p

  meta_step-Walks :
      (f : MetaField) (fuel t : ℕ)
      → Walks (IsStep f t) ((step_means decode) f) (value fuel t) (meta_step decode f fuel t)
  unfolding meta_step step_means
  meta_step-Walks kind_field fuel t m =
      int_of-Gives (λ z. physical z >>= λ k. ok (record m { kind = some k })) fuel t _
        (λ c z c' walked. rw walked (
          then_rest (physical z) c' c' (λ k c. ok (record m { kind = some k }, c))
            (λ k. ok (record m { kind = some k })) (λ k. refl)))
  meta_step-Walks path_field fuel t m = path_of-Gives fuel t m
  meta_step-Walks offset_field fuel t m =
      int_of-Gives (λ z. ok (record m { offset = some z })) fuel t _
        (λ c z c' walked. rw walked refl)
  meta_step-Walks size_field fuel t m =
      int_of-Gives (λ z. ok (record m { size = some z })) fuel t _ (λ c z c' walked. rw walked refl)
  meta_step-Walks other_field fuel t m = pass_by-Walks fuel t m

  as_filter-named : (m : Meta Text) → as_filter decode m ≡ (filter_of decode) m
  unfolding as_filter
  as_filter-named m = go m.path m.kind
    where
      go :
          (p : Option (List Text)) (k : Option Physical)
          → as_filter decode (record m { path = p; kind = k })
            ≡ (filter_of decode) (record m { path = p; kind = k })
      go (some p) (some k) = refl
      go (some p) none = refl
      go none k = refl

  -- The tests on the id lead to the step that the id means.
  Leads : ℤ → ℕ → Value → Meta Text → MetaField → Type 0
  Leads fid t v m f =
      (IsMeta fid t v → IsStep f t v) × ((meta_means decode) fid v m ≡ (step_means decode) f v m)

  meta_field_of-Leads :
      (fid : ℤ) (t : ℕ) (v : Value) (m : Meta Text) → Leads fid t v m (meta_field_of fid)
  unfolding meta_field_of Leads meta_means step_means
  meta_field_of-Leads fid t v m = elim (Bool-cases (eqb_ℤ fid (pos 1))) [
    | inl one ↦
        let not_three : eqb_ℤ fid (pos 3) ≡ false = ground arith in
        rw (not_three, one) (λ p. p, refl)
    | inr not_one ↦ elim (Bool-cases (eqb_ℤ fid (pos 3))) [
      | inl three ↦ rw (not_one, three) (λ p. p, refl)
      | inr not_three ↦ elim (Bool-cases (eqb_ℤ fid (pos 14))) [
        | inl fourteen ↦ rw (not_one, not_three, fourteen) (λ p. p, refl)
        | inr not_fourteen ↦ elim (Bool-cases (eqb_ℤ fid (pos 15))) [
          | inl fifteen ↦ rw (not_one, not_three, not_fourteen, fifteen) (λ p. p, refl)
          | inr not_fifteen ↦ rw (not_one, not_three, not_fourteen, not_fifteen) (λ p. p, refl)
        ]
      ]
    ]
  ]

  meta_each-Walks :
      (fuel : ℕ) (fid : ℤ) (t : ℕ)
      → Walks (IsMeta fid t) ((meta_means decode) fid) (value fuel t) (meta_each decode fuel fid t)
  unfolding meta_each Leads
  meta_each-Walks fuel fid t m c v c' h e p =
      let (good, same) = meta_field_of-Leads fid t v m in
      rw same (meta_step-Walks (meta_field_of fid) fuel t m c v c' h e (good p))

  chunk_filter-Gives :
      (fuel t : ℕ)
      → Gives IsFilterChunk
          (λ v. (chunk_means decode) v (no_meta decode) >>= (filter_of decode))
          (value fuel t)
          (chunk_filter decode (pred fuel))
  unfolding chunk_filter chunk_meta meta_each
  chunk_filter-Gives fuel t c v c' h e p =
      let (walked, bytes') =
        over_fields-Walks fuel t _ (at_field (pos 3) (of_struct (λ fid t. (meta_means decode) fid)))
          (AtField (pos 3) (IsStruct IsMeta))
          (enter_at-Walks (pos 3) (pred fuel) _ _ (of_struct (λ fid t. (meta_means decode) fid))
            (λ t.
              over_fields-Walks (pred fuel) t _ (λ fid t. (meta_means decode) fid) IsMeta
                (meta_each-Walks (pred (pred fuel)))))
          (no_meta decode) c v c' h e p in
      (
        rw walked (
            then_rest ((chunk_means decode) v (no_meta decode)) c' c'
              (λ m. lift (as_filter decode m)) (filter_of decode)
              (λ m. rw (as_filter-named m) refl)),
        bytes',
      )

-- Where the full reader yields a footer's value from bytes, no list of booleans is passed by, and the fields that
-- are looked at have the types of the Parquet format, footer_filters gives the path, type, offset and length of
-- each chunk as the value holds them, in order, and ends where the reader ends; or it raises the exception that
-- the first chunk to lack a path or a type, or to have a type or a path that is none, raises.
pub footer_filters-agrees :
    {Text : Type 0} (decode : Bytes → Result Text) (fuel t : ℕ) (c : Cursor) (v : Value)
    (c' : Cursor)
    → IsBytes c
    → value (suc fuel) t c ≡ ok (v, c')
    → IsFooter IsFilterChunk v
    → footer_filters decode fuel c ≡ ends (filters_in decode v) c'
unfolding footer_filters filters_in
footer_filters-agrees decode fuel t c v c' h e p =
    (footer_groups-Gives (chunk_filter decode) _ IsFilterChunk (chunk_filter-Gives decode)
      (suc fuel) t c v c' h e p).0
