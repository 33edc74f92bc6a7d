-- ===== src/Walker/Footer/Bounds.antt =====
-- footer_stats finds what the footer's value holds.
use zpq.Common.{
  arith, ◌≢◌, refl, inl, inr, sym, ◌∙◌, Bool, true, false, Option, some, none, ◌||◌, ℕ, suc, pred,
  ◌≡◌, ap, subst, List, [],
}
use zpq.Common.Int.{ℤ, pos, eqb_ℤ}
use zpq.Common.Tests.{◌==◌, if◌then◌else◌, Bool-cases}
use zpq.Common.Result.{Result, ok}
use zpq.Thrift.Value.{Value, bool, t_true, kind_of, bool_kind}
use zpq.Thrift.Cursor.{Cursor, Read}
use zpq.Thrift.Reader.{value}
use zpq.Walker.Agreement.{IsBytes, NoFlags}
use zpq.Walker.Footer.{
  pass_by, Stats, no_stats, StatField, max_flag, min_flag, max_bound, min_bound, other_field,
  stat_field_of, set_stat, after_stat, stat_each, meta_stats, chunk_stats, group_chunks,
  footer_groups, footer_stats,
}
use zpq.Walker.Footer.Inside.{flag_inside}
use zpq.Walker.Footer.Meaning.{of_struct, of_list, at_field, IsStruct, IsList, AtField}
use zpq.Walker.Footer.Follows.{
  Walks, Gives, ends, enter_at-Walks, over_fields-Walks, append_each-Walks, pass_by-Walks,
}

-- The footer's groups, by what a chunk means.
module _ {A : Type 0} (chunk : Value → Result A) where
  unfoldable pub group_of : Value → Result (List A)
  group_of v = of_struct (at_field (pos 1) (of_list chunk)) v []

  unfoldable pub footer_of : Value → Result (List (List A))
  unfolding group_of
  footer_of v = of_struct (at_field (pos 4) (of_list group_of)) v []

-- Field 1 is a list of structs, chunks as `Good` says.
abbrev pub IsGroup : (Value → Type 0) → Value → Type 0
IsGroup Good = IsStruct (AtField (pos 1) (IsList (λ t. Good)))

-- Field 4 is a list of structs, of which each has in its field 1 a list of structs, chunks as `Good` says.
abbrev pub IsFooter : (Value → Type 0) → Value → Type 0
IsFooter Good = IsStruct (AtField (pos 4) (IsList (λ t. IsGroup Good)))

-- What is read of a chunk is what the chunk means: then so it is of the whole footer.
module _ {A : Type 0} (chunk : ℕ → Read A) (m : Value → Result A) (Good : Value → Type 0)
    (gives : (fuel t : ℕ) → Gives Good m (value fuel t) (chunk (pred fuel))) where
  group_chunks-Gives :
      (fuel t : ℕ)
      → Gives (IsGroup Good) (group_of m) (value fuel t) (group_chunks chunk (pred fuel))
  unfolding group_chunks group_of
  group_chunks-Gives fuel t =
      over_fields-Walks fuel t _ (at_field (pos 1) (of_list m))
        (AtField (pos 1) (IsList (λ t. Good)))
        (enter_at-Walks (pos 1) (pred fuel) _ (IsList (λ t. Good)) (of_list m)
          (λ t. append_each-Walks (pred fuel) t m (λ t. Good) _ (gives (pred (pred fuel)))))
        []

  pub footer_groups-Gives :
      (fuel t : ℕ)
      → Gives (IsFooter Good) (footer_of m) (value fuel t) (footer_groups chunk (pred fuel))
  unfolding footer_groups footer_of
  footer_groups-Gives fuel t =
      over_fields-Walks fuel t _ (at_field (pos 4) (of_list (group_of m)))
        (AtField (pos 4) (IsList (λ t. IsGroup Good)))
        (enter_at-Walks (pos 4) (pred fuel) _ (IsList (λ t. IsGroup Good)) (of_list (group_of m))
          (λ t.
            append_each-Walks (pred fuel) t (group_of m) (λ t. IsGroup Good) _
              (group_chunks-Gives (pred (pred fuel)))))
        []

-- A flag's value.
abbrev flag : Value → Option Bool
flag (bool b) = some b
flag v = none

-- What is known with one more field of a Statistics: which bounds are there, and the last flags.
unfoldable pub with_stat : ℤ → Value → Stats → Stats
with_stat fid v st = record {
  has_min = eqb_ℤ fid (pos 6) || st.has_min;
  has_max = eqb_ℤ fid (pos 5) || st.has_max;
  min_exact = if eqb_ℤ fid (pos 8) then flag v else st.min_exact;
  max_exact = if eqb_ℤ fid (pos 7) then flag v else st.max_exact;
}

abbrev pub stat_means : ℤ → ℕ → Value → Stats → Result Stats
stat_means fid t v st = ok (with_stat fid v st)

abbrev pub chunk_means : Value → Stats → Result Stats
chunk_means = of_struct (at_field (pos 3) (of_struct (at_field (pos 12) (of_struct stat_means))))

-- The two exactness fields, 7 and 8, are flags, and no other field holds a list of flags.
abbrev pub IsStat : ℤ → ℕ → Value → Type 0
IsStat fid t v = if eqb_ℤ fid (pos 7) || eqb_ℤ fid (pos 8) then kind_of t ≡ bool_kind else NoFlags v

abbrev pub IsChunk : Value → Type 0
IsChunk = IsStruct (AtField (pos 3) (IsStruct (AtField (pos 12) (IsStruct IsStat))))

-- The field is one of the four that count, or it changes nothing.
set_stat-bounds :
    (fid : ℤ) (v : Value) (t : ℕ) (st : Stats)
    → eqb_ℤ fid (pos 7) ≡ false
    → eqb_ℤ fid (pos 8) ≡ false
    → set_stat (stat_field_of fid) t st ≡ with_stat fid v st
unfolding set_stat stat_field_of with_stat
set_stat-bounds fid v t st not_max not_min = ground arith

flag_step :
    (fid : ℤ) (f : StatField) (fuel t : ℕ) (st : Stats) (c : Cursor) (v : Value) (c' : Cursor)
    → kind_of t ≡ bool_kind
    → stat_field_of fid ≡ f
    → (v ≡ bool (t == t_true) → set_stat f t st ≡ with_stat fid v st)
    → ((st : Stats) → after_stat f fuel t st c ≡ ok (st, c))
    → IsBytes c
    → value fuel t c ≡ ok (v, c')
    → (stat_each fuel fid t st c ≡ ok (with_stat fid v st, c')) × IsBytes c'
unfolding stat_each
flag_step fid f fuel t st c v c' k is_f sets stays h e =
    let (same, seen) = flag_inside fuel t c k e in
    (
      rw (is_f, sets seen) (stays (with_stat fid v st) ∙ ap (λ c. ok (with_stat fid v st, c)) same),
      subst IsBytes same h,
    )

module _ (fid : ℤ) (t : ℕ) (st : Stats) where
  is_max : eqb_ℤ fid (pos 7) ≡ true → stat_field_of fid ≡ max_flag
  unfolding stat_field_of
  is_max seven = ground arith

  is_min : eqb_ℤ fid (pos 8) ≡ true → stat_field_of fid ≡ min_flag
  unfolding stat_field_of
  is_min eight = ground arith

  set_stat-max :
      eqb_ℤ fid (pos 7) ≡ true → set_stat max_flag t st ≡ with_stat fid (bool (t == t_true)) st
  unfolding set_stat with_stat
  set_stat-max seven = ground arith

  set_stat-min :
      eqb_ℤ fid (pos 8) ≡ true → set_stat min_flag t st ≡ with_stat fid (bool (t == t_true)) st
  unfolding set_stat with_stat
  set_stat-min eight = ground arith

-- A field that is passed by.
after_stat-passes :
    (f : StatField) (fuel t : ℕ) (c c' : Cursor) (st : Stats)
    → f ≢ max_flag
    → f ≢ min_flag
    → pass_by fuel t st c ≡ ok (st, c')
    → after_stat f fuel t st c ≡ ok (st, c')
unfolding after_stat
after_stat-passes max_flag fuel t c c' st not_max not_min h = absurd (not_max refl)
after_stat-passes min_flag fuel t c c' st not_max not_min h = absurd (not_min refl)
after_stat-passes max_bound fuel t c c' st not_max not_min h = h
after_stat-passes min_bound fuel t c c' st not_max not_min h = h
after_stat-passes other_field fuel t c c' st not_max not_min h = h

no_flag :
    (fid : ℤ)
    → eqb_ℤ fid (pos 7) ≡ false
    → eqb_ℤ fid (pos 8) ≡ false
    → (stat_field_of fid ≢ max_flag) × (stat_field_of fid ≢ min_flag)
unfolding stat_field_of
no_flag fid not_max not_min = (ground arith, ground arith)

stat_each-Walks :
    (fuel : ℕ) (fid : ℤ) (t : ℕ)
    → Walks (IsStat fid t) (stat_means fid t) (value fuel t) (stat_each fuel fid t)
unfolding stat_each after_stat
stat_each-Walks fuel fid t st c v c' h e p = elim (Bool-cases (eqb_ℤ fid (pos 7))) [
  | inl seven ↦
      flag_step fid max_flag fuel t st c v c' (rw seven at p) (is_max fid t st seven)
        (λ seen. set_stat-max fid t st seven ∙ ap (λ v. with_stat fid v st) (sym seen)) (λ st. refl)
        h e
  | inr not_seven ↦ elim (Bool-cases (eqb_ℤ fid (pos 8))) [
    | inl eight ↦
        flag_step fid min_flag fuel t st c v c' (rw (not_seven, eight) at p) (is_min fid t st eight)
          (λ seen. set_stat-min fid t st eight ∙ ap (λ v. with_stat fid v st) (sym seen))
          (λ st. refl) h e
    | inr not_eight ↦
        let (not_max, not_min) = no_flag fid not_seven not_eight in
        let (passed, bytes') =
          pass_by-Walks fuel t (with_stat fid v st) c v c' h e (rw (not_seven, not_eight) at p) in
        (
          rw (set_stat-bounds fid v t st not_seven not_eight) (
              after_stat-passes (stat_field_of fid) fuel t c c' (with_stat fid v st) not_max not_min
                passed),
          bytes',
        )
  ]
]

chunk_stats-Walks :
    (fuel t : ℕ) → Walks IsChunk chunk_means (value fuel t) (chunk_stats (pred fuel))
unfolding chunk_stats meta_stats
chunk_stats-Walks fuel t =
    let a : ℕ = pred fuel in
    over_fields-Walks fuel t _ (at_field (pos 3) _) (AtField (pos 3) _) (
      enter_at-Walks (pos 3) a _ _ _ (λ t.
        over_fields-Walks a t _ (at_field (pos 12) _) (AtField (pos 12) _) (
          enter_at-Walks (pos 12) (pred a) _ _ _ (λ t.
            over_fields-Walks (pred a) t _ stat_means IsStat (stat_each-Walks (pred (pred a)))))))

-- The Statistics fields that a footer's value sets, per row group and column.
abbrev pub stats_in : Value → Result (List (List Stats))
stats_in = footer_of (λ v. chunk_means v no_stats)

-- Where the full reader yields a footer's value from bytes, and no list of booleans is passed by, footer_stats
-- ends where the reader ends, with the Statistics fields that the value holds, per row group and column in order.
pub footer_stats-agrees :
    (fuel t : ℕ) (c : Cursor) (v : Value) (c' : Cursor)
    → IsBytes c
    → value (suc fuel) t c ≡ ok (v, c')
    → IsFooter IsChunk v
    → footer_stats fuel c ≡ ends (stats_in v) c'
unfolding footer_stats
footer_stats-agrees fuel t c v c' h e p =
    (footer_groups-Gives (λ f. chunk_stats f no_stats) (λ v. chunk_means v no_stats) IsChunk
      (λ fuel t. chunk_stats-Walks fuel t no_stats) (suc fuel) t c v c' h e p).0
