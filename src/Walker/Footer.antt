-- ===== src/Walker/Footer.antt =====
-- tools/check/readback.py: footer_stats and footer_filters, which walk a footer for the members they look for and
-- skip the rest. As in Reader.value the fuel bounds the nesting: what is nested in a struct has one less.
mod Inside
pub mod Meaning
pub mod Follows
pub mod Bounds
pub mod Bloom
pub mod Chunks
pub mod Filters
use zpq.Common.{
  ℕ, zero, suc, pred, ◌+◌, ◌-◌, ◌/◌, ◌^◌, Bool, true, false, ◌||◌, Option, none, some, List, [],
  ◌∷◌, ◌++◌, bit_and,
}
use zpq.Common.Tests.{ltb, leb, ◌==◌, if◌then◌else◌}
use zpq.Common.Lists.{length, get_elem?}
use zpq.Common.Int.{ℤ, pos, negsuc, eqb_ℤ}
use zpq.Common.Result.{Result, ok, raised, out_of_fuel, key_error, index_error}
use zpq.Thrift.Value.{Bytes}
use zpq.Thrift.Cursor.{Cursor, Read, pure, fail, ◌>>=◌, ◌>>◌, byte}
use zpq.Walker.{walk_zigzag, walk_binary, list_header, walk_id, skip}

module _ {S : Type 0} where
  -- for fid, t in r.fields(): …, from a field on; `each` is the body, of what has been found so far.
  unfoldable pub walk_fields : (ℤ → ℕ → S → Read S) → ℕ → ℤ → S → Read S
  unfolding walk_id
  walk_fields each zero last s = λ c. out_of_fuel
  walk_fields each (suc rounds) last s = do
    h ← byte
    if h == 0 then pure s else do
      fid ← walk_id last (h / 2 ^ 4)
      s' ← each fid (bit_and h 0xf) s
      walk_fields each rounds fid s'

  -- Each round takes a byte at least, so that a byte more than are left is fuel enough.
  unfoldable pub over_fields : (ℤ → ℕ → S → Read S) → S → Read S
  unfolding walk_fields
  over_fields each s c = walk_fields each (suc (length c.unread)) (pos 0) s c

  -- for _ in range(n): …
  unfoldable pub walk_items : (S → Read S) → ℕ → S → Read S
  walk_items each zero s = pure s
  walk_items each (suc n) s = do s' ← each s; walk_items each n s'

  -- r.skip(t); continue
  unfoldable pub pass_by : ℕ → ℕ → S → Read S
  unfolding skip
  pass_by fuel t s = do skip fuel t; pure s

-- The Statistics fields that a chunk sets.
pub record Stats : Type 0 where
  pub has_min : Bool
  pub has_max : Bool
  pub min_exact : Option Bool
  pub max_exact : Option Bool

abbrev pub no_stats : Stats
no_stats = record { has_min = false; has_max = false; min_exact = none; max_exact = none }

-- The tests of footer_stats on a field's id, as what is to be done.
pub data StatField : Type 0 where
  max_flag min_flag max_bound min_bound other_field : StatField

unfoldable pub stat_field_of : ℤ → StatField
stat_field_of fid =
    if eqb_ℤ fid (pos 7)
    then max_flag
    else if eqb_ℤ fid (pos 8)
    then min_flag
    else if eqb_ℤ fid (pos 5)
    then max_bound
    else if eqb_ℤ fid (pos 6)
    then min_bound
    else other_field

-- What a field of the Statistics sets, by its tag.
unfoldable pub set_stat : StatField → ℕ → Stats → Stats
set_stat max_flag t st = record st { max_exact = some (t == 1) }
set_stat min_flag t st = record st { min_exact = some (t == 1) }
set_stat max_bound t st = record st { has_max = true }
set_stat min_bound t st = record st { has_min = true }
set_stat other_field t st = st

-- A flag is in its tag, and nothing follows it.
unfoldable pub after_stat : StatField → ℕ → ℕ → Stats → Read Stats
unfolding pass_by
after_stat max_flag fuel t st = pure st
after_stat min_flag fuel t st = pure st
after_stat max_bound fuel t st = pass_by fuel t st
after_stat min_bound fuel t st = pass_by fuel t st
after_stat other_field fuel t st = pass_by fuel t st

unfoldable pub stat_each : ℕ → ℤ → ℕ → Stats → Read Stats
unfolding stat_field_of set_stat after_stat
stat_each fuel fid t st = after_stat (stat_field_of fid) fuel t (set_stat (stat_field_of fid) t st)

-- A struct's fields, of which one is entered and the others are passed by.
unfoldable pub enter_at : {S : Type 0} → ℤ → (S → Read S) → ℕ → ℤ → ℕ → S → Read S
unfolding pass_by
enter_at at inside fuel fid t s = if eqb_ℤ fid at then inside s else pass_by fuel t s

-- ColumnMetaData: its Statistics.
unfoldable pub meta_stats : ℕ → Stats → Read Stats
unfolding over_fields enter_at stat_each
meta_stats fuel = over_fields (enter_at (pos 12) (over_fields (stat_each (pred fuel))) fuel)

-- ColumnChunk: its ColumnMetaData.
unfoldable pub chunk_stats : ℕ → Stats → Read Stats
unfolding over_fields enter_at meta_stats
chunk_stats fuel = over_fields (enter_at (pos 3) (meta_stats (pred fuel)) fuel)

-- A list of which each item is read from a fresh start and put behind the others.
unfoldable pub append_each : {A : Type 0} → Read A → List A → Read (List A)
unfolding list_header walk_items
append_each read found = do
  (n, et) ← list_header
  walk_items (λ xs. do x ← read; pure (xs ++ (x ∷ []))) n found

-- The chunks of a row group, by what is read of a chunk.
unfoldable pub group_chunks : {A : Type 0} → (ℕ → Read A) → ℕ → Read (List A)
unfolding over_fields enter_at append_each
group_chunks chunk fuel =
    over_fields (enter_at (pos 1) (append_each (chunk (pred (pred fuel)))) fuel) []

-- The row groups of a footer.
unfoldable pub footer_groups : {A : Type 0} → (ℕ → Read A) → ℕ → Read (List (List A))
unfolding over_fields enter_at append_each group_chunks
footer_groups chunk fuel =
    over_fields (enter_at (pos 4) (append_each (group_chunks chunk (pred (pred fuel)))) fuel) []

-- footer_stats, from the footer's first byte on
unfoldable pub footer_stats : ℕ → Read (List (List Stats))
unfolding footer_groups chunk_stats
footer_stats = footer_groups (λ fuel. chunk_stats fuel no_stats)
