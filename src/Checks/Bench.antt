-- ===== src/Checks/Bench.antt =====
-- bench/stalls.py and bench/score.py: a lane of one case.
use zpq.Common.{ℕ, ◌*◌, ◌≤◌, max, ◌≡◌, ◌↔◌, refl, true, false, none, some, List, [], ◌∷◌}
use zpq.Common.Lists.{length}
use zpq.Bench.Names.{elem}
use zpq.Bench.Stalls.{
  Record, Item, ok_status, disturbed_status, reasons, evidence, last_round, quarantine,
}
use zpq.Bench.Stalls.Laws.{quarantine_iff}
use zpq.Bench.Score.{
  Table, measured, rivals, median_of, ship_bar, is_met, table_of, names_of, complete, verdict,
}
use zpq.Bench.Score.Laws.{count, counted, trails, faster, is_met-promises}
use zpq.Bench.Score.Verdicts.{verdict-complete}
use mathlib.Core.List.{Memᴰ}
use Prim.Native.String.{String}

abbrev timed_rep : String → ℕ → Record
timed_rep engine t = record {
  case_id = "c";
  engine = engine;
  rep = 1;
  round = 0;
  status = ok_status;
  elapsed_ns = some t;
  read_bytes = 0;
  host = none;
  scope = none;
}

abbrev lane_records : List Record
lane_records = timed_rep "zpq" 10 ∷ timed_rep "duckdb20" 20 ∷ timed_rep "polars" 30 ∷ []

abbrev lane_table : Table
lane_table =
    (
      "c",
      ("zpq", measured 20 10 10)
          ∷ ("duckdb20", measured 40 20 20)
          ∷ ("polars", measured 60 30 30)
          ∷ [],
    )
    ∷ []

lane_table_made : table_of 1 lane_records ≡ lane_table
unfolding table_of
lane_table_made = refl

lane_met : is_met 1 (ship_bar lane_table ("c" ∷ []) []) ≡ true
unfolding is_met ship_bar
lane_met = refl

is_met-promises_example :
    (5 * count (counted lane_table [] (trails lane_table (faster lane_table))) ("c" ∷ []) ≤ 1)
    × ((c : String)
        → Memᴰ c ("c" ∷ [])
        → elem c [] ≡ false
        → (z : ℕ) × (median_of lane_table c "zpq" ≡ some z)
          × ((r : String) (t : ℕ)
              → Memᴰ r rivals
              → median_of lane_table c r ≡ some t
              → 2 * z ≤ 3 * t))
is_met-promises_example = is_met-promises lane_table [] ("c" ∷ []) lane_met

lane_complete : verdict true false 1 lane_records ("c" ∷ []) 2 ≡ complete
unfolding verdict
lane_complete = refl

verdict-complete_example :
    (true ≡ true)
    × (false ≡ false)
    × ((c : String) → Memᴰ c ("c" ∷ []) → Memᴰ c (names_of (table_of 1 lane_records)))
    × (50 * length (quarantine lane_records 2) ≤ max 1 1)
    × ((c : String) (items : List Item)
        → Memᴰ (c, items) (evidence lane_records (last_round lane_records c))
        → 2 ≤ last_round lane_records c)
verdict-complete_example = verdict-complete true false 1 lane_records ("c" ∷ []) 2 lane_complete

-- A repetition that was disturbed in the third round.
abbrev disturbed_records : List Record
disturbed_records =
    (record (timed_rep "zpq" 10) { round = 2; status = disturbed_status }) ∷ lane_records

one_quarantined : quarantine disturbed_records 2 ≡ ("c", ("zpq", 1, reasons) ∷ []) ∷ []
unfolding quarantine
one_quarantined = refl

quarantine_iff_example : Memᴰ ("c", ("zpq", 1, reasons) ∷ []) (quarantine disturbed_records 2) ↔ (
    Memᴰ
      ("c", ("zpq", 1, reasons) ∷ [])
      (evidence disturbed_records (last_round disturbed_records "c"))
    × (2 ≤ last_round disturbed_records "c"))
quarantine_iff_example = quarantine_iff disturbed_records 2 "c" (("zpq", 1, reasons) ∷ [])
