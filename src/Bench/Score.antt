-- ===== src/Bench/Score.antt =====
-- bench/score.py: a lane's cells, the ship bar and the verdict. A median is kept twofold, so that it is a
-- whole number; ratios are compared exactly, as the floats do for times below 2^50 ns.
pub mod Laws
pub mod Verdicts
use zpq.Common.{
  ℕ, zero, suc, ◌+◌, ◌-◌, ◌*◌, ◌/◌, ◌%◌, min, max, Bool, true, false, not, ◌&&◌, ◌||◌, Option, none,
  some, List, [], ◌∷◌, ◌++◌, map,
}
use zpq.Common.Tests.{ltb, leb, ◌==◌, if◌then◌else◌}
use zpq.Common.Lists.{length, get_elem?}
use zpq.Bench.Names.{elem, filter, keys, is_nil}
use zpq.Bench.Stalls.{
  Record, Status, ok_status, failed, wrong, timeout, disturbed_status, Evidence, timed, of_case,
  of_engine, last_round, disturbed_last, quarantine,
}
use Prim.Native.String.{String}
use text.Mathlib.Text.{◌==◌ as str_eq, is_le}
use Prim.Native.String.{compare}

abbrev pub rivals : List String
rivals = "duckdb20" ∷ "polars" ∷ []

-- An engine's result on a case.
pub data Cell : Type 0 where
  failed_cell : Status → Cell
  measured : (median_twofold min_ns max_ns : ℕ) → Cell
  incomplete : (checked : ℕ) → Cell

abbrev pub is_bad : Status → Bool
is_bad failed = true
is_bad wrong = true
is_bad timeout = true
is_bad _ = false

unfoldable pub insert_time : ℕ → List ℕ → List ℕ
insert_time t [] = t ∷ []
insert_time t (u ∷ us) = let rest = insert_time t us in if leb t u then t ∷ u ∷ us else u ∷ rest

unfoldable pub sort_times : List ℕ → List ℕ
unfolding insert_time
sort_times [] = []
sort_times (t ∷ ts) = insert_time t (sort_times ts)

abbrev pub or_zero : Option ℕ → ℕ
or_zero none = 0
or_zero (some n) = n

-- Twice statistics.median; it is used of a list with a time at least.
unfoldable pub median_twofold : List ℕ → ℕ
unfolding sort_times
median_twofold ts =
    let sorted = sort_times ts in
    let half = length ts / 2 in
    let upper = or_zero (get_elem? sorted half) in
    if length ts % 2 == 1 then 2 * upper else or_zero (get_elem? sorted (half - 1)) + upper

unfoldable pub least : List ℕ → ℕ
least [] = 0
least (t ∷ []) = t
least (t ∷ u ∷ us) = min t (least (u ∷ us))

unfoldable pub greatest : List ℕ → ℕ
greatest [] = 0
greatest (t ∷ ts) = max t (greatest ts)

-- cells: the cell of one engine on one case. An `ok` repetition has a time.
unfoldable pub cell_of : ℕ → List Record → Cell
unfolding timed median_twofold least greatest
cell_of reps rs = elim (filter (λ (r : Record). is_bad r.status) rs) [
  | bad ∷ _ ↦ failed_cell bad.status
  | [] ↦
      let times = map (λ (_, t). t) (timed rs) in
      if length times == reps
      then measured (median_twofold times) (least times) (greatest times)
      else incomplete (length times)
]

abbrev pub Cells : Type 0
Cells = List (String × Cell)

abbrev pub Table : Type 0
Table = List (String × Cells)

unfoldable pub cells_of : ℕ → List Record → List String → Cells
unfolding cell_of
cells_of reps rs = map λ e. (e, cell_of reps (filter (of_engine e) rs))

-- The timed records of the last round of each case.
unfoldable pub scored : List Record → List Record
unfolding last_round
scored records = filter (λ r. (r.round == last_round records r.case_id) && leb 1 r.rep) records

unfoldable pub rows_of : ℕ → List Record → List String → Table
unfolding cells_of keys
rows_of reps rs =
    map λ c. (c, cells_of reps (filter (of_case c) rs) (keys Record.engine (filter (of_case c) rs)))

unfoldable pub table_of : ℕ → List Record → Table
unfolding scored rows_of keys
table_of reps records = rows_of reps (scored records) (keys Record.case_id (scored records))

abbrev pub names_of {ℓ} : {A : Type ℓ} → List (String × A) → List String
names_of = map λ (c, _). c

-- sorted(…) of names
unfoldable pub insert_name : String → List String → List String
insert_name x [] = x ∷ []
insert_name x (y ∷ ys) =
    let rest = insert_name x ys in if is_le (compare x y) then x ∷ y ∷ ys else y ∷ rest

unfoldable pub sort_names : List String → List String
unfolding insert_name
sort_names [] = []
sort_names (x ∷ xs) = insert_name x (sort_names xs)

-- cells: the cases that are still disturbed and not quarantined.
unfoldable pub pending : List Record → ℕ → List String
unfolding disturbed_last quarantine sort_names
pending records max_round =
    sort_names (
      filter (λ c. not (elem c (names_of (quarantine records max_round)))) (disturbed_last records))

-- table.get(case, {}).get(engine, {})
unfoldable pub at_name {ℓ} : {A : Type ℓ} → String → List (String × A) → Option A
at_name name [] = none
at_name name ((n, v) ∷ rest) = if str_eq n name then some v else at_name name rest

unfoldable pub median_of : Table → String → String → Option ℕ
unfolding at_name
median_of table c engine = elim (at_name c table) [
  | none ↦ none
  | some row ↦ elim (at_name engine row) [
    | none ↦ none
    | some cell ↦ elim cell [ measured m _ _ ↦ some m | failed_cell _ ↦ none | incomplete _ ↦ none ]
  ]
]

-- ship_bar: what its loop counts. A ratio is the pair of its terms.
pub record Bar : Type 0 where
  pub beats : List ℕ
  pub behind : ℕ
  pub over : ℕ
  pub ratios : List (ℕ × ℕ × String)
  pub zpq_failed : List String

-- beats[r] += r not in times or z["median_ns"] < times[r]
abbrev pub is_beaten : ℕ → Option ℕ → Bool
is_beaten z none = true
is_beaten z (some t) = ltb z t

unfoldable pub count_beats : Table → String → ℕ → List String → List ℕ → List ℕ
unfolding median_of
count_beats table c z [] beats = beats
count_beats table c z (r ∷ rs) [] = []
count_beats table c z (r ∷ rs) (b ∷ beats) =
    let rest = count_beats table c z rs beats in
    (if is_beaten z (median_of table c r) then suc b else b) ∷ rest

-- min(times.values()), if there is one
unfoldable pub best_rival : Table → String → List String → Option ℕ
unfolding median_of
best_rival table c [] = none
best_rival table c (r ∷ rs) =
    let rest = best_rival table c rs in
    elim (median_of table c r) [
      | none ↦ rest
      | some t ↦ some (elim rest [ none ↦ t | some u ↦ min t u ])
    ]

abbrev pub one_if : Bool → ℕ
one_if true = 1
one_if false = 0

unfoldable pub bar_step : Table → List String → Bar → String → Bar
unfolding median_of count_beats best_rival
bar_step table quarantined b c = if elem c quarantined then b else elim (median_of table c "zpq") [
  | none ↦ record b {
    zpq_failed = b.zpq_failed ++ c ∷ [];
    behind = suc b.behind;
    over = suc b.over;
  }
  | some z ↦
      let counted = record b { beats = count_beats table c z rivals b.beats } in
      elim (best_rival table c rivals) [
        | none ↦ counted
        | some best ↦ record counted {
          ratios = b.ratios ++ (z, best, c) ∷ [];
          behind = b.behind + one_if (ltb best z);
          over = b.over + one_if (ltb (3 * best) (2 * z));
        }
      ]
]

unfoldable pub bar_loop : Table → List String → Bar → List String → Bar
unfolding bar_step
bar_loop table quarantined b [] = b
bar_loop table quarantined b (c ∷ planned) =
    bar_loop table quarantined (bar_step table quarantined b c) planned

abbrev pub no_bar : Bar
no_bar = record { beats = map (λ r. 0) rivals; behind = 0; over = 0; ratios = []; zpq_failed = [] }

unfoldable pub ship_bar : Table → List String → List String → Bar
unfolding bar_loop
ship_bar table planned quarantined = bar_loop table quarantined no_bar planned

unfoldable pub all_above : ℕ → List ℕ → Bool
all_above n [] = true
all_above n (b ∷ beats) = ltb n (2 * b) && all_above n beats

-- met
unfoldable pub is_met : ℕ → Bar → Bool
unfolding all_above
is_met n bar = all_above n bar.beats && leb (5 * bar.behind) n && (bar.over == 0)

pub data Verdict : Type 0 where
  incomplete_lane uncertified complete : Verdict

unfoldable pub missing : Table → List String → List String
unfolding sort_names
missing table planned = sort_names (filter (λ c. not (elem c (names_of table))) planned)

-- score: the verdict. More than 2% quarantined is more than one in fifty.
unfoldable pub verdict :
    (psi smoke : Bool) → (reps : ℕ) → List Record → List String → (max_round : ℕ) → Verdict
unfolding table_of pending quarantine missing
verdict psi smoke reps records planned max_round =
    if not (is_nil (missing (table_of reps records) planned))
      || not (is_nil (pending records max_round))
      || ltb (max 1 (length planned)) (50 * length (quarantine records max_round))
    then incomplete_lane
    else if not psi || smoke
    then uncertified
    else complete
