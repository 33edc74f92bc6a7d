-- ===== src/Bench/Quick/Recovery.antt =====
-- bench/quick.py: recover, the report of a run whose worker is gone, and how supervise ends.
use zpq.Common.{
  ℕ, ◌≤◌, ◌≡◌, ◌≢◌, refl, sym, ap, subst, ◌∙◌, Bool, true, false, ◌&&◌, Option, none, some, List,
  [], ◌∷◌, map, inl, inr, arith,
}
use zpq.Common.Tests.{◌==◌, if◌then◌else◌, Bool-cases}
use zpq.Common.Lists.{All, length}
use zpq.Bench.Names.{filter}
use zpq.Bench.Quick.{Engine, Case, Row}
use zpq.Bench.Quick.Worker.{State, incomplete}
use zpq.Bench.Quick.Report.{
  selected, EngineCell, of_cell, engine_cell, Cell, cell_for, cells_for, any_flagged, coverage,
  verdict, not_applicable, pass, other, any_pair, merge_gate, report,
}

-- The rows of a journal up to a line that is no JSON.
unfoldable pub read_journal : List (Option Row) → List Row
read_journal [] = []
read_journal (none ∷ lines) = []
read_journal (some r ∷ lines) = r ∷ read_journal lines

-- recover
unfoldable pub recover : List Case → (reps noise : ℕ) → List (Option Row) → List Cell × State
unfolding report read_journal
recover cases reps noise journal =
    report cases reps noise
      (record { attempts = read_journal journal; hash_complete = false; state = incomplete })

-- The worker's process: it ends with a status, or runs into the deadline.
pub data Child : Type 0 where
  exited : ℕ → Child
  late : Child

-- supervise: the exit status and the report that is left, by the child and the report that it left.
unfoldable pub supervise :
    Child
    → (own : Option (List Cell × State)) → (recovered : List Cell × State) → ℕ × (List Cell × State)
supervise (exited code) (some own) recovered = (code, own)
supervise (exited code) none recovered = (2, recovered)
supervise late own recovered = (2, recovered)

filter-none :
    {A : Type 0} (test : A → Bool) (xs : List A) → ((a : A) → test a ≡ false) → filter test xs ≡ []
filter-none test [] h = refl
filter-none test (x ∷ xs) h = rw (h x) (filter-none test xs h)

-- An engine's cell without a timing.
abbrev pub Untimed : EngineCell → Type 0
Untimed e = (e.n ≡ 0) × (e.is_complete ≡ false)

unselected : (c : Case) (rows : List Row) (r : Row) → selected c r rows false ≡ false
unfolding selected
unselected c rows r = refl

engine_cell-Untimed :
    (c : Case) (rows : List Row) (reps : ℕ) (e : Engine)
    → 1 ≤ reps
    → Untimed (engine_cell c rows reps false e)
unfolding engine_cell
engine_cell-Untimed c rows reps e h =
    let none_ =
      filter-none (λ r. selected c r rows false) (filter (of_cell c e) rows) (unselected c rows) in
    let count : length
          (map Row.wall_ns (filter (λ r. selected c r rows false) (filter (of_cell c e) rows)))
        ≡ 0 =
      ap (λ rs. length (map Row.wall_ns rs)) none_ in
    (count, ap (λ n. n == reps) count ∙ differs)
  where
    differs : (0 == reps) ≡ false
    differs = ground arith

engines-Untimed :
    (c : Case) (rows : List Row) (reps : ℕ) (es : List Engine)
    → 1 ≤ reps
    → All Untimed (map (engine_cell c rows reps false) es)
engines-Untimed c rows reps [] h = tt
engines-Untimed c rows reps (e ∷ es) h =
    (engine_cell-Untimed c rows reps e h, engines-Untimed c rows reps es h)

cells_for-Untimed :
    (cases : List Case) (rows : List Row) (reps noise : ℕ)
    → 1 ≤ reps
    → All (λ (c : Cell). All Untimed c.engines) (cells_for cases rows reps false noise)
unfolding cells_for cell_for
cells_for-Untimed [] rows reps noise h = tt
cells_for-Untimed (c ∷ cases) rows reps noise h =
    (engines-Untimed c rows reps c.engines h, cells_for-Untimed cases rows reps noise h)

verdict-incomplete : (cells : List Cell) → verdict cells incomplete ≡ incomplete
unfolding verdict
verdict-incomplete cells = unflagged (coverage cells) (any_flagged cells) _
  where
    unflagged : (a b : Bool) (s : State) → (if a && b && false then s else incomplete) ≡ incomplete
    unflagged true true s = refl
    unflagged true false s = refl
    unflagged false b s = refl

merge_gate-pass : (cells : List Cell) → merge_gate cells incomplete ≢ pass
unfolding merge_gate
merge_gate-pass cells h = elim (Bool-cases (any_pair cells)) [
  | inl pairs ↦ no_pass (rw (pairs, verdict-incomplete cells) at h)
  | inr none_ ↦ no_gate (rw none_ at h)
]
  where
    no_pass : other incomplete ≡ pass → ⊥
    no_pass e = cc

    no_gate : not_applicable ≡ pass → ⊥
    no_gate e = cc

-- Of a worker that runs into the deadline, the report says incomplete whatever the journal and the worker's own
-- report hold: no timing counts, no cell is complete, the merge gate does not pass, and the exit status is 2.
pub supervise-late :
    (cases : List Case) (reps noise : ℕ) (journal : List (Option Row))
    (own : Option (List Cell × State))
    → 1 ≤ reps
    → let ended = supervise late own (recover cases reps noise journal) in
      (ended.0 ≡ 2)
      × (ended.1.1 ≡ incomplete)
      × (merge_gate ended.1.0 ended.1.1 ≢ pass)
      × All (λ (c : Cell). All Untimed c.engines) ended.1.0
unfolding supervise recover report
supervise-late cases reps noise journal own h =
    let rows = read_journal journal in
    let cells = cells_for cases rows reps false noise in
    (
      refl,
      verdict-incomplete cells,
      subst (λ s. merge_gate cells s ≢ pass) (sym (verdict-incomplete cells))
          (merge_gate-pass cells),
      cells_for-Untimed cases rows reps noise h,
    )
