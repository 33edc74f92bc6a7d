-- ===== src/Bench/Quick/Worker/Laws.antt =====
-- What a run that is complete has checked.
use zpq.Common.{
  ℕ, zero, suc, ◌+◌, ◌≤◌, ◌<◌, ◌≡◌, refl, sym, ap, ap₂, subst, ◌∙◌, Bool, true, ◌&&◌, Option, none,
  some, List, [], ◌∷◌, ◌++◌, map, inl, inr, arith,
}
use zpq.Common.Tests.{if◌then◌else◌, Bool-cases, Option-cases}
use zpq.Common.Lists.{All}
use zpq.Bench.Quick.{
  Stop, expired, deferred, mismatch, broken, Engine, Phase, hash_first, hot_fresh, passed, Case,
  Row, Native, Attempt, no_row, interrupted, ended, Host, expected, finish, answered, validate,
  execute, text_is, raises, new_row, graded, pair_ok,
}
use zpq.Bench.Quick.Worker.{
  Ran, listed, journaled, then_run, check_rows, run_pair, checked_pair, over_cases, Reference,
  agrees, hash_pass, all_unchanged, mark_changed, engines_at, hot_round, hot_rounds, complete,
  state_of, or_else, after_hashes, worker,
}
use native.Mathlib.Decide.{dec_le}
use Prim.Native.String.{String}
use mathlib.Core.List.{Memᴰ}
use mathlib.Core.List.Memᴰ as Memᴰ

-- A row of an attempt that passed.
pub record Done (c : Case) (ph : Phase) (rep : ℕ) (r : Row) : Type 0 where
  pub of_case : r.case_id ≡ c.id
  pub of_phase : r.phase ≡ ph
  pub of_rep : r.rep ≡ rep
  pub is_ok : r.status ≡ passed

no_stop :
    {A : Type 0} {o : Option Row} {s : Stop} {q : Option Row}
    → ◌≡◌ {A = Option Row × Option Stop} (o, some s) (q, none)
    → A
no_stop h = cc

row_is :
    {o q : Option Row} {s : Option Stop}
    → ◌≡◌ {A = Option Row × Option Stop} (o, s) (q, none)
    → (o ≡ q) × (s ≡ none)
row_is h =
    (ap (λ (p : Option Row × Option Stop). p.0) h, ap (λ (p : Option Row × Option Stop). p.1) h)

ran_all :
    {A : Type 0} {rows more : List Row} {s : Stop} → ◌≡◌ {A = Ran} (rows, some s) (more, none) → A
ran_all h = cc

rows_are :
    {rows more : List Row} {s : Option Stop}
    → ◌≡◌ {A = Ran} (rows, s) (more, none)
    → (rows ≡ more) × (s ≡ none)
rows_are h = (ap (λ (p : Ran). p.0) h, ap (λ (p : Ran). p.1) h)

-- What a sequence without an exception went through.
then_run-done :
    (first : Ran) (next : List Row → Ran) {rows : List Row}
    → then_run first next ≡ (rows, none)
    → (some_rows more : List Row) × (first ≡ (some_rows, none))
      × (next some_rows ≡ (more, none))
      × (some_rows ++ more ≡ rows)
then_run-done (some_rows, some s) next h = ran_all h
then_run-done (some_rows, none) next h = (
  some_rows,
  (next some_rows).0,
  refl,
  ap (λ s. ((next some_rows).0, s)) (rows_are h).1,
  (rows_are h).0,
)

module _ (c : Case) (ph : Phase) (rep : ℕ) where
  -- An attempt without an exception has a row, of the engine, that passed.
  abbrev Attempted : Engine → Option Row → Type 0
  Attempted e o = (r : Row) × (o ≡ some r) × (r.engine ≡ e) × Done c ph rep r

  -- Its fields but the status are those that the row was made with.
  abbrev Started : Engine → Row → Type 0
  Started e r = (r.case_id ≡ c.id) × (r.phase ≡ ph) × (r.rep ≡ rep) × (r.engine ≡ e)

  validate-Attempted :
      (e : Engine) (r : Row) (n : Native) {o : Option Row}
      → Started e r
      → validate c r n ≡ (o, none)
      → Attempted e o
  unfolding validate
  validate-Attempted e r n {o} (p, q, s, t) h =
      go (if c.is_parquet && text_is r.native_outcome "answer" then n.validation else none)
        n.idle_after h
    where
      go :
          (x y : Option Stop)
          → ◌≡◌ {A = Option Row × Option Stop}
              (elim x [
                | some s ↦ raises r s
                | none ↦ elim y [
                  | some s ↦
                      raises
                        (record r { validated = c.is_parquet && text_is r.native_outcome "answer" })
                        s
                  | none ↦ (
                    some (record r {
                      validated = c.is_parquet && text_is r.native_outcome "answer";
                      status = passed;
                    }),
                    none,
                  )
                ]
              ])
              (o, none)
          → Attempted e o
      go (some s) y h = no_stop h
      go none (some s) h = no_stop h
      go none none h =
          (_, sym (row_is h).0, t, record { of_case = p; of_phase = q; of_rep = s; is_ok = refl })

  answered-Attempted :
      (e : Engine) (r : Row) (n : Native) (outcome : String) {o : Option Row}
      → Started e r
      → answered c r n outcome ≡ (o, none)
      → Attempted e o
  unfolding answered
  answered-Attempted e r n outcome {o} start h = elim (Option-cases n.artifact_stop) [
    | inl intact ↦ validate-Attempted e (graded r n outcome) n start (rw (answered, intact) at h)
    | inr (s, raised_) ↦ no_stop (rw (answered, raised_) at h)
  ]

  finish-Attempted :
      (e : Engine) (r : Row) (n : Native) {o : Option Row}
      → Started e r
      → finish c r n ≡ (o, none)
      → Attempted e o
  unfolding finish
  finish-Attempted e r n {o} start h = elim (Option-cases (expected (c.want r.engine) n)) [
    | inl unexpected ↦ no_stop (rw (finish, unexpected) at h)
    | inr (outcome, is_outcome) ↦
        answered-Attempted e r n outcome start (rw (finish, is_outcome) at h)
  ]

  execute-Attempted :
      (host : Host) (attempts : List Row) (e : Engine) {o : Option Row}
      → execute host attempts c e ph rep ≡ (o, none)
      → Attempted e o
  unfolding execute
  execute-Attempted host attempts e {o} h = go (host.attempt attempts c e ph rep) h
    where
      go :
          (a : Attempt)
          → ◌≡◌ {A = Option Row × Option Stop}
              (elim a [
                | no_row s ↦ (none, some s)
                | interrupted s ↦ raises (new_row c e ph rep) s
                | ended n ↦ finish c (new_row c e ph rep) n
              ])
              (o, none)
          → Attempted e o
      go (no_row s) h = no_stop h
      go (interrupted s) h = no_stop h
      go (ended n) h = finish-Attempted e (new_row c e ph rep) n (refl, refl, refl, refl) h

  -- The rows of a pair: one of each engine, in order, all passed.
  pub record Pair (es : List Engine) (rows : List Row) : Type 0 where
    pub engines_in_order : map Row.engine rows ≡ es
    pub all_done : All (Done c ph rep) rows

  run_pair-Pair :
      (host : Host) (attempts : List Row) (es : List Engine) {rows : List Row}
      → run_pair host attempts c ph rep es ≡ (rows, none)
      → Pair es rows
  unfolding run_pair
  run_pair-Pair host attempts [] h =
      subst (Pair []) (rows_are h).0 (record { engines_in_order = refl; all_done = tt })
  run_pair-Pair host attempts (e ∷ es) {rows} h =
      let (first, more, one, rest, joined) =
        then_run-done (journaled (execute host attempts c e ph rep)) _ h in
      let (engines, dones) = pair_parts more (run_pair-Pair host (attempts ++ first) es rest) in
      let (r, is_r, of_engine, done) =
        execute-Attempted host attempts e
          (ap (λ s. ((execute host attempts c e ph rep).0, s)) (rows_are one).1) in
      let is_first : first ≡ r ∷ [] = sym (rows_are one).0 ∙ ap listed is_r in
      subst (Pair (e ∷ es)) (ap (λ f. f ++ more) (sym is_first) ∙ joined)
        (record { engines_in_order = ap₂ ◌∷◌ of_engine engines; all_done = (done, dones) })
    where
      pair_parts :
          (more : List Row) → Pair es more → (map Row.engine more ≡ es) × All (Done c ph rep) more
      pair_parts more p = (p.engines_in_order, p.all_done)

  -- A checked pair: the two agree, or differ as declared, and the loop's own test holds.
  pub record Checked (also : List Row → Bool) (es : List Engine) (rows : List Row) : Type 0 where
    pub pair : Pair es rows
    pub fits : pair_ok c rows ≡ true
    pub tested : also rows ≡ true

  check_rows-done :
      (also : List Row → Bool) (marked : List Row → List Row) (ran : Ran) {rows : List Row}
      → check_rows c also marked ran ≡ (rows, none)
      → (ran ≡ (rows, none)) × (pair_ok c rows ≡ true) × (also rows ≡ true)
  unfolding check_rows
  check_rows-done also marked (some_rows, some s) h = ran_all h
  check_rows-done also marked (some_rows, none) {rows} h = elim (Bool-cases (pair_ok c some_rows)) [
    | inr bad ↦ ran_all (rw (check_rows, bad) at h)
    | inl good ↦ elim (Bool-cases (also some_rows)) [
      | inr bad ↦ ran_all (rw (check_rows, good, bad) at h)
      | inl fine ↦
          let same : some_rows ≡ rows = (rows_are (rw (check_rows, good, fine) at h)).0 in
          (ap (λ r. (r, none)) same, ap (pair_ok c) (sym same) ∙ good, ap also (sym same) ∙ fine)
    ]
  ]

  checked_pair-Checked :
      (host : Host) (also : List Row → Bool) (marked : List Row → List Row) (attempts : List Row)
      (es : List Engine) {rows : List Row}
      → checked_pair host also marked attempts c ph rep es ≡ (rows, none)
      → Checked also es rows
  unfolding checked_pair
  checked_pair-Checked host also marked attempts es h =
      let (ran, fits, tested) =
        check_rows-done also marked (run_pair host attempts c ph rep es) h in
      record { pair = run_pair-Pair host attempts es ran; fits = fits; tested = tested }

-- Rows among those of a journal.
abbrev pub Among : List Row → List Row → Type 0
Among rows journal = All (λ r. Memᴰ r journal) rows

Among-left : (rows more xs : List Row) → Among xs rows → Among xs (rows ++ more)
Among-left rows more [] h = tt
Among-left rows more (x ∷ xs) (p, ps) = (Memᴰ.append_left more p, Among-left rows more xs ps)

Among-right : (rows more xs : List Row) → Among xs more → Among xs (rows ++ more)
Among-right rows more [] h = tt
Among-right rows more (x ∷ xs) (p, ps) = (Memᴰ.append_right rows p, Among-right rows more xs ps)

Among-self : (rows : List Row) → Among rows rows
Among-self rows = go rows rows (λ r m. m)
  where
    go : (xs rows : List Row) → ((r : Row) → Memᴰ r xs → Memᴰ r rows) → Among xs rows
    go [] rows h = tt
    go (x ∷ xs) rows h = (h x (Memᴰ.head refl), go xs rows (λ r m. h r (Memᴰ.tail m)))

-- The journal has a checked pair of a case.
pub record Passed (journal : List Row) (ph : Phase) (rep : ℕ) (also : List Row → Bool)
    (es : List Engine) (c : Case) : Type 0 where
  pub rows : List Row
  pub inside : Among rows journal
  pub checked : Checked c ph rep also es rows

module _ (ph : Phase) (rep : ℕ) (also : Case → List Row → Bool) (es : Case → List Engine) where
  abbrev AllPassed : List Row → List Case → Type 0
  AllPassed journal cases = All (λ c. Passed journal ph rep (also c) (es c) c) cases

  AllPassed-left :
      (rows more : List Row) (cases : List Case)
      → AllPassed rows cases
      → AllPassed (rows ++ more) cases
  AllPassed-left rows more [] h = tt
  AllPassed-left rows more (c ∷ cases) (p, ps) = (
    record { rows = p.rows; inside = Among-left rows more p.rows p.inside; checked = p.checked },
    AllPassed-left rows more cases ps,
  )

  AllPassed-right :
      (rows more : List Row) (cases : List Case)
      → AllPassed more cases
      → AllPassed (rows ++ more) cases
  AllPassed-right rows more [] h = tt
  AllPassed-right rows more (c ∷ cases) (p, ps) = (
    record { rows = p.rows; inside = Among-right rows more p.rows p.inside; checked = p.checked },
    AllPassed-right rows more cases ps,
  )

  over_cases-Passed :
      (each : List Row → Case → Ran)
      → ((attempts : List Row) (c : Case) (rows : List Row)
          → each attempts c ≡ (rows, none)
          → Checked c ph rep (also c) (es c) rows)
      → (attempts : List Row) (cases : List Case) {rows : List Row}
      → over_cases each attempts cases ≡ (rows, none)
      → AllPassed rows cases
  unfolding over_cases
  over_cases-Passed each checks attempts [] h = tt
  over_cases-Passed each checks attempts (c ∷ cases) h =
      let (first, more, one, rest, joined) = then_run-done (each attempts c) _ h in
      let later = over_cases-Passed each checks (attempts ++ first) cases rest in
      subst (λ rows. AllPassed rows (c ∷ cases)) joined
        (
          record {
            rows = first;
            inside = Among-left first more first (Among-self first);
            checked = checks attempts c first one;
          },
          AllPassed-right first more cases later,
        )

module _ (host : Host) where
  hash_pass-Passed :
      (reference : Option Reference) (cases : List Case) {rows : List Row}
      → hash_pass host reference [] cases ≡ (rows, none)
      → AllPassed hash_first 0 (agrees reference) Case.engines rows cases
  unfolding hash_pass
  hash_pass-Passed reference cases h =
      over_cases-Passed hash_first 0 (agrees reference) Case.engines _
        (λ attempts c rows e.
          checked_pair-Checked c hash_first 0 host (agrees reference c) (λ rows. rows) attempts
            c.engines e)
        [] cases h

  hot_round-Passed :
      (hashes : List Row) (rep : ℕ) (attempts : List Row) (cases : List Case) {rows : List Row}
      → hot_round host hashes rep attempts cases ≡ (rows, none)
      → AllPassed hot_fresh rep (λ c. all_unchanged hashes) (engines_at rep) rows cases
  unfolding hot_round
  hot_round-Passed hashes rep attempts cases h =
      over_cases-Passed hot_fresh rep (λ c. all_unchanged hashes) (engines_at rep) _
        (λ attempts c rows e.
          checked_pair-Checked c hot_fresh rep host (all_unchanged hashes) (mark_changed hashes)
            attempts (engines_at rep c) e)
        attempts cases h

  hot_rounds-Passed :
      (hashes : List Row) (cases : List Case) (left rep : ℕ) (attempts : List Row) {rows : List Row}
      → hot_rounds host hashes cases left rep attempts ≡ (rows, none)
      → (k : ℕ) → rep ≤ k
      → k < rep + left
      → AllPassed hot_fresh k (λ c. all_unchanged hashes) (engines_at k) rows cases
  unfolding hot_rounds
  hot_rounds-Passed hashes cases zero rep attempts h k above below = absurd (omega arith)
  hot_rounds-Passed hashes cases (suc left) rep attempts h k above below =
      let (first, more, one, rest, joined) =
        then_run-done (hot_round host hashes rep attempts cases) _ h in
      subst (λ rows. AllPassed hot_fresh k (λ c. all_unchanged hashes) (engines_at k) rows cases)
        joined
        (elim (dec_le k rep) [
          | yes here ↦
              let same : rep ≡ k = omega arith in
              AllPassed-left hot_fresh k (λ c. all_unchanged hashes) (engines_at k) first more cases
                (subst
                  (λ i.
                    AllPassed hot_fresh i (λ c. all_unchanged hashes) (engines_at i) first cases)
                  same (hot_round-Passed hashes rep attempts cases one))
          | no there ↦
              AllPassed-right hot_fresh k (λ c. all_unchanged hashes) (engines_at k) first more
                cases
                (hot_rounds-Passed hashes cases left (suc rep) (attempts ++ first) rest k
                  (omega arith) (omega arith))
        ])

state_of-complete : (o : Option Stop) → state_of o ≡ complete → o ≡ none
unfolding state_of
state_of-complete none h = refl
state_of-complete (some expired) h = cc
state_of-complete (some deferred) h = cc
state_of-complete (some mismatch) h = cc
state_of-complete (some broken) h = cc

stopped : (s : Stop) → state_of (some s) ≡ complete → ⊥
stopped s h = absurd (some_none (state_of-complete (some s) h))
  where
    some_none : some s ≡ none → ⊥
    some_none e = cc

no_exception : (first later : Option Stop) → or_else first later ≡ none → first ≡ none
no_exception none later h = refl
no_exception (some s) later h = cc

-- A run that ends complete has a journal with, for each case, a pair of its hash pass and a pair of each repetition
-- from 1 up to the number asked for: one row of each engine, in the order of that repetition, all of them
-- passed. Each pair agrees in its bytes and outcomes or differs as its case declares, the hash pass agrees with
-- the other host's hashes if there are any, and each repetition has the bytes and outcome of its engine's row of
-- the hash pass.
pub worker-Passed :
    (host : Host) (setup rivals : Option Stop) (reference : Option Reference) (reps : ℕ)
    (cases : List Case) (k : ℕ)
    → 1 ≤ k
    → k ≤ reps
    → (worker host setup rivals reference reps cases).state ≡ complete
    → let w = worker host setup rivals reference reps cases in
      let hashes = (hash_pass host reference [] cases).0 in
      (w.hash_complete ≡ true)
      × All (λ c. Passed w.attempts hash_first 0 (agrees reference c) c.engines c) cases
      × All (λ c. Passed w.attempts hot_fresh k (all_unchanged hashes) (engines_at k c) c) cases
unfolding worker after_hashes
worker-Passed host (some s) rivals reference reps cases k above below h = absurd (stopped s h)
worker-Passed host none rivals reference reps cases k above below h =
    go (hash_pass host reference [] cases) refl h
  where
    go :
        (ran : Ran)
        → ran ≡ hash_pass host reference [] cases
        → (after_hashes host rivals reps cases ran).state ≡ complete
        → let w = after_hashes host rivals reps cases ran in
          (w.hash_complete ≡ true)
          × All (λ c. Passed w.attempts hash_first 0 (agrees reference c) c.engines c) cases
          × All (λ c. Passed w.attempts hot_fresh k (all_unchanged ran.0) (engines_at k c) c) cases
    go (hashes, some s) e h = absurd (stopped s h)
    go (hashes, none) e h =
        let hot = hot_rounds host hashes cases reps 1 hashes in
        let finished : hot ≡ (hot.0, none) =
          ap (λ s. (hot.0, s))
            (no_exception hot.1 rivals (state_of-complete (or_else hot.1 rivals) h)) in
        (
          refl,
          AllPassed-left hash_first 0 (agrees reference) Case.engines hashes hot.0 cases
              (hash_pass-Passed host reference cases (sym e)),
          AllPassed-right hot_fresh k (λ c. all_unchanged hashes) (engines_at k) hashes hot.0 cases
              (hot_rounds-Passed host hashes cases reps 1 hashes finished k above (omega arith)),
        )
