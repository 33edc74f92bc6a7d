-- ===== src/Checks/Binding.antt =====
-- python/zpq.py, class Zpq: short schedules of two threads.
use zpq.Common.{ℕ, ◌<◌, ◌≡◌, refl, true, false, List, [], ◌∷◌, ◌⊎◌, inl, inr, arith}
use zpq.Common.Tests.{◌==◌, Bool-cases}
use zpq.Binding.Context.{away, running, asleep, Call, run_raw, close, run, opened}
use zpq.Binding.Context.Safety.{flies, run-is_safe, run-wakes, run-ends}

-- Thread 0 is inside the library, and thread 1 waits for it to close.
abbrev closing_over : List (ℕ × Call)
closing_over = (0, run_raw) ∷ (1, close) ∷ (0, run_raw) ∷ []

thread_0_runs : (run 2 opened closing_over).threads 0 ≡ running true
unfolding run
thread_0_runs = refl

thread_1_sleeps : (run 2 opened closing_over).threads 1 ≡ asleep
unfolding run
thread_1_sleeps = refl

run-is_safe_example : (true ≡ true) × ((run 2 opened closing_over).shared.frees ≡ 0)
run-is_safe_example = run-is_safe 2 closing_over 0 true (omega arith) thread_0_runs

run-wakes_example : (j : ℕ) × (j < 2) × (flies ((run 2 opened closing_over).threads j) ≡ 1)
run-wakes_example = run-wakes 2 closing_over 1 thread_1_sleeps

-- A call by thread 0, and then a close by it.
abbrev called_and_closed : List (ℕ × Call)
called_and_closed =
    (0, run_raw) ∷ (0, run_raw) ∷ (0, run_raw) ∷ (0, run_raw) ∷ (0, close) ∷ (0, close) ∷ []

all_back : (j : ℕ) → (run 2 opened called_and_closed).threads j ≡ away
unfolding run
all_back j = elim (Bool-cases (j == 0)) [ inl e ↦ rw e refl | inr e ↦ rw e refl ]

run-ends_example :
    let m = (run 2 opened called_and_closed).shared in
    ((m.closing ≡ true) × (m.held ≡ false) × (m.frees ≡ 1))
    ⊎ ((m.closing ≡ false) × (m.held ≡ true) × (m.frees ≡ 0))
run-ends_example = run-ends 2 called_and_closed all_back
