-- ===== src/Binding/Context/Safety.antt =====
-- The context is never used after it is freed, is freed once at most, and no closer sleeps for ever.
use zpq.Common.{
  ℕ, ◌+◌, ◌≤◌, ◌<◌, ◌≡◌, refl, ap, Bool, true, false, List, [], ◌∷◌, ◌⊎◌, inl, inr, arith,
}
use zpq.Common.Tests.{◌==◌, ltb, Bool-cases, ltb→lt}
use zpq.Common.Threads.{
  put, put_self, sum_over, sum_over-put, weight-le-sum_over, sum_over_same, sum_over_zero,
  sum_over_witness,
}
use zpq.Binding.Context.{
  Shared, Pc, away, counted, running, answered, asleep, awake, taken, Call, advance, notify, System,
  step, run, opened,
}

-- A thread that `_inflight` counts, and one that owns the context it took out of `_ctx`.
abbrev pub flies : Pc → ℕ
flies counted = 1
flies (running given) = 1
flies answered = 1
flies _ = 0

abbrev pub owns : Pc → ℕ
owns (taken true) = 1
owns _ = 0

-- A closer that waits for the calls in flight.
abbrev pub closes : Pc → ℕ
closes asleep = 1
closes awake = 1
closes _ = 0

abbrev as_count : Bool → ℕ
as_count true = 1
as_count false = 0

-- What a thread's place says of the shared state.
abbrev pub Placed : Shared → Pc → Type 0
Placed m (running given) = given ≡ true
Placed m asleep = (m.closing ≡ true) × (0 < m.inflight)
Placed m awake = m.closing ≡ true
Placed m _ = Unit

pub record Inv (n : ℕ) (s : System) : Type 0 where
  pub counts : s.shared.inflight ≡ sum_over flies n s.threads
  pub owned : s.shared.frees + as_count s.shared.held + sum_over owns n s.threads ≡ 1
  pub gone : s.shared.held ≡ false → (s.shared.closing ≡ true) × (s.shared.inflight ≡ 0)
  pub pending : s.shared.closing ≡ true → s.shared.held ≡ true → 0 < sum_over closes n s.threads
  pub placed : (j : ℕ) → Placed s.shared (s.threads j)

notify-flies : (b : Bool) (p : Pc) → flies (notify b p) ≡ flies p
unfolding notify
notify-flies b p = ground arith

notify-owns : (b : Bool) (p : Pc) → owns (notify b p) ≡ owns p
unfolding notify
notify-owns b p = ground arith

notify-closes : (b : Bool) (p : Pc) → closes (notify b p) ≡ closes p
unfolding notify
notify-closes b p = ground arith

-- One step of a thread that stands at `p`, at which `Inv` holds.
module _ (m : Shared) (call : Call) where
  abbrev after : Pc → Shared
  after p = (advance call m p).0

  abbrev goes : Pc → Pc
  goes p = (advance call m p).1

  abbrev tells : Pc → Bool
  tells p = (advance call m p).2

  advance-inflight :
      (p : Pc) → flies p ≤ m.inflight → (after p).inflight + flies p ≡ m.inflight + flies (goes p)
  unfolding advance
  advance-inflight p h = ground arith

  advance-owned :
      (p : Pc)
      → (after p).frees + as_count (after p).held + owns (goes p)
        ≡ m.frees + as_count m.held + owns p
  unfolding advance
  advance-owned p = ground arith

  advance-closes :
      (p : Pc)
      → (after p).closing ≡ true
      → (after p).held ≡ true
      → (0 < closes (goes p)) ⊎ ((m.closing ≡ true) × (m.held ≡ true) × (closes p ≡ 0))
  unfolding advance
  advance-closes p c h = ground arith

  module _ (gone : m.held ≡ false → (m.closing ≡ true) × (m.inflight ≡ 0)) where
    advance-gone :
        (p : Pc)
        → Placed m p
        → (after p).held ≡ false
        → ((after p).closing ≡ true) × ((after p).inflight ≡ 0)
    unfolding advance
    advance-gone p here h = ground arith

    advance-Placed_self :
        (p : Pc) → flies p ≤ m.inflight → Placed m p → Placed (after p) (notify (tells p) (goes p))
    unfolding advance notify
    advance-Placed_self p h here = ground arith

  advance-Placed : (p q : Pc) → Placed m q → Placed (after p) (notify (tells p) q)
  unfolding advance notify
  advance-Placed p q there = ground arith

module _ {n : ℕ} {s : System} (inv : Inv n s) (i : ℕ) (call : Call) (lt : i < n) where
  abbrev here : Pc
  here = s.threads i

  abbrev told : ℕ → Pc
  told j = notify (tells s.shared call here) (put s.threads i (goes s.shared call here) j)

  in_flight : flies here ≤ s.shared.inflight
  in_flight = omega (arith, inv.counts, weight-le-sum_over flies n i s.threads lt)

  told-flies :
      sum_over flies n told + flies here
      ≡ sum_over flies n s.threads + flies (goes s.shared call here)
  told-flies = omega (
    arith,
    sum_over_same flies n told (put s.threads i (goes s.shared call here)) (λ j. notify-flies _ _),
    sum_over-put flies n i s.threads (goes s.shared call here) lt,
  )

  told-owns :
      sum_over owns n told + owns here ≡ sum_over owns n s.threads + owns (goes s.shared call here)
  told-owns = omega (
    arith,
    sum_over_same owns n told (put s.threads i (goes s.shared call here)) (λ j. notify-owns _ _),
    sum_over-put owns n i s.threads (goes s.shared call here) lt,
  )

  told-closes :
      sum_over closes n told + closes here
      ≡ sum_over closes n s.threads + closes (goes s.shared call here)
  told-closes = omega (
    arith,
    sum_over_same closes n told (put s.threads i (goes s.shared call here))
        (λ j. notify-closes _ _),
    sum_over-put closes n i s.threads (goes s.shared call here) lt,
  )

  told_pending :
      (after s.shared call here).closing ≡ true
      → (after s.shared call here).held ≡ true
      → 0 < sum_over closes n told
  told_pending c h = elim (advance-closes s.shared call here c h) [
    | inl stays ↦ still_waits stays
    | inr (closing, held, quiet) ↦ omega (arith, told-closes, inv.pending closing held)
  ]
    where
      still_waits : 0 < closes (goes s.shared call here) → 0 < sum_over closes n told
      still_waits h = omega (
        arith,
        weight-le-sum_over closes n i told lt,
        notify-closes (tells s.shared call here) (put s.threads i (goes s.shared call here) i),
        ap closes (put_self s.threads i (goes s.shared call here)),
      )

  told-Placed : (j : ℕ) → Placed (after s.shared call here) (told j)
  told-Placed j = elim (Bool-cases (j == i)) [
    | inl same ↦ rw same (advance-Placed_self s.shared call inv.gone here in_flight (inv.placed i))
    | inr other ↦ rw other (advance-Placed s.shared call here (s.threads j) (inv.placed j))
  ]

  stepped-Inv : Inv n (record { shared = after s.shared call here; threads = told })
  stepped-Inv = record {
    counts = omega (arith, told-flies, advance-inflight s.shared call here in_flight, inv.counts);
    owned = omega (arith, told-owns, advance-owned s.shared call here, inv.owned);
    gone = advance-gone s.shared call inv.gone here (inv.placed i);
    pending = told_pending;
    placed = told-Placed;
  }

step-Inv : (n : ℕ) (s : System) (c : ℕ × Call) → Inv n s → Inv n (step n s c)
unfolding step
step-Inv n s (i, call) inv = elim (Bool-cases (ltb i n)) [
  | inl mine ↦ rw mine (stepped-Inv inv i call (ltb→lt i n mine))
  | inr none_such ↦ rw none_such inv
]

opened-Inv : (n : ℕ) → Inv n opened
opened-Inv n = record {
  counts = omega (arith, sum_over_zero flies n (λ _. away) (λ _. refl));
  owned = omega (arith, sum_over_zero owns n (λ _. away) (λ _. refl));
  gone = λ h. cc;
  pending = λ c h. cc;
  placed = λ j. tt;
}

-- Whatever the schedule, the invariant of the context holds.
pub run-Inv : (n : ℕ) (s : System) (schedule : List (ℕ × Call)) → Inv n s → Inv n (run n s schedule)
unfolding run
run-Inv n s [] inv = inv
run-Inv n s (c ∷ schedule) inv = run-Inv n (step n s c) schedule (step-Inv n s c inv)

-- The pointer is set and not freed while a thread is inside the library.
running-is_safe :
    {n : ℕ} {s : System} (inv : Inv n s) (i : ℕ) {given : Bool}
    → i < n
    → s.threads i ≡ running given
    → (given ≡ true) × (s.shared.frees ≡ 0)
running-is_safe {n} {s} inv i lt e =
    let flying : 1 ≤ s.shared.inflight =
      omega (arith, inv.counts, ap flies e, weight-le-sum_over flies n i s.threads lt) in
    (rw e at (inv.placed i), ground (arith, inv.gone, inv.owned))

flies-one : (p : Pc) → 0 < flies p → flies p ≡ 1
flies-one p h = ground arith

-- However any number of threads interleave their calls and closes on a context that was just opened, a
-- thread inside zpq_run was given the context and not None, and the context is not freed while it is there.
pub run-is_safe :
    (n : ℕ) (schedule : List (ℕ × Call)) (i : ℕ) (given : Bool)
    → i < n
    → (run n opened schedule).threads i ≡ running given
    → (given ≡ true) × ((run n opened schedule).shared.frees ≡ 0)
run-is_safe n schedule i given lt e =
    running-is_safe (run-Inv n opened schedule (opened-Inv n)) i lt e

-- Whatever the schedule, the context is freed once at most, and not while `_ctx` still holds it.
pub run-frees :
    (n : ℕ) (schedule : List (ℕ × Call))
    → ((run n opened schedule).shared.frees ≤ 1)
      × (((run n opened schedule).shared.held ≡ false) ⊎ ((run n opened schedule).shared.frees ≡ 0))
run-frees n schedule =
    let inv = run-Inv n opened schedule (opened-Inv n) in
    (omega (arith, inv.owned), held_or_free (run n opened schedule) inv)
  where
    held_or_free : (s : System) → Inv n s → (s.shared.held ≡ false) ⊎ (s.shared.frees ≡ 0)
    held_or_free s inv = elim (Bool-cases s.shared.held) [
      | inl h ↦ inr (ground (arith, inv.owned))
      | inr h ↦ inl h
    ]

-- A closer never sleeps for nothing: while thread `i` does, some thread's call is still in flight, and
-- that thread is there to notify it.
pub run-wakes :
    (n : ℕ) (schedule : List (ℕ × Call)) (i : ℕ)
    → (run n opened schedule).threads i ≡ asleep
    → (j : ℕ) × (j < n) × (flies ((run n opened schedule).threads j) ≡ 1)
run-wakes n schedule i h =
    let s = run n opened schedule in
    let inv = run-Inv n opened schedule (opened-Inv n) in
    let waits : Placed s.shared asleep = rw h at (inv.placed i) in
    let (j, below, busy) =
      sum_over_witness flies n s.threads (omega (arith, waits.1, inv.counts)) in
    (j, below, flies-one (s.threads j) busy)

step_drains :
    (n : ℕ) (s : System) (c : ℕ × Call)
    → s.shared.closing ≡ true
    → ((step n s c).shared.closing ≡ true) × ((step n s c).shared.inflight ≤ s.shared.inflight)
unfolding step advance
step_drains n s (i, call) h = ground arith

-- Once a close has begun, it stays begun whatever the schedule, and the number of calls in flight never
-- grows.
pub run_drains :
    (n : ℕ) (s : System) (schedule : List (ℕ × Call))
    → s.shared.closing ≡ true
    → ((run n s schedule).shared.closing ≡ true)
      × ((run n s schedule).shared.inflight ≤ s.shared.inflight)
unfolding run
run_drains n s [] h = (h, omega arith)
run_drains n s (c ∷ schedule) h =
    let (closing, fewer) = step_drains n s c h in
    let (still, rest) = run_drains n (step n s c) schedule closing in (still, omega arith)

-- When every thread is back from its calls and closes, the context has been freed exactly once if a
-- close was begun, and is there and was never freed if none was.
pub run-ends :
    (n : ℕ) (schedule : List (ℕ × Call))
    → ((j : ℕ) → (run n opened schedule).threads j ≡ away)
    → let m = (run n opened schedule).shared in
      ((m.closing ≡ true) × (m.held ≡ false) × (m.frees ≡ 1))
      ⊎ ((m.closing ≡ false) × (m.held ≡ true) × (m.frees ≡ 0))
run-ends n schedule back =
    ends (run n opened schedule) (run-Inv n opened schedule (opened-Inv n)) back
  where
    ends :
        (s : System)
        → Inv n s
        → ((j : ℕ) → s.threads j ≡ away)
        → ((s.shared.closing ≡ true) × (s.shared.held ≡ false) × (s.shared.frees ≡ 1))
          ⊎ ((s.shared.closing ≡ false) × (s.shared.held ≡ true) × (s.shared.frees ≡ 0))
    ends s inv all_away =
        let none_owns = sum_over_zero owns n s.threads (λ j. ap owns (all_away j)) in
        let none_waits = sum_over_zero closes n s.threads (λ j. ap closes (all_away j)) in
        ground (arith, inv.owned, inv.gone, inv.pending)
