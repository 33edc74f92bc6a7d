-- ===== src/Bench/Quick/Manifest/Bounds.antt =====
-- What an accepted configuration limits.
use zpq.Common.{
  ℕ, ◌≤◌, ◌<◌, ◌≡◌, refl, sym, ap, subst, ◌∙◌, Bool, true, false, not, ◌&&◌, Option, none, some,
}
use zpq.Common.Tests.{same_bool, same_bool-eq, ltb, leb, ltb→lt, leb→le, both, if◌then◌else◌}
use zpq.Common.Result.{ok, raised, ok-injective, >>=-eq-ok, guard->>-eq-ok, value_error}
use zpq.Bench.Quick.Manifest.{
  Build, same_build, Pin, build_of, check_pin, Given, absent, not_number, thousandths, Config,
  allowed, Limits, budget_test, reps_test, noise_test, load,
}
use text.Mathlib.Text.{◌==◌ as str_eq}
use text.Mathlib.TextEquality.{eq_iff}

same_build-eq : (a b : Build) → same_build a b ≡ true → a ≡ b
unfolding same_build
same_build-eq a b h =
    let (four, toolchain) = both _ (str_eq a.toolchain b.toolchain) h in
    let (three, strip) = both _ (same_bool a.strip b.strip) four in
    let (two, optimize) = both _ (str_eq a.optimize b.optimize) three in
    let (target, cpu) = both _ (str_eq a.cpu b.cpu) two in
    alike ((eq_iff a.target b.target).0 target) ((eq_iff a.cpu b.cpu).0 cpu)
      ((eq_iff a.optimize b.optimize).0 optimize) (same_bool-eq a.strip b.strip strip)
      ((eq_iff a.toolchain b.toolchain).0 toolchain)
  where
    alike :
        a.target ≡ b.target
        → a.cpu ≡ b.cpu
        → a.optimize ≡ b.optimize
        → a.strip ≡ b.strip
        → a.toolchain ≡ b.toolchain
        → a ≡ b
    alike p q r s t = cc

check_pin-build :
    (pin : Pin) {b : Build} → check_pin pin ≡ ok b → (pin.has_hashes ≡ true) × (pin.build ≡ some b)
unfolding check_pin build_of
check_pin-build pin h =
    let (first, rest) = guard->>-eq-ok pin.is_absolute value_error h in
    let (hashes, last) = guard->>-eq-ok pin.has_hashes value_error rest in
    (hashes, build_of-eq pin.build last)
  where
    build_of-eq : (o : Option Build) {b : Build} → build_of o ≡ ok b → o ≡ some b
    build_of-eq none h = cc
    build_of-eq (some d) h = ap some (ok-injective h)

if-eq-ok :
    (test : Bool) {n m : ℕ}
    → (if test then ok n else raised value_error) ≡ ok m
    → (test ≡ true) × (n ≡ m)
if-eq-ok true h = (refl, ok-injective h)
if-eq-ok false h = cc

-- What a limit that is allowed satisfies.
allowed-test :
    (given : Given) (default : ℕ) (test : (is_int negative : Bool) → ℕ → Bool) {n : ℕ}
    → allowed given default test ≡ ok n
    → (is_int : Bool) × (negative : Bool) × (test is_int negative n ≡ true)
unfolding allowed
allowed-test absent default test h =
    let (holds, same) = if-eq-ok (test true false default) h in
    (true, false, subst (λ n. test true false n ≡ true) same holds)
allowed-test not_number default test h = cc
allowed-test (thousandths is_int negative n) default test h =
    let (holds, same) = if-eq-ok (test is_int negative n) h in
    (is_int, negative, subst (λ n. test is_int negative n ≡ true) same holds)

budget-Bounds :
    (negative : Bool) (n : ℕ) (is_int : Bool)
    → budget_test is_int negative n ≡ true
    → (0 < n) × (n ≤ 120000)
budget-Bounds negative n is_int h =
    let (first, last) = both _ (leb n 120000) h in
    (ltb→lt 0 n ((both (not negative) (ltb 0 n) first).1), leb→le n 120000 last)

reps-Bounds :
    (negative : Bool) (n : ℕ) (is_int : Bool)
    → reps_test is_int negative n ≡ true
    → (1000 ≤ n) × (n ≤ 10000)
reps-Bounds negative n is_int h =
    let (first, last) = both _ (leb n 10000) h in
    (leb→le 1000 n ((both (is_int && not negative) (leb 1000 n) first).1), leb→le n 10000 last)

-- An accepted configuration has a budget above 0 and up to 120 seconds and from 1 to 10 repetitions, and its
-- candidate and its base, pinned by full hashes, are of one build.
pub load-limits :
    (cfg : Config) (l : Limits)
    → load cfg ≡ ok l
    → ((0 < l.budget) × (l.budget ≤ 120000))
      × ((1000 ≤ l.reps) × (l.reps ≤ 10000))
      × ((b : Build) × (cfg.candidate_pin.build ≡ some b) × (cfg.base_pin.build ≡ some b))
      × (cfg.candidate_pin.has_hashes ≡ true)
      × (cfg.base_pin.has_hashes ≡ true)
unfolding load
load-limits cfg l h =
    let (p, h₁) = guard->>-eq-ok cfg.enabled value_error h in
    let (p, h₂) = guard->>-eq-ok cfg.paths_absolute value_error h₁ in
    let (p, h₃) = guard->>-eq-ok cfg.has_memory_max value_error h₂ in
    let (p, h₄) = guard->>-eq-ok cfg.has_manifest_hash value_error h₃ in
    let (a, pin_a, h₅) = >>=-eq-ok (check_pin cfg.candidate_pin) _ h₄ in
    let (b, pin_b, h₆) = >>=-eq-ok (check_pin cfg.base_pin) _ h₅ in
    let (alike, h₇) = guard->>-eq-ok (same_build a b) value_error h₆ in
    let (budget, budget_ok, h₈) = >>=-eq-ok (allowed cfg.budget 90000 budget_test) _ h₇ in
    let (reps, reps_ok, h₉) = >>=-eq-ok (allowed cfg.reps 3000 reps_test) _ h₈ in
    let (noise, noise_ok, last) = >>=-eq-ok (allowed cfg.noise 0 noise_test) _ h₉ in
    let (i, n, budget_holds) = allowed-test cfg.budget 90000 budget_test budget_ok in
    let (j, m, reps_holds) = allowed-test cfg.reps 3000 reps_test reps_ok in
    let same = ok-injective last in
    let (hashes_a, build_a) = check_pin-build cfg.candidate_pin pin_a in
    let (hashes_b, build_b) = check_pin-build cfg.base_pin pin_b in
    (
      subst (λ x. (0 < x) × (x ≤ 120000)) (ap Limits.budget same)
          (budget-Bounds n budget i budget_holds),
      subst (λ x. (1000 ≤ x) × (x ≤ 10000)) (ap Limits.reps same) (reps-Bounds m reps j reps_holds),
      (a, build_a, build_b ∙ ap some (sym (same_build-eq a b alike))),
      hashes_a,
      hashes_b,
    )
