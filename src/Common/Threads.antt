-- ===== src/Common/Threads.antt =====
-- Values by thread: one thread's value replaced, and a weight summed over the first `n` threads.
use zpq.Common.{ℕ, zero, suc, ◌+◌, ◌≤◌, ◌<◌, ◌≡◌, refl, ap₂, inl, inr, arith}
use native.Mathlib.Decide.{dec_lt}
use zpq.Common.Tests.{◌==◌, if◌then◌else◌, Bool-cases, ==_iff}

abbrev pub put {ℓ} : {A : Type ℓ} → (ℕ → A) → ℕ → A → ℕ → A
put values i a j = if j == i then a else values j

pub put_self {ℓ} : {A : Type ℓ} (values : ℕ → A) (i : ℕ) (a : A) → put values i a i ≡ a
put_self values i a = rw (==_iff i i).1 refl

module _ {ℓ} {A : Type ℓ} (weight : A → ℕ) where
  pub sum_over : ℕ → (ℕ → A) → ℕ
  sum_over zero values = 0
  sum_over (suc n) values = weight (values n) + sum_over n values

  sum_over-put_above :
      (n i : ℕ) (values : ℕ → A) (a : A) → n ≤ i → sum_over n (put values i a) ≡ sum_over n values
  unfolding sum_over
  sum_over-put_above (suc n) i values a h = ground (arith, sum_over-put_above n i values a)
  sum_over-put_above zero i values a h = refl

  -- Replacing one thread's value moves the sum by the difference of the two weights.
  pub sum_over-put :
      (n i : ℕ) (values : ℕ → A) (a : A)
      → i < n
      → sum_over n (put values i a) + weight (values i) ≡ sum_over n values + weight a
  unfolding sum_over
  sum_over-put (suc n) i values a h = elim (Bool-cases (n == i)) [
    | inl here ↦
        let e : n ≡ i = (==_iff n i).0 here in ground (arith, sum_over-put_above n i values a)
    | inr there ↦ ground (arith, sum_over-put n i values a)
  ]
  sum_over-put zero i values a h = absurd (omega arith)

  pub weight-le-sum_over :
      (n i : ℕ) (values : ℕ → A) → i < n → weight (values i) ≤ sum_over n values
  unfolding sum_over
  weight-le-sum_over (suc n) i values h = elim (Bool-cases (n == i)) [
    | inl here ↦ let e : n ≡ i = (==_iff n i).0 here in rw (← e) (omega arith)
    | inr there ↦ ground (arith, weight-le-sum_over n i values)
  ]
  weight-le-sum_over zero i values h = absurd (omega arith)

  pub sum_over_same :
      (n : ℕ) (values others : ℕ → A)
      → ((j : ℕ) → weight (values j) ≡ weight (others j))
      → sum_over n values ≡ sum_over n others
  unfolding sum_over
  sum_over_same (suc n) values others h = ap₂ ◌+◌ (h n) (sum_over_same n values others h)
  sum_over_same zero values others h = refl

  pub sum_over_zero :
      (n : ℕ) (values : ℕ → A) → ((j : ℕ) → weight (values j) ≡ 0) → sum_over n values ≡ 0
  unfolding sum_over
  sum_over_zero (suc n) values h = omega (arith, h n, sum_over_zero n values h)
  sum_over_zero zero values h = refl

  -- A positive sum has a thread with a weight.
  pub sum_over_witness :
      (n : ℕ) (values : ℕ → A) → 0 < sum_over n values → (j : ℕ) × (j < n) × (0 < weight (values j))
  unfolding sum_over
  sum_over_witness (suc n) values h = elim (dec_lt 0 (weight (values n))) [
    | yes here ↦ (n, omega arith, here)
    | no none_here ↦
        let (j, below, there) = sum_over_witness n values (omega arith) in (j, omega arith, there)
  ]
  sum_over_witness zero values h = absurd (omega arith)
