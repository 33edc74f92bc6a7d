-- ===== src/Fanout/Split/Balance.antt =====
-- How many runs there are, and how many row groups each takes.
use zpq.Common.{ℕ, suc, ◌+◌, ◌-◌, ◌*◌, ◌/◌, ◌≤◌, ◌<◌, ◌≡◌, List, arith}
use zpq.Common.Lists.{length, drop, length-take, length-drop}
use zpq.Fanout.Split.{RowGroup, bound, cut}
use native.Mathlib.Nat.{
  div-add-mod', mod-lt, le-div_iff_mul-le, div-lt_iff_lt-mul, div-le_of_le-mul,
}

-- From one bound to the next it is `len / n` units, or one more.
pub bound_step :
    (len n k : ℕ)
    → 0 < n
    → (bound len n k + len / n ≤ bound len n (suc k))
      × (bound len n (suc k) ≤ bound len n k + len / n + 1)
bound_step len n k h = (lower, omega (arith, upper))
  where
    lower : bound len n k + len / n ≤ bound len n (suc k)
    lower = (le-div_iff_mul-le h).1 (omega (arith, div-add-mod' (k * len) n, div-add-mod' len n))

    upper : bound len n (suc k) < bound len n k + len / n + 2
    upper = (div-lt_iff_lt-mul h).1 (
        omega
          (arith, div-add-mod' (k * len) n, div-add-mod' len n, mod-lt (k * len) h, mod-lt len h))

bound_within : (len n k : ℕ) → k ≤ n → bound len n k ≤ len
bound_within len n k h = div-le_of_le-mul n (grind arith)

-- The units of the k-th run: an n-th of all, rounded down or up.
pub length-cut :
    (us : List RowGroup) (n k : ℕ)
    → k < n
    → (length us / n ≤ length (cut us n k)) × (length (cut us n k) ≤ length us / n + 1)
length-cut us n k h =
    let lo = bound (length us) n k in
    let hi = bound (length us) n (suc k) in
    let size : length (cut us n k) ≡ hi - lo = omega (
      arith,
      length-take (hi - lo) (drop lo us),
      length-drop lo us,
      bound_within (length us) n (suc k) h,
    ) in
    omega (arith, size, bound_step (length us) n k (omega arith))
