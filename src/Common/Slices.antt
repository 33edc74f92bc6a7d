-- ===== src/Common/Slices.antt =====
-- Python's slices: a negative index counts from the end, and every index is brought into range.
use Prim.Native.Nat.{ℕ, suc, ◌+◌, ◌-◌, min}
use mathlib.Core.Path.{◌≡◌}
use mathlib.Core.List.{List, ◌++◌}
use native.Mathlib.Omega.{arith}
use zpq.Common.Lists.{length, take, drop, take-append, drop-append}
use zpq.Common.Int.{ℤ, pos, negsuc}

-- An index into a sequence of length `n`.
abbrev pub clip : ℕ → ℤ → ℕ
clip n (pos i) = min i n
clip n (negsuc i) = n - suc i

module _ {ℓ} {A : Type ℓ} where
  abbrev between : ℕ → ℕ → List A → List A
  between lo hi xs = take (hi - lo) (drop lo xs)

  -- xs[i:j], xs[i:] and xs[:j]
  unfoldable pub slice : ℤ → ℤ → List A → List A
  slice i j xs = between (clip (length xs) i) (clip (length xs) j) xs

  unfoldable pub slice_from : ℤ → List A → List A
  slice_from i xs = drop (clip (length xs) i) xs

  unfoldable pub slice_to : ℤ → List A → List A
  slice_to j xs = take (clip (length xs) j) xs

  -- A middle part is the slice between the lengths before and up to it.
  between-append :
      (xs ys zs : List A) → between (length xs) (length xs + length ys) (xs ++ (ys ++ zs)) ≡ ys
  between-append xs ys zs =
      let count : length xs + length ys - length xs ≡ length ys = omega arith in
      rw (drop-append xs (ys ++ zs), count) (take-append ys zs)

  pub slice-append :
      (i j : ℤ) (xs ys zs : List A)
      → clip (length (xs ++ (ys ++ zs))) i ≡ length xs
      → clip (length (xs ++ (ys ++ zs))) j ≡ length xs + length ys
      → slice i j (xs ++ (ys ++ zs)) ≡ ys
  unfolding slice
  slice-append i j xs ys zs p q = rw (p, q) (between-append xs ys zs)

  pub slice_from-append :
      (i : ℤ) (xs ys : List A)
      → clip (length (xs ++ ys)) i ≡ length xs
      → slice_from i (xs ++ ys) ≡ ys
  unfolding slice_from
  slice_from-append i xs ys p = rw p (drop-append xs ys)

  pub slice_to-append :
      (j : ℤ) (xs ys : List A) → clip (length (xs ++ ys)) j ≡ length xs → slice_to j (xs ++ ys) ≡ xs
  unfolding slice_to
  slice_to-append j xs ys p = rw p (take-append xs ys)
