-- ===== src/Common/Bits.antt =====
-- `&`, `|` and `^` on numbers as arithmetic, where a mask or a shift makes the fields disjoint.
use Prim.Native.Nat.{
  ℕ, zero, suc, ◌+◌, ◌*◌, ◌/◌, ◌%◌, ◌^◌, ◌≤◌, ◌<◌, min, max, bit_and, bit_or, bit_xor, digits,
  bitwise, differ, bit_and-bitwise, bit_or-bitwise, bit_xor-bitwise,
}
use mathlib.Core.Path.{◌≡◌, refl, ap, ◌∙◌}
use mathlib.Core.Bool.{Bool, true, ◌&&◌}
use native.Mathlib.Nat.{pow-suc}
use native.Mathlib.Decide.{dec_le}
use native.Mathlib.Omega.{arith}
use zpq.Common.Tests.{◌==◌, ==_iff}

-- Whether every number below a bound passes a test, by trying them all.
passes_below : (test : ℕ → Bool) → ℕ → Bool
passes_below test zero = true
passes_below test (suc bound) = passes_below test bound && test bound

passes_each :
    (test : ℕ → Bool) (bound : ℕ)
    → passes_below test bound ≡ true
    → (byte : ℕ) → byte < bound
    → test byte ≡ true
unfolding passes_below
passes_each test (suc bound) all byte small = ground (arith, passes_each test bound _ byte)
passes_each test zero all byte small = absurd (omega arith)

pub low_seven : (b : ℕ) → b < 256 → bit_and b 0x7f ≡ b % 128
unfolding passes_below
low_seven b h = (==_iff _ _).0 (passes_each (λ x. bit_and x 0x7f == x % 128) 256 refl b h)

pub top_bit : (b : ℕ) → b < 256 → bit_and b 0x80 ≡ b / 128 * 128
unfolding passes_below
top_bit b h = (==_iff _ _).0 (passes_each (λ x. bit_and x 0x80 == x / 128 * 128) 256 refl b h)

pub low_nibble : (b : ℕ) → b < 256 → bit_and b 0x0f ≡ b % 16
unfolding passes_below
low_nibble b h = (==_iff _ _).0 (passes_each (λ x. bit_and x 0x0f == x % 16) 256 refl b h)

pub set_top : (b : ℕ) → b < 128 → bit_or b 0x80 ≡ b + 128
unfolding passes_below
set_top b h = (==_iff _ _).0 (passes_each (λ x. bit_or x 0x80 == x + 128) 128 refl b h)

-- The native operations stand for a recursion on binary digits with a count of rounds. One round
-- more than the first number needs changes nothing.
module _ (z : ℕ → ℕ) (f : ℕ → ℕ → ℕ) where
  digits_one_more : (n a b : ℕ) → a ≤ n → digits z f (suc n) a b ≡ digits z f n a b
  digits_one_more zero zero b h = refl
  digits_one_more zero (suc a) b h = absurd (omega arith)
  digits_one_more (suc n) zero b h = refl
  digits_one_more (suc n) (suc a) b h =
      ap (λ (t : ℕ). t * 2 + f (suc a % 2) (b % 2))
        (digits_one_more n (suc a / 2) (b / 2) (omega arith))

  digits-eq-bitwise : (n a b : ℕ) → a ≤ n → digits z f n a b ≡ bitwise z f a b
  digits-eq-bitwise zero zero b h = refl
  digits-eq-bitwise zero (suc a) b h = absurd (omega arith)
  digits-eq-bitwise (suc n) a b h = elim (dec_le a n) [
    | yes p ↦ digits_one_more n a b p ∙ digits-eq-bitwise n a b p
    | no p ↦ let e : a ≡ suc n = omega arith in rw e
  ]

  bitwise_digit :
      (a b : ℕ) → 0 < a → bitwise z f a b ≡ bitwise z f (a / 2) (b / 2) * 2 + f (a % 2) (b % 2)
  bitwise_digit zero b h = absurd (omega arith)
  bitwise_digit (suc a) b h =
      ap (λ (t : ℕ). t * 2 + f (suc a % 2) (b % 2))
        (digits-eq-bitwise a (suc a / 2) (b / 2) (omega arith))

-- The lowest digit of each operation.
or_digit : (a b : ℕ) → bit_or a b ≡ bit_or (a / 2) (b / 2) * 2 + max (a % 2) (b % 2)
or_digit zero b = simp bit_or-bitwise (omega arith)
or_digit (suc a) b = simp bit_or-bitwise (bitwise_digit (λ y. y) max (suc a) b (omega arith))

and_digit : (a b : ℕ) → bit_and a b ≡ bit_and (a / 2) (b / 2) * 2 + min (a % 2) (b % 2)
and_digit zero b = simp bit_and-bitwise (omega arith)
and_digit (suc a) b = simp bit_and-bitwise (bitwise_digit (λ y. 0) min (suc a) b (omega arith))

pub zero-bit_or : (b : ℕ) → bit_or 0 b ≡ b
zero-bit_or b = bit_or-bitwise 0 b

pub zero-bit_xor : (b : ℕ) → bit_xor 0 b ≡ b
zero-bit_xor b = bit_xor-bitwise 0 b

differ-zero : (d : ℕ) → differ d 0 ≡ d
differ-zero zero = refl
differ-zero (suc d) = refl

xor_digit : (a b : ℕ) → 0 < a → bit_xor a b ≡ bit_xor (a / 2) (b / 2) * 2 + differ (a % 2) (b % 2)
xor_digit zero b h = absurd (omega arith)
xor_digit (suc a) b h = simp bit_xor-bitwise (bitwise_digit (λ y. y) differ (suc a) b (omega arith))

xor-zero_below : (n a : ℕ) → a ≤ n → bit_xor a 0 ≡ a
xor-zero_below n zero h = refl
xor-zero_below zero (suc a) h = absurd (omega arith)
xor-zero_below (suc n) (suc a) h = omega (
  arith,
  xor_digit (suc a) 0 (omega arith),
  differ-zero (suc a % 2),
  xor-zero_below n (suc a / 2) (omega arith),
)

pub bit_xor-zero : (a : ℕ) → bit_xor a 0 ≡ a
bit_xor-zero a = xor-zero_below a a (omega arith)

and-zero_below : (n a : ℕ) → a ≤ n → bit_and a 0 ≡ 0
and-zero_below n zero h = refl
and-zero_below zero (suc a) h = absurd (omega arith)
and-zero_below (suc n) (suc a) h =
    omega (arith, and_digit (suc a) 0, and-zero_below n (suc a / 2) (omega arith))

-- `v & 1`, and `v & 0x7F` at every width.
pub bit_and-one : (v : ℕ) → bit_and v 1 ≡ v % 2
bit_and-one v = omega (arith, and_digit v 1, and-zero_below (v / 2) (v / 2) (omega arith))

pub low_seven_any : (v : ℕ) → bit_and v 0x7f ≡ v % 128
low_seven_any v = omega (
  arith,
  and_digit v 127,
  and_digit (v / 2) 63,
  and_digit (v / 2 / 2) 31,
  and_digit (v / 2 / 2 / 2) 15,
  and_digit (v / 2 / 2 / 2 / 2) 7,
  and_digit (v / 2 / 2 / 2 / 2 / 2) 3,
  bit_and-one (v / 2 / 2 / 2 / 2 / 2 / 2),
)

half_shifted : (k q : ℕ) → q * 2 ^ suc k / 2 ≡ q * 2 ^ k
half_shifted k q = omega (arith, ap (λ (t : ℕ). q * t) (pow-suc 2 k))

-- `r | (q << k)` where `r` has no bit from `k` on.
pub or_shifted : (k q r : ℕ) → r < 2 ^ k → bit_or r (q * 2 ^ k) ≡ r + q * 2 ^ k
or_shifted zero q r h = let e : r ≡ 0 = omega arith in rw e (omega (arith, zero-bit_or (q * 2 ^ 0)))
or_shifted (suc k) q r h = omega (
  arith,
  or_digit r (q * 2 ^ suc k),
  ap (λ (t : ℕ). q * t) (pow-suc 2 k),
  pow-suc 2 k,
  or_shifted k q (r / 2) (omega (arith, pow-suc 2 k)),
  ap (λ t. bit_or (r / 2) t) (half_shifted k q),
)

nibble_table : (x : ℕ) → x < 256 → bit_or (x / 16 * 16) (x % 16) ≡ x
unfolding passes_below
nibble_table x h =
    (==_iff _ _).0 (passes_each (λ x. bit_or (x / 16 * 16) (x % 16) == x) 256 refl x h)

-- A byte of two nibbles.
pub or_nibbles : (hi lo : ℕ) → hi < 16 → lo < 16 → bit_or (hi * 2 ^ 4) lo ≡ hi * 16 + lo
or_nibbles hi lo p q =
    let high : (hi * 16 + lo) / 16 ≡ hi = omega arith in
    let low : (hi * 16 + lo) % 16 ≡ lo = omega arith in
    rw (high, low) at (nibble_table (hi * 16 + lo) (omega arith))
