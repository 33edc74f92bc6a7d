-- ===== src/Thrift/Numbers.antt =====
-- Varints and zigzag integers: what `_varint` and `_zigzag` write, `Reader.varint` and `zigzag` read back.
use zpq.Common.{
  ℕ, suc, ◌+◌, ◌-◌, ◌*◌, ◌/◌, ◌%◌, ◌^◌, ◌≤◌, ◌<◌, ◌≡◌, refl, ap, ap₂, ◌∙◌, [], ◌∷◌, ◌++◌, bit_and,
  bit_or, arith,
}
use zpq.Common.Lists.{length}
use zpq.Common.Int.{ℤ, pos, negsuc, pos_part, neg_part, shl, shr, xor_ℤ}
use zpq.Common.Bits.{
  low_seven, top_bit, set_top, low_seven_any, or_shifted, bit_and-one, bit_xor-zero,
}
use zpq.Common.Order.{lt_wf}
use zpq.Common.Result.{ok}
use zpq.Thrift.Value.{Bytes}
use zpq.Thrift.Reads.{Reads, Reads-map}
use zpq.Thrift.Cursor.{at_pos, varint_loop, varint, unzigzag, zigzag}
use zpq.Thrift.Writer.{shift_shrinks, varint_bytes, write_varint, write_zigzag}
use mathlib.Core.Logic.{dif_pos, dif_neg}
use mathlib.Core.WellFounded.{Acc}
use native.Mathlib.Bridge.{le_prop}
use native.Mathlib.Decide.{dec_lt}
use native.Mathlib.Numerals.{towards_suc}
use native.Mathlib.Nat.{div-add-mod}

-- One round of the reader's loop, on a last byte and on one with the top bit set.
last_round :
    (b : ℕ) (rest : Bytes) (n out shift : ℕ)
    → b < 128
    → out < 2 ^ shift
    → varint_loop (b ∷ rest) n out shift ≡ ok (out + b * 2 ^ shift, at_pos rest (n + 1))
unfolding varint_loop
last_round b rest n out shift h fits =
    ground (arith, low_seven b, top_bit b, or_shifted shift b out)

inner_round :
    (g : ℕ) (rest : Bytes) (n out shift : ℕ)
    → g < 128
    → out < 2 ^ shift
    → varint_loop ((g + 128) ∷ rest) n out shift
      ≡ varint_loop rest (n + 1) (out + g * 2 ^ shift) (shift + 7)
unfolding varint_loop
inner_round g rest n out shift h fits =
    ground (arith, low_seven (g + 128), top_bit (g + 128), or_shifted shift g out)

seven_more : (s : ℕ) → 2 ^ (s + 7) ≡ 128 * 2 ^ s
seven_more s = simp towards_suc (omega arith)

-- The number splits into its low group and the rest, seven bits further up.
group_split : (v s : ℕ) → v * 2 ^ s ≡ v % 128 * 2 ^ s + v / 128 * 2 ^ (s + 7)
group_split v s = omega (
  arith,
  ap (λ (t : ℕ). t * 2 ^ s) (div-add-mod v 128),
  ap (λ (t : ℕ). v / 128 * t) (seven_more s),
)

group_fits : (g out s : ℕ) → g < 128 → out < 2 ^ s → out + g * 2 ^ s < 2 ^ (s + 7)
group_fits g out s h fits = rw seven_more (grind arith)

inner_byte : (v : ℕ) → bit_or (bit_and v 0x7f) 0x80 ≡ v % 128 + 128
inner_byte v = rw low_seven_any (set_top (v % 128) (omega arith))

varint_bytes-last : (v : ℕ) (w : Acc ◌<◌ v) → v < 128 → varint_bytes v w ≡ v ∷ []
unfolding varint_bytes
varint_bytes-last v (Acc.intro _ smaller) h = dif_pos (dec_lt v 128) le_prop h _ _

-- On 128 and above, an inner byte and the bytes of the rest.
varint_bytes-more :
    (v : ℕ) (smaller : (m : ℕ) → m < v → Acc ◌<◌ m) (large : ¬ (v < 128))
    → varint_bytes v (Acc.intro v smaller)
      ≡ (v % 128 + 128) ∷ varint_bytes (v / 128) (smaller (v / 128) (shift_shrinks v large))
unfolding varint_bytes
varint_bytes-more v smaller large =
    let tail = varint_bytes (v / 128) (smaller (v / 128) (shift_shrinks v large)) in
    dif_neg (dec_lt v 128) large _ _ ∙ ap (λ (b : ℕ). b ∷ tail) (inner_byte v)

-- What the loop makes of the bytes of `v`: all are read, and `v` is added from bit `shift` on.
abbrev ReadsBytes : (v : ℕ) → Acc ◌<◌ v → Bytes → ℕ → ℕ → ℕ → Type 0
ReadsBytes v w rest n out shift =
    varint_loop (varint_bytes v w ++ rest) n out shift
    ≡ ok (out + v * 2 ^ shift, at_pos rest (n + length (varint_bytes v w)))

inner_step :
    (v : ℕ) (smaller : (m : ℕ) → m < v → Acc ◌<◌ m) (large : ¬ (v < 128)) (rest : Bytes)
    (n out shift : ℕ)
    → out < 2 ^ shift
    → ReadsBytes
        (v / 128)
        (smaller (v / 128) (shift_shrinks v large))
        rest
        (n + 1)
        (out + v % 128 * 2 ^ shift)
        (shift + 7)
    → ReadsBytes v (Acc.intro v smaller) rest n out shift
inner_step v smaller large rest n out shift fits ih =
    let bytes = varint_bytes (v / 128) (smaller (v / 128) (shift_shrinks v large)) in
    let sums : out + v % 128 * 2 ^ shift + v / 128 * 2 ^ (shift + 7) ≡ out + v * 2 ^ shift =
      omega (arith, group_split v shift) in
    let places : n + 1 + length bytes ≡ n + suc (length bytes) = omega arith in
    rw (varint_bytes-more v smaller large) (
      inner_round (v % 128) (bytes ++ rest) n out shift (omega arith) fits
      ∙ ih
      ∙ ap₂ (λ (a m : ℕ). ok (a, at_pos rest m)) sums places)

varint_loop-bytes :
    (v : ℕ) (w : Acc ◌<◌ v) (rest : Bytes) (n out shift : ℕ)
    → out < 2 ^ shift
    → ReadsBytes v w rest n out shift
varint_loop-bytes v (Acc.intro _ smaller) rest n out shift fits = elim (dec_lt v 128) [
  | yes h ↦ rw (varint_bytes-last v (Acc.intro _ smaller) h) (last_round v rest n out shift h fits)
  | no h ↦ inner_step v smaller h rest n out shift fits (
      varint_loop-bytes (v / 128) (smaller (v / 128) (shift_shrinks v h)) rest (n + 1)
        (out + v % 128 * 2 ^ shift) (shift + 7) (group_fits (v % 128) out shift (omega arith) fits))
]

-- A varint reads back at its own length, whatever follows.
pub varint-bytes :
    (v : ℕ) (w : Acc ◌<◌ v) (rest : Bytes) (n : ℕ)
    → varint (at_pos (varint_bytes v w ++ rest) n)
      ≡ ok (v, at_pos rest (n + length (varint_bytes v w)))
unfolding varint
varint-bytes v w rest n =
    let whole = varint_loop-bytes v w rest n 0 0 (omega arith) in
    let value : 0 + v * 2 ^ 0 ≡ v = omega arith in rw value at whole

pub varint_bytes_pos : (v : ℕ) (w : Acc ◌<◌ v) → 0 < length (varint_bytes v w)
varint_bytes_pos v (Acc.intro _ smaller) = elim (dec_lt v 128) [
  | yes h ↦ rw (varint_bytes-last v (Acc.intro _ smaller) h) (omega arith)
  | no h ↦ rw (varint_bytes-more v smaller h) (omega arith)
]

-- An int64, the range in which `_zigzag` is one to one.
abbrev pub IsI64 : ℤ → Type 0
IsI64 z = (pos_part z < 2 ^ 63) × (neg_part z ≤ 2 ^ 63)

-- The number that stands for `z`: 2 z, or -2 z - 1.
abbrev pub zigzag_code : ℤ → ℕ
zigzag_code (pos n) = 2 * n
zigzag_code (negsuc n) = 2 * n + 1

xor-code : (z : ℤ) → IsI64 z → xor_ℤ (shl z 1) (shr z 63) ≡ pos (zigzag_code z)
unfolding xor_ℤ shl shr
xor-code (pos n) h = ap pos (ground (arith, bit_xor-zero (n * 2)))
xor-code (negsuc n) h = ap pos (ground (arith, bit_xor-zero (suc n * 2 - 1)))

unzigzag-code : (z : ℤ) → unzigzag (zigzag_code z) ≡ z
unfolding unzigzag
unzigzag-code (pos n) = ground (arith, bit_and-one (2 * n), bit_xor-zero (2 * n / 2))
unzigzag-code (negsuc n) = ground (arith, bit_and-one (2 * n + 1), bit_xor-zero ((2 * n + 1) / 2))

-- `_varint` accepts every natural number, writes a byte at least, and `Reader.varint` reads it back.
pub write_varint-Reads :
    (v : ℕ) → (bs : Bytes) × (write_varint (pos v) ≡ ok bs) × (0 < length bs) × Reads varint bs v
unfolding write_varint
write_varint-Reads v =
    let w = lt_wf.apply v in
    (varint_bytes v w, refl, varint_bytes_pos v w, record { run = varint-bytes v w })

-- `_zigzag` accepts every int64, writes a byte at least, and `Reader.zigzag` reads it back.
pub write_zigzag-Reads :
    (z : ℤ)
    → IsI64 z
    → (bs : Bytes) × (write_zigzag z ≡ ok bs) × (0 < length bs) × Reads zigzag bs z
unfolding write_zigzag zigzag
write_zigzag-Reads z h =
    let (bs, written, some_byte, reads) = write_varint-Reads (zigzag_code z) in
    (bs, rw (xor-code z h) written, some_byte, rw (unzigzag-code z) at (Reads-map unzigzag reads))
