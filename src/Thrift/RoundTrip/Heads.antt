-- ===== src/Thrift/RoundTrip/Heads.antt =====
-- The header bytes of a list and of a field, and the small values.
use zpq.Common.{
  ℕ, ◌+◌, ◌*◌, ◌/◌, ◌^◌, ◌<◌, ◌≡◌, Bool, true, false, ◌&&◌, not, [], ◌∷◌, inl, inr, bit_and, bit_or,
  arith,
}
use zpq.Common.Tests.{ltb, ◌==◌, Bool-cases, ltb→lt}
use zpq.Common.Int.{ℤ, pos, negsuc, pos_part, ltb_ℤ, ◌+ℤ◌, ◌-ℤ◌, int_laws}
use zpq.Common.Bits.{low_nibble, or_nibbles}
use zpq.Common.Result.{Result, ok}
use zpq.Thrift.Value.{Bytes}
use zpq.Thrift.Cursor.{Read, varint, zigzag}
use zpq.Thrift.Reads.{Reads, Reads-pure}
use zpq.Thrift.Numbers.{IsI64, write_varint-Reads, write_zigzag-Reads}
use zpq.Thrift.Reader.{item_count, field_id}
use zpq.Thrift.Writer.{one_byte, list_head, field_head}

-- A header that `written` produced: its first byte holds `low` in the low nibble, and `read` takes the rest.
pub record Head {ℓ} {A : Type ℓ} (written : Result Bytes) (low : ℕ) (read : ℕ → Read A) (a : A)
    : Type ℓ where
  pub first : ℕ
  pub more : Bytes
  pub writes : written ≡ ok (first ∷ more)
  pub nibble : bit_and first 0x0f ≡ low
  pub reads : Reads (read first) more a

low_of_nibbles : (hi lo : ℕ) → hi < 16 → lo < 16 → bit_and (hi * 16 + lo) 0x0f ≡ lo
low_of_nibbles hi lo p q = omega (arith, low_nibble (hi * 16 + lo) (omega arith))

one_byte-nibbles :
    (hi lo : ℕ)
    → hi < 16
    → lo < 16
    → one_byte (pos (bit_or (hi * 2 ^ 4) lo)) ≡ ok ((hi * 16 + lo) ∷ [])
unfolding one_byte
one_byte-nibbles hi lo p q = ground (arith, or_nibbles hi lo p q)

one_byte-small : (b : ℕ) → b < 16 → one_byte (pos b) ≡ ok (b ∷ [])
unfolding one_byte
one_byte-small b h = ground arith

short_count : (n et : ℕ) → n < 15 → et < 16 → Reads (item_count (n * 16 + et)) [] n
unfolding item_count
short_count n et p q =
    let count : (n * 16 + et) / 16 ≡ n = omega arith in
    let short : (n == 15) ≡ false = ground arith in rw (count, short) (Reads-pure n)

long_count :
    (et : ℕ) {c : Bytes} {n : ℕ}
    → et < 16
    → Reads varint c n
    → Reads (item_count (15 * 16 + et)) c n
unfolding item_count
long_count et h reads = let count : (15 * 16 + et) / 16 ≡ 15 = omega arith in rw count reads

pub list_head-Head : (et n : ℕ) → et < 16 → Head (list_head et n) et item_count n
unfolding list_head
list_head-Head et n h = elim (Bool-cases (ltb n 15)) [
  | inl e ↦ record {
    first = n * 16 + et;
    more = [];
    writes = rw e (one_byte-nibbles n et (omega (arith, ltb→lt n 15 e)) h);
    nibble = low_of_nibbles n et (omega (arith, ltb→lt n 15 e)) h;
    reads = short_count n et (ltb→lt n 15 e) h;
  }
  | inr e ↦
      let (c, written, _, reads) = write_varint-Reads n in
      record {
        first = 15 * 16 + et;
        more = c;
        writes = rw (e, one_byte-nibbles 15 et (omega arith) h, written);
        nibble = low_of_nibbles 15 et (omega arith) h;
        reads = long_count et h reads;
      }
]

-- The test of the short form.
abbrev is_short : ℤ → Bool
is_short delta = ltb_ℤ (pos 0) delta && not (ltb_ℤ (pos 15) delta)

short_delta :
    (z : ℤ) → is_short z ≡ true → (0 < pos_part z) × (pos_part z < 16) × (z ≡ pos (pos_part z))
short_delta (pos n) h = ground arith
short_delta (negsuc n) h = ground arith

add_delta : (last fid : ℤ) → last +ℤ (fid -ℤ last) ≡ fid
add_delta last fid = omega int_laws

short_id :
    (last fid : ℤ) (wire : ℕ)
    → is_short (fid -ℤ last) ≡ true
    → wire < 16
    → Reads (field_id last ((pos_part (fid -ℤ last) * 16 + wire) / 2 ^ 4)) [] fid
unfolding field_id
short_id last fid wire e h =
    let (lo, hi, is_pos) = short_delta (fid -ℤ last) e in
    let high : (pos_part (fid -ℤ last) * 16 + wire) / 16 ≡ pos_part (fid -ℤ last) = omega arith in
    let some_delta : (pos_part (fid -ℤ last) == 0) ≡ false = ground arith in
    rw (high, some_delta, ← is_pos, add_delta) (Reads-pure fid)

long_id :
    (last fid : ℤ) (wire : ℕ) {z : Bytes}
    → wire < 16
    → Reads zigzag z fid
    → Reads (field_id last (wire / 2 ^ 4)) z fid
unfolding field_id
long_id last fid wire h reads = let high : wire / 16 ≡ 0 = omega arith in rw high reads

-- The id is the last one and the distance, if that is 1 to 15, and else is written out.
pub field_head-Head :
    (last fid : ℤ) (wire : ℕ)
    → IsI64 fid
    → wire < 16
    → Head (field_head last fid wire) wire (λ h. field_id last (h / 2 ^ 4)) fid
unfolding field_head
field_head-Head last fid wire h hw = elim (Bool-cases (is_short (fid -ℤ last))) [
  | inl e ↦
      let (_, hi, _) = short_delta (fid -ℤ last) e in
      record {
        first = pos_part (fid -ℤ last) * 16 + wire;
        more = [];
        writes = rw e (one_byte-nibbles (pos_part (fid -ℤ last)) wire hi hw);
        nibble = low_of_nibbles (pos_part (fid -ℤ last)) wire hi hw;
        reads = short_id last fid wire e hw;
      }
  | inr e ↦
      let (z, written, _, reads) = write_zigzag-Reads fid h in
      record {
        first = wire;
        more = z;
        writes = rw (e, one_byte-small wire hw, written);
        nibble = omega (arith, low_nibble wire (omega arith));
        reads = long_id last fid wire hw reads;
      }
]
