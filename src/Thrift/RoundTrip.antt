-- ===== src/Thrift/RoundTrip.antt =====
-- tools/datagen/parquet.py: what `write_value` writes, `Reader.value` reads back.
mod Heads
mod Members
mod Lists
mod Rounds
use Members.{Coded, length-append_bytes}
use Lists.{list-Coded}
use Rounds.{fields-Coded}
use zpq.Common.{
  ℕ, zero, suc, ◌+◌, ◌≤◌, ◌<◌, ◌≡◌, refl, ap, ◌∙◌, Bool, true, false, [], ◌∷◌, ◌++◌, append-nil,
  arith,
}
use zpq.Common.Tests.{ltb, if◌then◌else◌}
use zpq.Common.Lists.{length, length-append}
use zpq.Common.Int.{ℤ, pos}
use zpq.Common.Result.{Result, ok}
use zpq.Thrift.Value.{
  Bytes, Value, Fields, int, bytes, list, struct, Kind, byte_kind, int_kind, double_kind,
  binary_kind, list_kind, struct_kind, kind_of, sort_fields, depth, depth_items, depth_fields,
}
use zpq.Thrift.Cursor.{Read, at_pos}
use zpq.Thrift.Reads.{Reads, Reads-bind, Reads-map, byte-Reads, slice-Reads}
use zpq.Thrift.Numbers.{IsI64, write_varint-Reads, write_zigzag-Reads}
use zpq.Thrift.Reader.{value, value_of, read_fields, read_struct, decode}
use zpq.Thrift.Writer.{write_value, write_of, one_byte, encode}
use zpq.Thrift.Canonical.{
  Fits, FieldsFit, byte_fits, int_fits, double_fits, binary_fits, list_fits, struct_fits, canonical,
  canonical_fields, canonical-sort, sort-FieldsFit, depth-sort,
}

-- The writer's and the reader's branch for a kind, under the test of the tag.
write_kind :
    (f t : ℕ) (v : Value) {k : Kind}
    → kind_of t ≡ k
    → write_value (suc f) t v ≡ write_of (write_value f) k v
unfolding write_value
write_kind f t v e = rw e

read_kind :
    (g t : ℕ) {k : Kind} {bs : Bytes} {v : Value}
    → 0 < g
    → kind_of t ≡ k
    → ((g' : ℕ) → g ≡ suc g' → Reads (value_of (value g') t k) bs v)
    → Reads (value g t) bs v
unfolding value
read_kind zero t h e reads = absurd (omega arith)
read_kind (suc g) t h e reads = rw e (reads g refl)

byte_value-Coded :
    (f t : ℕ) {n : ℕ}
    → kind_of t ≡ byte_kind
    → n < 256
    → Coded (write_value (suc f) t (int (pos n))) 0 (λ g. value g t) (int (pos n))
unfolding write_of value_of one_byte
byte_value-Coded f t {n} e h = record {
  out = n ∷ [];
  writes = write_kind f t _ e ∙ ground arith;
  long = omega arith;
  reads = λ g d. read_kind g t d e (λ _ _. Reads-map (λ b. int (pos b)) (byte-Reads n));
}

int_value-Coded :
    (f t : ℕ) {z : ℤ}
    → kind_of t ≡ int_kind
    → IsI64 z
    → Coded (write_value (suc f) t (int z)) 0 (λ g. value g t) (int z)
unfolding write_of value_of
int_value-Coded f t {z} e h =
    let (bs, written, _, reads) = write_zigzag-Reads z h in
    record {
      out = bs;
      writes = write_kind f t _ e ∙ written;
      long = omega arith;
      reads = λ g d. read_kind g t d e (λ _ _. Reads-map int reads);
    }

double_value-Coded :
    (f t : ℕ) {b : Bytes}
    → kind_of t ≡ double_kind
    → length b ≡ 8
    → Coded (write_value (suc f) t (bytes b)) 0 (λ g. value g t) (bytes b)
unfolding write_of value_of
double_value-Coded f t {b} e h = record {
  out = b;
  writes = write_kind f t _ e;
  long = omega arith;
  reads = λ g d. read_kind g t d e (λ _ _. rw (← h) (Reads-map bytes (slice-Reads b)));
}

binary_value-Coded :
    (f t : ℕ) {b : Bytes}
    → kind_of t ≡ binary_kind
    → Coded (write_value (suc f) t (bytes b)) 0 (λ g. value g t) (bytes b)
unfolding write_of value_of
binary_value-Coded f t {b} e =
    let (n, written, _, reads) = write_varint-Reads (length b) in
    record {
      out = n ++ b;
      writes = write_kind f t _ e ∙ rw written;
      long = omega arith;
      reads =
          λ g d. read_kind g t d e (λ _ _. Reads-bind _ reads (Reads-map bytes (slice-Reads b)));
    }

-- A struct's loop is given a round for each byte left.
struct-Reads :
    (g : ℕ) (bs : Bytes) {fs : Fields}
    → ((rounds : ℕ)
        → length bs < rounds
        → Reads (read_fields (value g) rounds (pos 0)) (bs ++ 0 ∷ []) fs)
    → Reads (read_struct (value g)) (bs ++ 0 ∷ []) (struct fs)
unfolding read_struct
struct-Reads g bs reads = record {
  run = λ rest n.
      let fuel : length bs < suc (length ((bs ++ 0 ∷ []) ++ rest)) =
        omega (arith, length-append_bytes (bs ++ 0 ∷ []) rest, length-append_bytes bs (0 ∷ [])) in
      (Reads-map struct (reads _ fuel)).run rest n;
}

-- By induction on the fuel: what fits is written, and read back in canonical form.
pub value-Coded :
    (f t : ℕ) (v : Value)
    → Fits t v
    → depth v < f
    → Coded (write_value f t v) (depth v) (λ g. value g t) (canonical v)
unfolding depth canonical write_of value_of
value-Coded zero t v fits h = absurd (omega arith)
value-Coded (suc f) t _ (byte_fits e n) h = byte_value-Coded f t e n
value-Coded (suc f) t _ (int_fits e z) h = int_value-Coded f t e z
value-Coded (suc f) t _ (double_fits e n) h = double_value-Coded f t e n
value-Coded (suc f) t _ (binary_fits e) h = binary_value-Coded f t e
value-Coded (suc f) t _ (list_fits {et} e small fits) h =
    let (items, longer) = list-Coded f (value-Coded f) et small fits (omega arith) in
    record {
      out = items.out;
      writes = write_kind f t _ e ∙ items.writes;
      long = longer;
      reads = λ g d. read_kind g t (omega arith) e (λ g' s. items.reads g' (omega arith));
    }
value-Coded (suc f) t _ (struct_fits {fs} e fits) h =
    let deep = depth-sort fs in
    let fields = fields-Coded f (value-Coded f) (pos 0) (sort-FieldsFit fits) (omega arith) in
    record {
      out = fields.out ++ 0 ∷ [];
      writes = write_kind f t _ e ∙ rw fields.writes;
      long = omega (arith, length-append_bytes fields.out (0 ∷ []), fields.long);
      reads = λ g d. read_kind g t (omega arith) e (λ g' s.
          rw (← canonical-sort fs)
            (struct-Reads g' fields.out (λ r l. fields.reads g' r (omega arith) l)));
    }

-- Every value that fits its tag is written, and reading what was written, with anything behind it,
-- gives the value in canonical form and stops right behind it.
pub decode-encode :
    (t : ℕ) (v : Value)
    → Fits t v
    → (bs : Bytes) × (encode t v ≡ ok bs)
      × (decode t bs ≡ ok (canonical v))
      × ((rest : Bytes) (n : ℕ)
          → value (suc (length bs)) t (at_pos (bs ++ rest) n)
            ≡ ok (canonical v, at_pos rest (n + length bs)))
unfolding encode decode
decode-encode t v fits =
    let c = value-Coded (suc (depth v)) t v fits (omega arith) in
    let reads = c.reads (suc (length c.out)) (omega (arith, c.long)) in
    (c.out, c.writes, rw (rw append-nil at (reads.run [] 0)), reads.run)
