-- ===== src/Thrift/RoundTrip/Rounds.antt =====
-- The fields of a struct up to the stop byte, given the reader and the writer of one value.
use zpq.Common.{
  ℕ, zero, suc, ◌/◌, ◌^◌, ◌≤◌, ◌<◌, ◌≡◌, refl, false, [], ◌∷◌, ◌++◌, bit_and, arith, append_assoc,
}
use zpq.Common.Tests.{◌==◌}
use zpq.Common.Lists.{length}
use zpq.Common.Int.{ℤ}
use zpq.Common.Result.{ok}
use zpq.Thrift.Value.{Bytes, Value, Fields, no_fields, field, depth, depth_fields}
use zpq.Thrift.Reads.{Reads, Reads-pure, Reads-bind, Reads-map, byte-Reads}
use zpq.Thrift.Reader.{value, read_field, read_fields, field_id}
use zpq.Thrift.Writer.{write_value, write_fields, wire_type, field_head}
use zpq.Thrift.Canonical.{Fits, FieldsFit, none_fit, field_fits, canonical, canonical_fields}
use zpq.Thrift.RoundTrip.Heads.{Head, field_head-Head}
use zpq.Thrift.RoundTrip.Members.{Coded, length-append_bytes}
use zpq.Thrift.RoundTrip.Lists.{member-Coded, wire_type_bounds}

-- The stop byte ends the loop.
stop-Reads :
    (g rounds : ℕ) (last : ℤ)
    → 0 < rounds
    → Reads (read_fields (value g) rounds last) (0 ∷ []) no_fields
unfolding read_fields
stop-Reads g zero last h = absurd (omega arith)
stop-Reads g (suc rounds) last h = Reads-bind {cs = []} _ (byte-Reads 0) (Reads-pure no_fields)

goes_on : (first wire : ℕ) → bit_and first 0x0f ≡ wire → 0 < wire → (first == 0) ≡ false
goes_on zero wire e h = absurd (omega arith)
goes_on (suc first) wire e h = ground arith

-- One round of the loop, and the rounds that follow.
round-Reads :
    (g rounds : ℕ) (last : ℤ) {i : ℤ} {wire : ℕ} {body rest : Bytes} {v : Value} {fs : Fields}
    (head : Head (field_head last i wire) wire (λ h. field_id last (h / 2 ^ 4)) i)
    → 0 < wire
    → Reads (value g wire) body v
    → Reads (read_fields (value g) rounds i) rest fs
    → Reads
        (read_fields (value g) (suc rounds) last)
        (head.first ∷ head.more ++ (body ++ rest))
        (field i wire v fs)
unfolding read_fields read_field
round-Reads g rounds last {i} {wire} {v = v} head h reads_body reads_rest =
    let go_on : (head.first == 0) ≡ false = goes_on head.first wire head.nibble h in
    Reads-bind {bs = head.first ∷ []} _ (byte-Reads head.first) (
      rw go_on (
        Reads-bind _ head.reads (
          rw head.nibble
            (Reads-bind _ reads_body (Reads-map (λ more. field i wire v more) reads_rest)))))

-- The whole loop from a field on, with a round for each field at hand.
rounds-Reads :
    (g rounds : ℕ) (last : ℤ) {i : ℤ} {wire : ℕ} (body rest : Bytes) {v : Value} {fs : Fields}
    (head : Head (field_head last i wire) wire (λ h. field_id last (h / 2 ^ 4)) i)
    → 0 < wire
    → Reads (value g wire) body v
    → ((r : ℕ) → length rest < r → Reads (read_fields (value g) r i) (rest ++ 0 ∷ []) fs)
    → length (head.first ∷ head.more ++ (body ++ rest)) < rounds
    → Reads
        (read_fields (value g) rounds last)
        ((head.first ∷ head.more ++ (body ++ rest)) ++ 0 ∷ [])
        (field i wire v fs)
rounds-Reads g zero last body rest head h reads_body reads_rest l = absurd (omega arith)
rounds-Reads g (suc rounds) last body rest head h reads_body reads_rest l =
    let fuel : length rest < rounds =
      omega (arith, length-append_bytes head.more (body ++ rest), length-append_bytes body rest) in
    rw (append_assoc head.more, append_assoc body)
      (round-Reads g rounds last head h reads_body (reads_rest rounds fuel))

module _ (f : ℕ)
    (ih : (t : ℕ) (v : Value)
      → Fits t v
      → depth v < f
      → Coded (write_value f t v) (depth v) (λ g. value g t) (canonical v)) where
  -- The fields up to the stop byte. Each takes a round, and has a byte at least.
  pub record FieldsCoded (last : ℤ) (fs : Fields) : Type 0 where
    pub out : Bytes
    pub writes : write_fields (write_value f) last fs ≡ ok out
    pub long : depth_fields fs ≤ length out
    pub reads :
        (g rounds : ℕ)
        → depth_fields fs < g
        → length out < rounds
        → Reads (read_fields (value g) rounds last) (out ++ 0 ∷ []) (canonical_fields fs)

  no_fields-Coded : (last : ℤ) → FieldsCoded last no_fields
  unfolding write_fields read_fields canonical depth
  no_fields-Coded last = record {
    out = [];
    writes = refl;
    long = omega arith;
    reads = λ g rounds _ r. stop-Reads g rounds last r;
  }

  pub fields-Coded :
      (last : ℤ) {fs : Fields} → FieldsFit fs → depth_fields fs < f → FieldsCoded last fs
  unfolding write_fields read_fields canonical depth
  fields-Coded last none_fit h = no_fields-Coded last
  fields-Coded last (field_fits {i} {t} {v} {fs} hi lo hi' member rest) h =
      let (wlo, whi) = wire_type_bounds f ih t v lo hi' in
      let head = field_head-Head last i (wire_type t v) hi whi in
      let body = member-Coded f ih t member (omega arith) in
      let more = fields-Coded i rest (omega arith) in
      record {
        out = head.first ∷ head.more ++ (body.out ++ more.out);
        writes = rw (head.writes, body.writes, more.writes);
        long = omega (
          arith,
          length-append_bytes head.more (body.out ++ more.out),
          length-append_bytes body.out more.out,
          body.long,
          more.long,
        );
        reads = λ g rounds d r.
            rounds-Reads g rounds last body.out more.out head wlo (body.reads g (omega arith))
              (λ r l. more.reads g r (omega arith) l) r;
      }
