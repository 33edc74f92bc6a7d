-- ===== src/Thrift/RoundTrip/Lists.antt =====
-- Whole lists and the fields of a struct, given the reader and the writer of one value.
use zpq.Common.{ℕ, zero, suc, ◌<◌, refl, Bool, true, false, [], ◌∷◌, ◌++◌, inl, inr, arith}
use zpq.Common.Tests.{if◌then◌else◌, Bool-cases}
use zpq.Common.Lists.{length}
use zpq.Common.Result.{ok}
use zpq.Thrift.Value.{
  Value, Items, bool, list, is_bool, t_true, t_false, count_items, depth, depth_items, kind_of,
}
use zpq.Thrift.Reads.{Reads, Reads-pure, Reads-bind, Reads-map, byte-Reads}
use zpq.Thrift.Reader.{value, value_of, read_items, bool_item, read_list}
use zpq.Thrift.Writer.{write_value, bool_bytes, write_items, write_list, wire_type, truthy}
use zpq.Thrift.Canonical.{
  Fits, MemberFits, ItemsFit, flag_fits, plain_fits, canonical, canonical_items,
}
use zpq.Thrift.RoundTrip.Heads.{list_head-Head}
use zpq.Thrift.RoundTrip.Members.{
  Coded, items-Coded, bool_bytes-Reads, bool_items_flat, length-append_bytes,
}

-- A boolean under its own type takes no byte.
flag-Reads :
    (b : Bool) (g : ℕ) → 0 < g → Reads (value g (if b then t_true else t_false)) [] (bool b)
unfolding value kind_of value_of
flag-Reads b zero h = absurd (omega arith)
flag-Reads true (suc g) h = Reads-pure (bool true)
flag-Reads false (suc g) h = Reads-pure (bool false)

-- Below the depth `f` the writer and the reader agree on what fits.
module _ (f : ℕ)
    (ih : (t : ℕ) (v : Value)
      → Fits t v
      → depth v < f
      → Coded (write_value f t v) (depth v) (λ g. value g t) (canonical v)) where
  -- The body of a list under the test of its element type, as writer and reader make it.
  body-Coded :
      (et : ℕ) {vs : Items}
      → ItemsFit et vs
      → depth_items vs < f
      → Coded
          (if is_bool et then ok (bool_bytes vs) else write_items (write_value f et) vs)
          (depth_items vs)
          (λ g. read_items (if is_bool et then bool_item else value g et) (count_items vs))
          (canonical_items vs)
  body-Coded et {vs} fits h = elim (Bool-cases (is_bool et)) [
    | inl e ↦ rw e (record {
      out = bool_bytes vs;
      writes = refl;
      long = omega (arith, bool_items_flat e fits);
      reads = λ g _. bool_bytes-Reads e fits;
    })
    | inr e ↦ rw e (items-Coded (write_value f) value f ih e fits h)
  ]

  pub list-Coded :
      (et : ℕ) {vs : Items}
      → et < 16
      → ItemsFit et vs
      → depth_items vs < f
      → (c : Coded
          (write_list (write_value f) et vs)
          (depth_items vs)
          (λ g. read_list (value g))
          (list et (canonical_items vs)))
        × (depth_items vs < length c.out)
  unfolding write_list read_list
  list-Coded et {vs} small fits h =
      let head = list_head-Head et (count_items vs) small in
      let body = body-Coded et fits h in
      let longer : depth_items vs < length (head.first ∷ head.more ++ body.out) =
        omega (arith, length-append_bytes head.more body.out, body.long) in
      (
        record {
          out = head.first ∷ head.more ++ body.out;
          writes = rw (head.writes, body.writes);
          long = omega arith;
          reads = λ g d. Reads-bind {bs = head.first ∷ []} _ (byte-Reads head.first) (
              Reads-bind _ head.reads
                (rw head.nibble (Reads-map (λ ws. list et ws) (body.reads g d))));
        },
        longer,
      )

  -- A field's value, under the type that goes on the wire.
  pub member-Coded :
      (t : ℕ) {v : Value}
      → MemberFits t v
      → depth v < f
      → Coded
          (if is_bool t then ok [] else write_value f t v)
          (depth v)
          (λ g. value g (wire_type t v))
          (canonical v)
  unfolding wire_type truthy canonical depth
  member-Coded t (flag_fits {b} e) h = rw e (record {
    out = [];
    writes = refl;
    long = omega arith;
    reads = λ g d. flag-Reads b g (omega arith);
  })
  member-Coded t (plain_fits {v} e fits) h = rw e (ih t v fits h)

  pub wire_type_bounds :
      (t : ℕ) (v : Value) → 0 < t → t < 16 → (0 < wire_type t v) × (wire_type t v < 16)
  unfolding wire_type
  wire_type_bounds t v lo hi = ground arith
