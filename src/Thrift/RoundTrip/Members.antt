-- ===== src/Thrift/RoundTrip/Members.antt =====
-- Lists: booleans a byte each, and items through the reader and the writer of one value.
use zpq.Common.{
  ℕ, zero, suc, ◌+◌, ◌≤◌, ◌<◌, ◌≡◌, refl, Bool, true, false, [], ◌∷◌, ◌++◌, max, bit_and, arith,
}
use zpq.Common.Tests.{◌==◌, if◌then◌else◌}
use zpq.Common.Lists.{length, length-append}
use zpq.Common.Result.{Result, ok}
use zpq.Thrift.Value.{
  Bytes, Value, Items, bool, nil, cons, is_bool, count_items, depth, depth_items,
}
use zpq.Thrift.Cursor.{Read}
use zpq.Thrift.Reads.{Reads, Reads-pure, Reads-bind, Reads-map, byte-Reads}
use zpq.Thrift.Reader.{read_items, bool_item}
use zpq.Thrift.Writer.{bool_bytes, write_items}
use zpq.Thrift.Canonical.{
  Fits, ItemsFit, flag_fits, plain_fits, nil_fits, cons_fits, canonical, canonical_items,
}

-- `written` succeeds with at least `deep` bytes, and whatever fuel exceeds `deep` reads `a` from them.
pub record Coded {ℓ} {A : Type ℓ} (written : Result Bytes) (deep : ℕ) (read : ℕ → Read A) (a : A)
    : Type ℓ where
  pub out : Bytes
  pub writes : written ≡ ok out
  pub long : deep ≤ length out
  pub reads : (g : ℕ) → deep < g → Reads (read g) out a

pub length-append_bytes : (xs ys : Bytes) → length (xs ++ ys) ≡ length xs + length ys
length-append_bytes = length-append

pub ruleset lengths = (arith, length-append_bytes)

bool_item-Reads : (b : Bool) → Reads bool_item ((if b then 1 else 2) ∷ []) (bool b)
unfolding bool_item
bool_item-Reads true = Reads-map (λ n. bool (n == 1)) (byte-Reads 1)
bool_item-Reads false = Reads-map (λ n. bool (n == 1)) (byte-Reads 2)

pub bool_bytes-Reads :
    {et : ℕ} {vs : Items}
    → is_bool et ≡ true
    → ItemsFit et vs
    → Reads (read_items bool_item (count_items vs)) (bool_bytes vs) (canonical_items vs)
unfolding read_items bool_bytes count_items canonical
bool_bytes-Reads e nil_fits = Reads-pure nil
bool_bytes-Reads e (cons_fits (flag_fits {b} _) rest) =
    Reads-bind _ (bool_item-Reads b) (Reads-map (λ ws. cons (bool b) ws) (bool_bytes-Reads e rest))
bool_bytes-Reads e (cons_fits (plain_fits ne _) rest) = cc

pub bool_items_flat :
    {et : ℕ} {vs : Items} → is_bool et ≡ true → ItemsFit et vs → depth_items vs ≡ 0
unfolding depth
bool_items_flat e nil_fits = refl
bool_items_flat e (cons_fits (flag_fits _) rest) = omega (arith, bool_items_flat e rest)
bool_items_flat e (cons_fits (plain_fits ne _) rest) = cc

-- The writer and the reader of one value below a depth agree on what fits.
module _ (write : ℕ → Value → Result Bytes) (value : ℕ → ℕ → Read Value) (f : ℕ)
    (ih : (t : ℕ) (v : Value)
      → Fits t v
      → depth v < f
      → Coded (write t v) (depth v) (λ g. value g t) (canonical v)) where
  pub items-Coded :
      {et : ℕ} {vs : Items}
      → is_bool et ≡ false
      → ItemsFit et vs
      → depth_items vs < f
      → Coded
          (write_items (write et) vs)
          (depth_items vs)
          (λ g. read_items (value g et) (count_items vs))
          (canonical_items vs)
  unfolding read_items write_items count_items canonical depth
  items-Coded e nil_fits h = record {
    out = [];
    writes = refl;
    long = omega arith;
    reads = λ g _. Reads-pure nil;
  }
  items-Coded e (cons_fits (flag_fits b) rest) h = cc
  items-Coded {et} e (cons_fits {v} (plain_fits _ fits) rest) h =
      let first = ih et v fits (omega arith) in
      let others = items-Coded e rest (omega arith) in
      record {
        out = first.out ++ others.out;
        writes = rw (first.writes, others.writes);
        long = omega (lengths, first.long, others.long);
        reads = λ g d.
            Reads-bind _ (first.reads g (omega arith))
              (Reads-map (λ ws. cons (canonical v) ws) (others.reads g (omega arith)));
      }
