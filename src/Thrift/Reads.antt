-- ===== src/Thrift/Reads.antt =====
-- What it means that a read takes exactly given bytes off the front of any input.
use zpq.Common.{ℕ, ◌+◌, ◌≡◌, refl, ◌∙◌, ap, [], ◌∷◌, ◌++◌, append_assoc, arith}
use zpq.Common.Lists.{length, length-append, take-append, drop-append}
use zpq.Common.Result.{ok}
use zpq.Thrift.Value.{Bytes}
use zpq.Thrift.Cursor.{Read, at_pos, pure, ◌>>=◌, byte, slice}

-- On `bs` and whatever follows, `p` gives `a`, and the cursor stands behind `bs`.
pub record Reads {ℓ} {A : Type ℓ} (p : Read A) (bs : Bytes) (a : A) : Type ℓ where
  pub run : (rest : Bytes) (n : ℕ) → p (at_pos (bs ++ rest) n) ≡ ok (a, at_pos rest (n + length bs))

pub Reads-pure {ℓ} : {A : Type ℓ} (a : A) → Reads (pure a) [] a
Reads-pure a = record { run = λ rest n. ap (λ (m : ℕ). ok (a, at_pos rest m)) (omega arith) }

pub Reads-bind {ℓ κ} :
    {A : Type ℓ} {B : Type κ} {p : Read A} {bs cs : Bytes} {a : A} {b : B} (f : A → Read B)
    → Reads p bs a
    → Reads (f a) cs b
    → Reads (p >>= f) (bs ++ cs) b
Reads-bind {bs} {cs} {b = b} f first second = record {
  run = λ rest n.
      let places : n + length bs + length cs ≡ n + length (bs ++ cs) =
        omega (arith, length-append bs cs) in
      rw (append_assoc, first.run (cs ++ rest) n)
        (second.run rest (n + length bs) ∙ ap (λ (m : ℕ). ok (b, at_pos rest m)) places);
}

-- A last step that reads nothing.
pub Reads-map {ℓ κ} :
    {A : Type ℓ} {B : Type κ} {p : Read A} {bs : Bytes} {a : A} (f : A → B)
    → Reads p bs a
    → Reads (p >>= λ x. pure (f x)) bs (f a)
Reads-map f first = record { run = λ rest n. rw (first.run rest n) }

pub byte-Reads : (b : ℕ) → Reads byte (b ∷ []) b
unfolding byte
byte-Reads b = record { run = λ rest n. refl }

pub slice-Reads : (bs : Bytes) → Reads (slice (length bs)) bs bs
unfolding slice
slice-Reads bs = record { run = λ rest n. rw (take-append bs rest, drop-append bs rest) }
