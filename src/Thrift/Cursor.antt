-- ===== src/Thrift/Cursor.antt =====
-- tools/datagen/parquet.py, class Reader: a position in a byte string, and the primitive reads.
use zpq.Common.{ℕ, ◌+◌, ◌*◌, ◌/◌, ◌^◌, [], ◌∷◌, bit_and, bit_or}
use zpq.Common.Tests.{◌==◌, if◌then◌else◌}
use zpq.Common.Lists.{take, drop}
use zpq.Common.Int.{ℤ, pos, xor_ℤ, negate}
use zpq.Common.Result.{Result, ok, raised, out_of_fuel, Exn, index_error}
use zpq.Common.Result as Res
use zpq.Thrift.Value.{Bytes}

-- `Reader`: `unread` is buf[pos:], which is all that a read looks at. A slice past the end is short,
-- and the position still moves.
pub record Cursor : Type 0 where
  pub unread : Bytes
  pub pos : ℕ

abbrev pub at_pos : Bytes → ℕ → Cursor
at_pos bs n = record { unread = bs; pos = n }

-- After an exception the reader is not used again, so its position is dropped.
abbrev pub Read {ℓ} : Type ℓ → Type ℓ
Read A = Cursor → Result (A × Cursor)

abbrev pub pure {ℓ} : {A : Type ℓ} → A → Read A
pure a c = ok (a, c)

abbrev pub fail {ℓ} : {A : Type ℓ} → Exn → Read A
fail e c = raised e

infixl 5 ◌>>=◌ ◌>>◌
abbrev pub ◌>>=◌ {ℓ κ} : {A : Type ℓ} {B : Type κ} → Read A → (A → Read B) → Read B
◌>>=◌ p f c = Res.◌>>=◌ (p c) λ (a, c'). f a c'

abbrev pub ◌>>◌ {ℓ κ} : {A : Type ℓ} {B : Type κ} → Read A → Read B → Read B
p >> q = p >>= λ _. q

unfoldable pub next_byte : Bytes → ℕ → Result (ℕ × Cursor)
next_byte [] n = raised index_error
next_byte (b ∷ bs) n = ok (b, at_pos bs (n + 1))

-- Reader.byte
unfoldable pub byte : Read ℕ
unfolding next_byte
byte c = next_byte c.unread c.pos

-- The loop of Reader.varint over the bytes that it has not reached.
unfoldable pub varint_loop : Bytes → ℕ → ℕ → ℕ → Result (ℕ × Cursor)
varint_loop [] n out shift = raised index_error
varint_loop (b ∷ bs) n out shift =
    let out' = bit_or out (bit_and b 0x7f * 2 ^ shift) in
    let more = varint_loop bs (n + 1) out' (shift + 7) in
    if bit_and b 0x80 == 0 then ok (out', at_pos bs (n + 1)) else more

-- Reader.varint
unfoldable pub varint : Read ℕ
unfolding varint_loop
varint c = varint_loop c.unread c.pos 0 0

-- (v >> 1) ^ -(v & 1)
unfoldable pub unzigzag : ℕ → ℤ
unfolding xor_ℤ negate
unzigzag v = xor_ℤ (pos (v / 2 ^ 1)) (negate (pos (bit_and v 1)))

-- Reader.zigzag
unfoldable pub zigzag : Read ℤ
zigzag = do v ← varint; pure (unzigzag v)

-- self.pos += n; self.buf[self.pos - n:self.pos]
unfoldable pub slice : ℕ → Read Bytes
slice n c = ok (take n c.unread, at_pos (drop n c.unread) (c.pos + n))
