-- ===== src/Walker/Header.antt =====
-- tools/check/readback.py, parse_header and load: the header of a Bloom filter, and the bitset behind it.
pub mod Stored
use zpq.Common.{
  ℕ, zero, suc, ◌+◌, ◌/◌, ◌%◌, ◌^◌, Bool, true, false, not, ◌&&◌, ◌||◌, Option, none, some, List,
  [], ◌∷◌, bit_and,
}
use zpq.Common.Tests.{ltb, ◌==◌, if◌then◌else◌}
use zpq.Common.Lists.{length, take, drop}
use zpq.Common.Int.{ℤ, pos, negsuc}
use zpq.Common.Result.{Result, ok, raised, out_of_fuel, guard, assertion_error, type_error}
use zpq.Common.Result as Res
use zpq.Thrift.Value.{Bytes}
use zpq.Thrift.Cursor.{Cursor, Read, pure, ◌>>=◌, ◌>>◌, byte, at_pos}
use zpq.Walker.{walk_zigzag}

-- assert test
unfoldable pub expect : Bool → Read (Unit {0})
expect test c = Res.◌>>=◌ (guard test assertion_error) λ u. ok (tt, c)

-- b[i] == n, of the next byte
unfoldable pub expect_byte : ℕ → Read (Unit {0})
unfolding expect
expect_byte n = do b ← byte; expect (b == n)

-- nbytes and the members of `seen`
abbrev pub Noted : Type 0
Noted = Option ℤ × List ℕ

-- A union with one member, field 1, an empty struct.
unfoldable pub union_field : ℕ → Noted → Read Noted
unfolding expect expect_byte
union_field fid (n, seen) = do expect_byte 0x1c; expect_byte 0; expect_byte 0; pure (n, fid ∷ seen)

unfoldable pub size_field : Noted → Read Noted
unfolding expect
size_field (n, seen) = do z ← walk_zigzag; pure (some z, seen)

-- A field, by its id and tag.
unfoldable pub header_field : ℕ → ℕ → Noted → Read Noted
unfolding union_field size_field expect
header_field fid t found =
    if fid == 1
    then (do expect (t == 5); size_field found)
    else (do expect (t == 12); union_field fid found)

-- while True, from the id of the field before
unfoldable pub header_loop : ℕ → ℕ → Noted → Read Noted
unfolding header_field expect
header_loop zero last found = λ c. out_of_fuel
header_loop (suc rounds) last found = do
  h ← byte
  if h == 0 then pure found else do
    expect (not (h / 2 ^ 4 == 0))
    found' ← header_field (last + h / 2 ^ 4) (bit_and h 0xf) found
    header_loop rounds (last + h / 2 ^ 4) found'

unfoldable pub is_in : ℕ → List ℕ → Bool
is_in n [] = false
is_in n (m ∷ ms) = n == m || is_in n ms

unfoldable pub all_in : List ℕ → List ℕ → Bool
unfolding is_in
all_in [] ns = true
all_in (m ∷ ms) ns = is_in m ns && all_in ms ns

abbrev pub union_ids : List ℕ
union_ids = 2 ∷ 3 ∷ 4 ∷ []

-- seen == {2, 3, 4}
unfoldable pub same_ids : List ℕ → Bool
unfolding all_in
same_ids seen = all_in seen union_ids && all_in union_ids seen

-- nbytes > 0 and nbytes % 32 == 0; None is not ordered.
unfoldable pub whole_blocks : Option ℤ → Result ℕ
whole_blocks none = raised type_error
whole_blocks (some (pos n)) = if ltb 0 n && (n % 32 == 0) then ok n else raised assertion_error
whole_blocks (some (negsuc n)) = raised assertion_error

-- parse_header: the number of bytes of the bitset, and the length of the header
unfoldable pub parse_header : Bytes → Result (ℕ × ℕ)
parse_header b =
    Res.◌>>=◌ (header_loop (suc (length b)) 0 (none, []) (at_pos b 0)) λ ((nbytes, seen), c).
      Res.◌>>◌ (guard (same_ids seen) assertion_error)
        (Res.◌>>=◌ (whole_blocks nbytes) λ n. ok (n, c.pos))

-- length is None or length == n
abbrev pub length_agrees : Option ℕ → ℕ → Bool
length_agrees none n = true
length_agrees (some l) n = l == n

-- load, of the bytes of the file
unfoldable pub load : Bytes → ℕ → Option ℕ → Result Bytes
load file offset size = Res.◌>>=◌ (parse_header (take 64 (drop offset file))) λ (n, hl).
    let bits = take n (drop (offset + hl) file) in
    Res.◌>>◌ (guard (length_agrees size (hl + n)) assertion_error)
      (Res.◌>>◌ (guard (length bits == n) assertion_error) (ok bits))
