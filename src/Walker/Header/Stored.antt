-- ===== src/Walker/Header/Stored.antt =====
-- A filter that is stored with the header of the Parquet format is loaded.
use zpq.Common.{
  ℕ, zero, suc, ◌+◌, ◌-◌, ◌%◌, List, ◌&&◌, ◌^◌, ◌<◌, ◌≤◌, ◌≡◌, refl, ap, sym, ◌∙◌, subst, Option,
  [], ◌∷◌, ◌++◌, append_assoc, arith,
}
use zpq.Common.Tests.{leb, if◌then◌else◌}
use zpq.Common.Lists.{All, length, take, drop, length-append, length-take, drop-append}
use zpq.Common.Int.{ℤ, pos}
use zpq.Common.Result.{ok, raised, assertion_error, ok-injective}
use zpq.Thrift.Value.{Bytes}
use zpq.Thrift.Cursor.{at_pos, zigzag, byte}
use zpq.Thrift.Reads.{Reads}
use zpq.Thrift.Writer.{write_zigzag}
use zpq.Thrift.Numbers.{write_zigzag-Reads}
use zpq.Walker.Agreement.{zigzag-agrees}
use zpq.Walker.Header.{
  expect, expect_byte, union_field, size_field, header_field, header_loop, is_in, all_in, same_ids,
  whole_blocks, parse_header, length_agrees, load,
}

abbrev pub unions : Bytes
unions = 0x1c ∷ 0x1c ∷ 0 ∷ 0 ∷ 0x1c ∷ 0x1c ∷ 0 ∷ 0 ∷ 0x1c ∷ 0x1c ∷ 0 ∷ 0 ∷ 0 ∷ []

-- numBytes as an i32 field, and the unions for the algorithm, the hash and the compression, each with member 1.
abbrev pub header_of : Bytes → Bytes
header_of number = 0x15 ∷ (number ++ unions)

-- The fields behind the number.
unions_loop :
    (rounds : ℕ) (n : ℤ) (rest : Bytes) (at : ℕ)
    → header_loop
        (suc (suc (suc (suc rounds))))
        1
        (Option.some n, [])
        (at_pos (0x1c ∷ 0x1c ∷ 0 ∷ 0 ∷ 0x1c ∷ 0x1c ∷ 0 ∷ 0 ∷ 0x1c ∷ 0x1c ∷ 0 ∷ 0 ∷ 0 ∷ rest) at)
      ≡ ok ((Option.some n, 4 ∷ 3 ∷ 2 ∷ []), at_pos rest (at + 13))
unfolding header_loop header_field union_field expect expect_byte byte
unions_loop rounds n rest at =
    ap (λ (m : ℕ). ok ((Option.some n, 4 ∷ 3 ∷ 2 ∷ []), at_pos rest m)) (omega arith)

-- The whole loop, from the first byte.
header_loop-stored :
    (number rest : Bytes) (n : ℤ) (rounds : ℕ)
    → All (λ b. b < 256) (number ++ (unions ++ rest))
    → Reads zigzag number n
    → header_loop
        (suc (suc (suc (suc (suc rounds)))))
        0
        (Option.none, [])
        (at_pos (0x15 ∷ (number ++ (unions ++ rest))) 0)
      ≡ ok ((Option.some n, 4 ∷ 3 ∷ 2 ∷ []), at_pos rest (length number + 14))
unfolding header_loop header_field size_field expect byte
header_loop-stored number rest n rounds h reads =
    let (walked, bytes') =
      zigzag-agrees (at_pos (number ++ (unions ++ rest)) 1) h (reads.run (unions ++ rest) 1) in
    let places : 1 + length number + 13 ≡ length number + 14 = omega arith in
    rw walked (
      unions_loop rounds n rest (1 + length number)
      ∙ ap (λ (m : ℕ). ok ((Option.some n, 4 ∷ 3 ∷ 2 ∷ []), at_pos rest m)) places)

take-append_more {ℓ} :
    {A : Type ℓ} (n : ℕ) (xs ys : List A)
    → length xs ≤ n
    → take n (xs ++ ys) ≡ xs ++ take (n - length xs) ys
take-append_more n [] ys h = ap (λ (m : ℕ). take m ys) (omega arith)
take-append_more zero (x ∷ xs) ys h = absurd (omega arith)
take-append_more (suc n) (x ∷ xs) ys h =
    let fewer : n - length xs ≡ suc n - suc (length xs) = omega arith in
    rw (take-append_more n xs ys (omega arith), fewer) refl

All-take {ℓ κ} : {A : Type ℓ} (P : A → Type κ) (n : ℕ) (xs : List A) → All P xs → All P (take n xs)
All-take P zero xs h = tt
All-take P (suc n) [] h = tt
All-take P (suc n) (x ∷ xs) (p, h) = (p, All-take P n xs h)

whole_blocks-blocks : (n : ℕ) → 0 < n → n % 32 ≡ 0 → whole_blocks (Option.some (pos n)) ≡ ok n
unfolding whole_blocks
whole_blocks-blocks n some_block blocks = ground arith

-- Whatever follows the header, its number and its length are found.
parse_header-stored :
    (number rest : Bytes) (n : ℕ)
    → All (λ b. b < 256) (header_of number ++ rest)
    → Reads zigzag number (pos n)
    → 0 < n
    → n % 32 ≡ 0
    → parse_header (header_of number ++ rest) ≡ ok (n, length (header_of number))
unfolding parse_header same_ids all_in is_in
parse_header-stored number rest n h reads some_block blocks =
    let behind : (number ++ unions) ++ rest ≡ number ++ (unions ++ rest) =
      append_assoc number unions rest in
    let tail_bytes = subst (All (λ b. b < 256)) behind h.1 in
    let long : length ((number ++ unions) ++ rest)
        ≡ suc (suc (suc (suc (length number + length rest + 9)))) =
      omega (arith, length-append number unions, length-append (number ++ unions) rest) in
    let loop =
      header_loop-stored number rest (pos n) (suc (length number + length rest + 9)) tail_bytes
        reads in
    let places : length (number ++ unions) ≡ length number + 13 =
      omega (arith, length-append number unions) in
    rw (long, behind, loop, whole_blocks-blocks n some_block blocks, places)
      (ap (λ (m : ℕ). ok (n, m)) (omega arith))

-- The bitset is cut out behind the header.
bits_behind :
    (front number tail : Bytes)
    → drop (length front + length (header_of number)) (front ++ (header_of number ++ tail)) ≡ tail
bits_behind front number tail =
    rw (← append_assoc front (header_of number) tail, ← length-append front (header_of number))
      (drop-append (front ++ header_of number) tail)

-- What load does where the header gives n and its length.
load-parsed :
    (file tail : Bytes) (offset n size : ℕ) (given : Option ℕ)
    → parse_header (take 64 (drop offset file)) ≡ ok (n, size)
    → drop (offset + size) file ≡ tail
    → load file offset given ≡ (
        if length_agrees given (size + n) && leb n (length tail)
        then ok (take n tail)
        else raised assertion_error)
unfolding load
load-parsed file tail offset n size given parsed behind =
    rw (parsed, behind) (ground (arith, length-take n tail))

-- A filter of n bytes, a positive multiple of 32 below 2^63, whose header is as the format says and at most 64
-- bytes long: load finds it wherever it stands in the file. It gives the n bytes behind the header where the
-- footer's length, if there is one, is the header's and n, and the file goes on for n bytes; else it asserts.
pub load-stored :
    (front number tail : Bytes) (n : ℕ) (size : Option ℕ)
    → write_zigzag (pos n) ≡ ok number
    → n < 2 ^ 63
    → 0 < n
    → n % 32 ≡ 0
    → length (header_of number) ≤ 64
    → All (λ b. b < 256) (header_of number ++ tail)
    → load (front ++ (header_of number ++ tail)) (length front) size ≡ (
        if length_agrees size (length (header_of number) + n) && leb n (length tail)
        then ok (take n tail)
        else raised assertion_error)
load-stored front number tail n size written small some_block blocks short h =
    let (bs, written', pos_length, reads) = write_zigzag-Reads (pos n) (small, omega arith) in
    let same : bs ≡ number = ok-injective (sym written' ∙ written) in
    let head : take 64 (header_of number ++ tail)
        ≡ header_of number ++ take (64 - length (header_of number)) tail =
      take-append_more 64 (header_of number) tail short in
    let parsed =
      parse_header-stored number (take (64 - length (header_of number)) tail) n
        (subst (All (λ b. b < 256)) head (All-take (λ b. b < 256) 64 (header_of number ++ tail) h))
        (subst (λ bs. Reads zigzag bs (pos n)) same reads) some_block blocks in
    load-parsed (front ++ (header_of number ++ tail)) tail (length front) n
      (length (header_of number)) size
      (ap (λ bs. parse_header (take 64 bs)) (drop-append front (header_of number ++ tail))
        ∙ ap parse_header head
        ∙ parsed)
      (bits_behind front number tail)
