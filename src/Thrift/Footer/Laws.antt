-- ===== src/Thrift/Footer/Laws.antt =====
-- What `rewrite_footer` writes is read back.
use zpq.Common.{ℕ, ◌+◌, ◌/◌, ◌%◌, ◌^◌, ◌<◌, ◌≡◌, refl, ap, true, [], ◌∷◌, ◌++◌, append_assoc, arith}
use zpq.Common.Tests.{lt→ltb}
use zpq.Common.Lists.{length, length-append}
use zpq.Common.Slices.{
  slice, slice_from, slice_to, slice-append, slice_from-append, slice_to-append,
}
use zpq.Common.Int.{pos, negsuc, ◌-ℤ◌, int_laws}
use zpq.Common.Result.{Result, ok}
use zpq.Thrift.Value.{Bytes, Value, t_struct}
use zpq.Thrift.Reader.{decode}
use zpq.Thrift.Writer.{encode}
use zpq.Thrift.Canonical.{Fits, canonical}
use zpq.Thrift.RoundTrip.{decode-encode}
use zpq.Thrift.Footer.{
  magic, bytes_eq, pack_u32, unpack_u32, read_footer, write_footer, rewrite_footer,
}

pub bytes_eq_refl : (bs : Bytes) → bytes_eq bs bs ≡ true
unfolding bytes_eq
bytes_eq_refl [] = refl
bytes_eq_refl (b ∷ bs) = ground (arith, bytes_eq_refl bs)

-- A length below 2 ^ 32 is packed into four bytes, which unpack to it.
unpack-pack :
    (n : ℕ)
    → n < 2 ^ 32
    → (bs : Bytes) × (pack_u32 n ≡ ok bs) × (length bs ≡ 4) × (unpack_u32 bs ≡ ok n)
unfolding pack_u32 unpack_u32
unpack-pack n h = (
  n % 256 ∷ n / 2 ^ 8 % 256 ∷ n / 2 ^ 16 % 256 ∷ n / 2 ^ 24 ∷ [],
  rw (lt→ltb n (2 ^ 32) h),
  refl,
  ap ok (omega arith),
)

start_lem : (b f l : ℕ) → b + f + 8 ≡ l → pos l -ℤ pos 8 -ℤ pos f ≡ pos b
start_lem b f l h = omega int_laws

stop_lem : (b f l : ℕ) → b + f + 8 ≡ l → pos l -ℤ pos 8 ≡ pos (b + f)
stop_lem b f l h = omega int_laws

-- A file of a body, a footer, its packed length and the magic.
file : Bytes → Bytes → Bytes → Bytes
file body footer len = body ++ (footer ++ (len ++ magic))

module _ (body footer len : Bytes) (four : length len ≡ 4) where
  length-file : length body + length footer + 8 ≡ length (file body footer len)
  unfolding file
  length-file = omega (
    arith,
    length-append body (footer ++ (len ++ magic)),
    length-append footer (len ++ magic),
    length-append len magic,
  )

  tail_magic : slice_from (negsuc 3) (file body footer len) ≡ magic
  unfolding file
  tail_magic =
      rw (← append_assoc footer, ← append_assoc body)
        (slice_from-append (negsuc 3) (body ++ (footer ++ len)) magic
          (omega (arith, length-append (body ++ (footer ++ len)) magic)))

  length_bytes : slice (negsuc 7) (negsuc 3) (file body footer len) ≡ len
  unfolding file
  length_bytes = rw (← append_assoc body) (
      slice-append (negsuc 7) (negsuc 3) (body ++ footer) len magic
        (omega (arith, length-append (body ++ footer) (len ++ magic), length-append len magic))
        (omega (arith, length-append (body ++ footer) (len ++ magic), length-append len magic)))

  footer_bytes :
      slice (pos (length body)) (pos (length body + length footer)) (file body footer len) ≡ footer
  unfolding file
  footer_bytes =
      slice-append _ _ body footer (len ++ magic) (omega (arith, length-file))
        (omega (arith, length-file))

  body_bytes : slice_to (pos (length body)) (file body footer len) ≡ body
  unfolding file
  body_bytes = slice_to-append _ body (footer ++ (len ++ magic)) (omega (arith, length-file))

head_magic : (rest footer len : Bytes) → slice_to (pos 4) (file (magic ++ rest) footer len) ≡ magic
unfolding file
head_magic rest footer len =
    slice_to-append (pos 4) magic (rest ++ (footer ++ (len ++ magic))) (omega arith)

decode-encode_eq :
    (t : ℕ) (v : Value) (bs : Bytes)
    → Fits t v
    → encode t v ≡ ok bs
    → decode t bs ≡ ok (canonical v)
decode-encode_eq t v bs fits e =
    let (cs, written, back, _) = decode-encode t v fits in
    let same : cs ≡ bs = cc in rw same at back

-- The parts of such a file, as `read_footer` cuts them out.
read_footer-file :
    (meta : Value) (rest footer len : Bytes)
    → length len ≡ 4
    → unpack_u32 len ≡ ok (length footer)
    → decode t_struct footer ≡ ok meta
    → read_footer (file (magic ++ rest) footer len) ≡ ok (meta, magic ++ rest)
unfolding read_footer
read_footer-file meta rest footer len four unpacked decoded =
    let total = length-file (magic ++ rest) footer len four in
    let from = start_lem (length (magic ++ rest)) (length footer) _ total in
    let to = stop_lem (length (magic ++ rest)) (length footer) _ total in
    rw (
      head_magic rest footer len,
      tail_magic (magic ++ rest) footer len four,
      length_bytes (magic ++ rest) footer len four,
      unpacked,
      bytes_eq_refl magic,
      from,
      to,
      footer_bytes (magic ++ rest) footer len four,
      decoded,
      body_bytes (magic ++ rest) footer len four,
    )

write_footer-reads :
    (meta : Value) (rest footer : Bytes)
    → Fits t_struct meta
    → encode t_struct meta ≡ ok footer
    → length footer < 2 ^ 32
    → (out : Bytes) × (write_footer meta (magic ++ rest) ≡ ok out)
      × (read_footer out ≡ ok (canonical meta, magic ++ rest))
unfolding write_footer file
write_footer-reads meta rest footer fits written h =
    let (len, packed, four, unpacked) = unpack-pack (length footer) h in
    let decoded = decode-encode_eq t_struct meta footer fits written in
    (
      file (magic ++ rest) footer len,
      rw (written, packed),
      read_footer-file (canonical meta) rest footer len four unpacked decoded,
    )

-- Where a file has a footer and the edit leaves metadata that fits its types, over a body that still
-- starts with the magic, and the new footer is shorter than 4 GiB, the rewrite succeeds, and the new
-- file's footer reads as the edited metadata in canonical form over the edited body.
pub rewrite_footer-reads :
    (edit : Value → Bytes → Result (Value × Bytes)) (old : Bytes) (meta meta' : Value)
    (body rest footer : Bytes)
    → read_footer old ≡ ok (meta, body)
    → edit meta body ≡ ok (meta', magic ++ rest)
    → Fits t_struct meta'
    → encode t_struct meta' ≡ ok footer
    → length footer < 2 ^ 32
    → (new : Bytes) × (rewrite_footer edit old ≡ ok new)
      × (read_footer new ≡ ok (canonical meta', magic ++ rest))
unfolding rewrite_footer
rewrite_footer-reads edit old meta meta' body rest footer was edited fits written h =
    let (new, made, back) = write_footer-reads meta' rest footer fits written h in
    (new, rw (was, edited) made, back)
