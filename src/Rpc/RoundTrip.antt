-- ===== src/Rpc/RoundTrip.antt =====
-- A frame is read as it was written.
use zedlibs.Prelude.{
  ℕ, ◌+◌, ◌-◌, ◌*◌, ◌/◌, ◌%◌, ◌^◌, ◌≤◌, ◌<◌, ◌≡◌, refl, sym, ap, ap₂, ◌∙◌, List, [], ◌∷◌, ◌++◌,
  append-nil, append_assoc, length, length-append, take, drop, take-append_length, some, false, ltb,
  arith,
}
use Prim.Native.Nat.{bit_or}
use zedlibs.Rpc.{
  widen, shifted, read_u32, write_u32, expected, write_to, encode, decode, Reading, reads, finished,
  read_frame,
}
use zedlibs.Prelude.Slices.{slice, slice_empty, copy_to, slice-copy_to}
use zedlibs.Bits.{bit_or_disjoint}

-- Each byte of the word is a character that is not negative.
abbrev pub IsAscii : ℕ → Type 0
IsAscii value =
    (value / 2 ^ 24 % 256 < 128)
    × (value / 2 ^ 16 % 256 < 128)
    × (value / 2 ^ 8 % 256 < 128)
    × (value % 256 < 128)

widen_lem : (c : ℕ) → c < 128 → widen c ≡ c
unfolding widen
widen_lem c h = ground (arith, h)

shifted_lem : (c shift : ℕ) → c < 128 → c * 2 ^ shift < 2 ^ 32 → shifted c shift ≡ c * 2 ^ shift
shifted_lem c shift h small = rw (widen_lem c h) (omega (arith, small))

joined_lem :
    (c0 c1 c2 c3 : ℕ)
    → c0 < 128
    → c1 < 128
    → c2 < 128
    → c3 < 128
    → bit_or (bit_or (bit_or (shifted c0 24) (shifted c1 16)) (shifted c2 8)) (widen c3)
      ≡ c0 * 2 ^ 24 + c1 * 2 ^ 16 + c2 * 2 ^ 8 + c3
joined_lem c0 c1 c2 c3 h0 h1 h2 h3 =
    let first = bit_or_disjoint 24 c0 (c1 * 2 ^ 16) (omega (arith, h1)) in
    let second = bit_or_disjoint 16 (c0 * 2 ^ 8 + c1) (c2 * 2 ^ 8) (omega (arith, h2)) in
    let third = bit_or_disjoint 8 (c0 * 2 ^ 16 + c1 * 2 ^ 8 + c2) c3 (omega (arith, h3)) in
    let two : c0 * 2 ^ 24 + c1 * 2 ^ 16 ≡ (c0 * 2 ^ 8 + c1) * 2 ^ 16 = omega arith in
    let three : (c0 * 2 ^ 8 + c1) * 2 ^ 16 + c2 * 2 ^ 8 ≡ (c0 * 2 ^ 16 + c1 * 2 ^ 8 + c2) * 2 ^ 8 =
      omega arith in
    ap₂ bit_or
      (ap₂ bit_or
          (ap₂ bit_or (shifted_lem c0 24 h0 (omega (arith, h0)))
              (shifted_lem c1 16 h1 (omega (arith, h1)))
            ∙ first
            ∙ two)
          (shifted_lem c2 8 h2 (omega (arith, h2)))
        ∙ second
        ∙ three)
      (widen_lem c3 h3)
    ∙ third
    ∙ omega arith

pub read_u32-write_u32 :
    (value : ℕ) (rest : List ℕ)
    → value < 2 ^ 32
    → IsAscii value
    → read_u32 (write_u32 value ++ rest) ≡ some value
unfolding read_u32 write_u32
read_u32-write_u32 value rest small (h0, h1, h2, h3) =
    ap (λ v. some v)
      (joined_lem (value / 2 ^ 24 % 256) (value / 2 ^ 16 % 256) (value / 2 ^ 8 % 256) (value % 256)
          h0 h1 h2 h3
        ∙ omega (arith, small))

length-write_u32 : (value : ℕ) → length (write_u32 value) ≡ 4
unfolding write_u32
length-write_u32 value = refl

pub encode_lem :
    (payload : List ℕ)
    → length payload < 2 ^ 32
    → encode payload ≡ write_u32 (length payload) ++ payload
unfolding encode write_to
encode_lem payload small =
    let whole : length payload % 2 ^ 32 ≡ length payload = omega (arith, small) in rw whole refl

-- The bytes behind the length.
drop-write_u32 : (value : ℕ) (l : List ℕ) → drop 4 (write_u32 value ++ l) ≡ l
unfolding write_u32
drop-write_u32 value l = refl

-- A message whose length fits into 32 bits and has no byte of 128 or more is decoded, from its encoding
-- with any characters behind it, as it was.
pub decode-encode :
    (payload rest : List ℕ)
    → length payload < 2 ^ 32
    → IsAscii (length payload)
    → decode (encode payload ++ rest) ≡ some (expected payload)
unfolding decode encode write_to write_u32
decode-encode payload rest small ascii =
    let bytes : List ℕ = write_u32 (length payload) ++ (payload ++ rest) in
    let same : encode payload ++ rest ≡ bytes =
      ap (λ l. l ++ rest) (encode_lem payload small)
      ∙ append_assoc (write_u32 (length payload)) payload rest in
    let size : length bytes ≡ 4 + length payload + length rest =
      length-append (write_u32 (length payload)) (payload ++ rest)
      ∙ omega (arith, length-write_u32 (length payload), length-append payload rest) in
    let enough : ltb (length bytes) 4 ≡ false = ground (arith, size) in
    let complete : ltb (length bytes - 4) (length payload) ≡ false = ground (arith, size) in
    rw same (
      rw (enough, read_u32-write_u32 (length payload) (payload ++ rest) small ascii)
        (rw complete (
          ap (λ l. some (expected (take (length payload) l)))
            (drop-write_u32 (length payload) (payload ++ rest))
          ∙ ap (λ l. some (expected l)) (take-append_length payload rest))))

front_lem :
    (chars buf : List ℕ)
    → length chars ≤ length buf
    → slice (copy_to chars buf 0) 0 (0 + length chars) ≡ chars
front_lem chars buf h =
    slice-copy_to chars buf 0 0 (omega arith) (omega (arith, h))
    ∙ ap (λ l. l ++ chars) (slice_empty buf 0 0 (omega arith))

one_read :
    (c : ℕ) (chars buf payload : List ℕ) (readings : List Reading)
    → decode (c ∷ chars) ≡ some (expected payload)
    → length (c ∷ chars) ≤ length buf
    → read_frame (reads (c ∷ chars) ∷ readings) buf 0 ≡ some (finished (expected payload))
unfolding read_frame
one_read c chars buf payload readings decoded fits =
    let inside : ltb (length buf) (0 + length (c ∷ chars)) ≡ false = ground (arith, fits) in
    rw inside (rw (front_lem (c ∷ chars) buf fits) (rw decoded refl))

-- A frame that one read delivers whole, into a buffer that can take it, is what read_frame returns, if
-- the length fits into 32 bits and has no byte of 128 or more.
pub read_frame-encode :
    (payload buf : List ℕ) (readings : List Reading)
    → length payload < 2 ^ 32
    → IsAscii (length payload)
    → length payload + 4 ≤ length buf
    → read_frame (reads (encode payload) ∷ readings) buf 0 ≡ some (finished (expected payload))
unfolding encode write_to write_u32
read_frame-encode payload buf readings small ascii fits =
    let decoded : decode (encode payload) ≡ some (expected payload) =
      ap decode (sym (append-nil (encode payload))) ∙ decode-encode payload [] small ascii in
    one_read _ _ buf payload readings decoded (omega (arith, fits))
