-- ===== src/Rpc/Long.antt =====
-- A length whose last byte is 128 or more.
use zedlibs.Prelude.{
  ℕ, ◌+◌, ◌-◌, ◌/◌, ◌%◌, ◌^◌, ◌≤◌, ◌<◌, ◌≡◌, refl, ap, ◌∙◌, List, ◌++◌, append_assoc, length,
  length-append, some, true, false, ltb, arith,
}
use Prim.Native.Nat.{bit_or}
use zedlibs.Rpc.{
  widen, shifted, read_u32, write_u32, unexpected, insufficient_data, encode, decode, write_to,
}
use zedlibs.Bits.{bit_or_above}
use zedlibs.Rpc.RoundTrip.{encode_lem}

widen_high : (c : ℕ) → 128 ≤ c → c < 256 → 2 ^ 32 - 128 ≤ widen c
unfolding widen
widen_high c h p = ground (arith, h)

-- What is read then is at least 2^32 - 128.
read_high :
    (value : ℕ) (rest : List ℕ)
    → 128 ≤ value % 256
    → (read : ℕ) × (read_u32 (write_u32 value ++ rest) ≡ some read) × (2 ^ 32 - 128 ≤ read)
unfolding read_u32 write_u32
read_high value rest h =
    let upper : ℕ =
      bit_or (bit_or (shifted (value / 2 ^ 24 % 256) 24) (shifted (value / 2 ^ 16 % 256) 16))
        (shifted (value / 2 ^ 8 % 256) 8) in
    (
      bit_or upper (widen (value % 256)),
      refl,
      omega (
        arith,
        bit_or_above upper upper (widen (value % 256)) (omega arith),
        widen_high (value % 256) h (omega arith),
      ),
    )

-- A message whose length has a last byte of 128 or more is never decoded: its encoding, with any
-- characters behind it, is taken for one that is not complete, as long as fewer than 2^32 - 128
-- characters stand behind the length.
pub decode-encode_long :
    (payload rest : List ℕ)
    → 128 ≤ length payload % 256
    → length payload + length rest < 2 ^ 32 - 128
    → decode (encode payload ++ rest) ≡ some (unexpected insufficient_data)
unfolding decode encode write_to write_u32
decode-encode_long payload rest high small =
    let bytes : List ℕ = write_u32 (length payload) ++ (payload ++ rest) in
    let same : encode payload ++ rest ≡ bytes =
      ap (λ l. l ++ rest) (encode_lem payload (omega (arith, small)))
      ∙ append_assoc (write_u32 (length payload)) payload rest in
    let size : length bytes ≡ 4 + length payload + length rest =
      length-append (write_u32 (length payload)) (payload ++ rest)
      ∙ omega (arith, length-write_u32 (length payload), length-append payload rest) in
    let (read, found, large) = read_high (length payload) (payload ++ rest) high in
    let enough : ltb (length bytes) 4 ≡ false = ground (arith, size) in
    let short : ltb (length bytes - 4) read ≡ true = ground (arith, size, large, small) in
    rw same (rw (enough, found) (rw short refl))
  where
    length-write_u32 : (value : ℕ) → length (write_u32 value) ≡ 4
    length-write_u32 value = unfold write_u32 in refl
