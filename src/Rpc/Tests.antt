-- ===== src/Rpc/Tests.antt =====
-- Messages that meet the theorems' hypotheses, and runs of the codec.
use zedlibs.Prelude.{ℕ, ◌≡◌, ◌++◌, refl, List, [], ◌∷◌, replicate, some, arith}
use zedlibs.Prelude.Slices.{slice, copy_to}
use zedlibs.Rpc.{
  read_u32, write_u32, widen, write_to, encode, decode, expected, unexpected, insufficient_data,
  read_frame, reads, waiting, finished,
}
use zedlibs.Rpc.RoundTrip.{decode-encode}
use zedlibs.Rpc.Long.{decode-encode_long}

decode-encode_example : decode (encode (7 ∷ 200 ∷ []) ++ (1 ∷ [])) ≡ some (expected (7 ∷ 200 ∷ []))
decode-encode_example =
    decode-encode (7 ∷ 200 ∷ []) (1 ∷ []) (omega arith)
      (omega arith, omega arith, omega arith, omega arith)

abbrev long : List ℕ
long = replicate 130 65

decode-encode_long_example : decode (encode long ++ []) ≡ some (unexpected insufficient_data)
decode-encode_long_example = decode-encode_long long [] (omega arith) (omega arith)

abbrev frame : List ℕ
frame = 0 ∷ 0 ∷ 0 ∷ 2 ∷ 8 ∷ 9 ∷ []

encoded : encode (8 ∷ 9 ∷ []) ≡ frame
unfolding encode write_to write_u32
encoded = refl

in_one_read :
    read_frame (reads frame ∷ []) (replicate 8 0) 0 ≡ some (finished (expected (8 ∷ 9 ∷ [])))
unfolding read_frame decode read_u32 widen copy_to slice
in_one_read = refl

-- The second read is written over the first: the length is then that of other characters.
in_two_reads :
    read_frame (reads (0 ∷ 0 ∷ 0 ∷ 2 ∷ []) ∷ reads (8 ∷ 9 ∷ []) ∷ []) (replicate 8 0) 0
    ≡ some waiting
unfolding read_frame decode read_u32 widen copy_to slice
in_two_reads = refl
