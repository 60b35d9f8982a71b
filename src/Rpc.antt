-- ===== src/Rpc.antt =====
-- examples/rpc_examples/rpc_util.hpp: the frames of the example programs, a length and a payload. A
-- character is a byte, and `char` is signed, as it is on x86-64.

pub mod RoundTrip
pub mod Long
mod Tests
use zedlibs.Prelude.{
  ℕ, ◌+◌, ◌-◌, ◌*◌, ◌/◌, ◌%◌, ◌^◌, List, [], ◌∷◌, ◌++◌, length, take, drop, Option, none, some,
  Bool, true, false, ltb, if◌then◌else◌,
}
use Prim.Native.Nat.{bit_or}
use zedlibs.Prelude.Slices.{slice, copy_to}

abbrev pub fixed_len : ℕ
fixed_len = 4

-- `static_cast<uint32_t>` of a `char`: the sign is extended.
unfoldable pub widen : ℕ → ℕ
widen c = if ltb c 128 then c else c + 2 ^ 32 - 256

-- `static_cast<uint32_t>(…) << shift`
abbrev pub shifted : ℕ → ℕ → ℕ
shifted c shift = widen c * 2 ^ shift % 2 ^ 32

-- `none` is an access out of range.
unfoldable pub read_u32 : List ℕ → Option ℕ
read_u32 (c0 ∷ c1 ∷ c2 ∷ c3 ∷ bytes) =
    some (bit_or (bit_or (bit_or (shifted c0 24) (shifted c1 16)) (shifted c2 8)) (widen c3))
read_u32 bytes = none

unfoldable pub write_u32 : ℕ → List ℕ
write_u32 value =
    (value / 2 ^ 24 % 256) ∷ (value / 2 ^ 16 % 256) ∷ (value / 2 ^ 8 % 256) ∷ (value % 256) ∷ []

pub data RpcErrorCode : Type 0 where
  insufficient_data connect_failed read_eof read_failed write_failed : RpcErrorCode
  read_frame_failed write_frame_failed unregistered_method : RpcErrorCode

-- The enumerators count up from 9000.
unfoldable pub rpc_value : RpcErrorCode → ℕ
rpc_value insufficient_data = 9000
rpc_value connect_failed = 9001
rpc_value read_eof = 9002
rpc_value read_failed = 9003
rpc_value write_failed = 9004
rpc_value read_frame_failed = 9005
rpc_value write_frame_failed = 9006
rpc_value unregistered_method = 9007

pub data RpcResult {ℓ} (A : Type ℓ) : Type ℓ where
  expected : A → RpcResult A
  unexpected : RpcErrorCode → RpcResult A

-- `write_to` of a message with this payload; the length is a `uint32_t`.
unfoldable pub write_to : List ℕ → List ℕ → List ℕ
write_to payload buf = buf ++ (write_u32 (length payload % 2 ^ 32) ++ payload)

unfoldable pub encode : List ℕ → List ℕ
encode payload = write_to payload []

-- The payload. The outer `none` is an access out of range.
unfoldable pub decode : List ℕ → Option (RpcResult (List ℕ))
decode buf =
    if ltb (length buf) fixed_len
    then some (unexpected insufficient_data)
    else elim (read_u32 buf) [
      | none ↦ none
      | some len ↦
          if ltb (length buf - fixed_len) len
          then some (unexpected insufficient_data)
          else some (expected (take len (drop fixed_len buf)))
    ]

-- What a call of the stream's `read` returns: an error, or the characters that it has written to the
-- front of the span that it was given, none of them at the end of the stream.
pub data Reading : Type 0 where
  broken : Reading
  reads : List ℕ → Reading

-- What `read_frame` has come to when the stream has given these answers.
pub data Framing : Type 0 where
  waiting : Framing
  finished : RpcResult (List ℕ) → Framing

-- The loop of `read_frame`: the span is the whole buffer each time. `none` is a span out of range.
unfoldable pub read_frame : List Reading → List ℕ → ℕ → Option Framing
read_frame [] buf nbytes = some waiting
read_frame (broken ∷ readings) buf nbytes = some (finished (unexpected read_failed))
read_frame (reads [] ∷ readings) buf nbytes = some (finished (unexpected read_eof))
read_frame (reads (c ∷ chars) ∷ readings) buf nbytes =
    let buf' = copy_to (c ∷ chars) buf 0 in
    let nbytes' : ℕ = nbytes + length (c ∷ chars) in
    let next = read_frame readings buf' nbytes' in
    if ltb (length buf) nbytes' then none else elim (decode (slice buf' 0 nbytes')) [
      | none ↦ none
      | some (unexpected insufficient_data) ↦ next
      | some result ↦ some (finished result)
    ]
