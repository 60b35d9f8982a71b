-- ===== src/BufRead.antt =====
-- zedio/io/impl/impl_buf_read.hpp and impl_async_read.hpp: readers with and without a buffer. The file
-- below them is a parameter.
pub mod Source
pub mod Fill
pub mod Read
pub mod Until
pub mod Lines
mod Tests
use zedlibs.Prelude.{
  ℕ, zero, suc, ◌+◌, ◌-◌, ◌≤◌, ◌≡◌, min, List, [], ◌∷◌, ◌++◌, length, take, drop, Option, none,
  some, Bool, true, false, leb, ltb, ◌==◌, ◌&&◌, ◌||◌, not, if◌then◌else◌,
}
use Prim.{tt}
use zedlibs.Prelude.Slices.{copy_to}
use zedlibs.Errors.{unexpected_eof}
use zedlibs.Buffer.{
  StreamBuffer, r_slice, r_remaining, w_remaining, r_increase, w_increase, reset_data, write_to,
  capacity, empty,
}
use zedlibs.BufWrite.System.{Failure, zedio, Outcome, done, failed}
use zedlibs.BufRead.Source.{Input}

module _ {ℓ} {A : Type ℓ} where
  -- `consume`
  unfoldable pub consume : StreamBuffer A → ℕ → Option (StreamBuffer A)
  consume b n = r_increase b (min n (r_remaining b))

  -- What a read into `w_slice()` leaves, with its `w_increase`.
  unfoldable pub fill : StreamBuffer A → List A → Option (StreamBuffer A)
  fill b l = w_increase (record b { buf = copy_to l b.buf b.w_pos }) (length l)

  -- The predicates of `read_exact` and of `read`; the flag is `eof_is_error`.
  unfoldable pub pred : Bool → ℕ → StreamBuffer A → Bool
  pred exact exact_bytes b = if exact then leb exact_bytes (r_remaining b) else not (empty b)

  abbrev pub compacted : StreamBuffer A → List A → StreamBuffer A
  compacted b dst = if ltb (w_remaining b) (length dst) then reset_data b else b

module _ {ℓ} {F A : Type ℓ} (file : Input F A) where
  -- `read_exact` of impl_async_read.hpp from the position `pos` of the span on, in at most so many
  -- rounds. `none` is that no round is left.
  unfoldable pub read_exact : ℕ → F → List A → ℕ → Option (F × List A × Outcome (Unit {ℓ}))
  read_exact zero f dst pos = if leb (length dst) pos then some (f, dst, done tt) else none
  read_exact (suc rounds) f dst pos =
      let (f', ret) = file.read f (length dst - pos) in
      if leb (length dst) pos then some (f, dst, done tt) else elim ret [
        | failed e ↦ some (f', dst, failed e)
        | done [] ↦ some (f', dst, failed (zedio unexpected_eof))
        | done (x ∷ l) ↦ read_exact rounds f' (copy_to (x ∷ l) dst pos) (pos + length (x ∷ l))
      ]

  unfoldable pub fill_buf : F → StreamBuffer A → Option (F × StreamBuffer A × Outcome (Unit {ℓ}))
  fill_buf f b =
      let (f', ret) = file.read f (w_remaining b) in
      elim ret [
        | failed e ↦ some (f', b, failed e)
        | done l ↦ elim (fill b l) [ none ↦ none | some b' ↦ some (f', b', done tt) ]
      ]

  -- `co_return r_stream_.write_to(buf)`
  unfoldable pub hand_out :
      F → StreamBuffer A → List A → Option (F × StreamBuffer A × List A × Outcome ℕ)
  hand_out f b dst = elim (write_to b dst) [
    | none ↦ none
    | some (b', dst', len) ↦ some (f, b', dst', done len)
  ]

  -- The loop of `real_read`.
  unfoldable pub read_loop :
      Bool → ℕ → ℕ → F → StreamBuffer A → List A → Option (F × StreamBuffer A × List A × Outcome ℕ)
  read_loop exact exact_bytes zero f b dst = none
  read_loop exact exact_bytes (suc rounds) f b dst =
      let (f', ret) = file.read f (w_remaining (compacted b dst)) in
      elim ret [
        | failed e ↦ some (f', compacted b dst, dst, failed e)
        | done l ↦ elim (fill (compacted b dst) l) [
          | none ↦ none
          | some b' ↦
              let next = read_loop exact exact_bytes rounds f' b' dst in
              if exact && (length l == 0)
              then some (f', b', dst, failed (zedio unexpected_eof))
              else if pred exact exact_bytes b' || (length l == 0)
              then hand_out f' b' dst
              else next
        ]
      ]

  -- From the test of the predicate on. A round for each byte of the buffer, and one more, is enough.
  unfoldable pub read_buffered :
      Bool → ℕ → F → StreamBuffer A → List A → Option (F × StreamBuffer A × List A × Outcome ℕ)
  read_buffered exact exact_bytes f b dst =
      let looped = read_loop exact exact_bytes (suc (capacity b)) f b dst in
      if pred exact exact_bytes b then hand_out f b dst else looped

  -- A front of the span that was filled, before the rest.
  abbrev pub behind :
      List A → F × StreamBuffer A × List A × Outcome ℕ → F × StreamBuffer A × List A × Outcome ℕ
  behind front (f, b, rest, ret) = (f, b, front ++ rest, ret)

  -- `real_read`. Where the span is larger than the buffer, a failed `read_exact` of its rest is not
  -- reported: the code goes on below.
  unfoldable pub real_read :
      Bool → F → StreamBuffer A → List A → Option (F × StreamBuffer A × List A × Outcome ℕ)
  real_read exact f b dst =
      let buffered = read_buffered exact (length dst) f b dst in
      if not (ltb (capacity b) (length dst)) then buffered else elim (write_to b dst) [
        | none ↦ none
        | some (b', dst', len) ↦
            let front = take len dst' in
            let rest = drop len dst' in
            let direct = file.read f (length rest) in
            if exact
            then elim (read_exact (length rest) f rest 0) [
              | none ↦ none
              | some (f', rest', done _) ↦ some (f', b', front ++ rest', done (len + length rest))
              | some (f', rest', failed _) ↦ elim (read_buffered exact (length dst) f' b' rest') [
                | none ↦ none
                | some out ↦ some (behind front out)
              ]
            ]
            else elim direct.1 [
              | failed e ↦ some (direct.0, b', dst', failed e)
              | done l ↦ some (direct.0, b', front ++ copy_to l rest 0, done (length l + len))
            ]
      ]
