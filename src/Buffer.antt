-- ===== src/Buffer.antt =====
-- zedio/io/buf/buffer.hpp: the buffer of the buffered readers and writers. The data that can be read
-- stand in `buf_` from `r_pos_` up to `w_pos_`.
pub mod Bytes
pub mod Find
mod Tests
use zedlibs.Prelude.{
  ℕ, ◌+◌, ◌-◌, ◌%◌, ◌^◌, List, [], length, replicate, take, min, Option, none, some, Bool, ◌==◌,
  leb, if◌then◌else◌,
}
use zedlibs.Prelude.Slices.{slice, copy_to}

pub record StreamBuffer {ℓ} (A : Type ℓ) : Type ℓ where
  pub r_pos : ℕ
  pub w_pos : ℕ
  pub buf : List A

module _ {ℓ} {A : Type ℓ} where
  unfoldable pub make : A → ℕ → StreamBuffer A
  make null size = record { r_pos = 0; w_pos = 0; buf = replicate size null }

  -- A difference of positions is taken in a state where it is not negative, as the assertions say.
  unfoldable pub r_remaining : StreamBuffer A → ℕ
  r_remaining b = b.w_pos - b.r_pos

  unfoldable pub w_remaining : StreamBuffer A → ℕ
  w_remaining b = length b.buf - b.w_pos

  unfoldable pub r_slice : StreamBuffer A → List A
  r_slice b = slice b.buf b.r_pos (b.r_pos + r_remaining b)

  unfoldable pub empty : StreamBuffer A → Bool
  empty b = b.r_pos == b.w_pos

  unfoldable pub capacity : StreamBuffer A → ℕ
  capacity b = length b.buf

  unfoldable pub reset_data : StreamBuffer A → StreamBuffer A
  reset_data b = record { r_pos = 0; w_pos = r_remaining b; buf = copy_to (r_slice b) b.buf 0 }

  unfoldable pub disable : StreamBuffer A → StreamBuffer A
  disable b = record b { buf = [] }

  unfoldable pub reset_pos : StreamBuffer A → StreamBuffer A
  reset_pos b = record b { r_pos = 0; w_pos = 0 }

  -- `none` is the failed assertion.
  unfoldable pub r_increase : StreamBuffer A → ℕ → Option (StreamBuffer A)
  r_increase b n =
      let r : ℕ = (b.r_pos + n) % 2 ^ 64 in
      if leb r b.w_pos then some (record b { r_pos = r }) else none

  unfoldable pub w_increase : StreamBuffer A → ℕ → Option (StreamBuffer A)
  w_increase b n =
      let w : ℕ = (b.w_pos + n) % 2 ^ 64 in
      if leb b.r_pos w then some (record b { w_pos = w }) else none

  -- The buffer and the destination afterwards, and the number of elements that were copied.
  unfoldable pub write_to : StreamBuffer A → List A → Option (StreamBuffer A × List A × ℕ)
  write_to b dst =
      let len : ℕ = min (r_remaining b) (length dst) in
      elim (r_increase b len) [
        | none ↦ none
        | some b' ↦ some (
          if b'.r_pos == b'.w_pos then reset_pos b' else b',
          copy_to (slice b.buf b.r_pos (b.r_pos + len)) dst 0,
          len,
        )
      ]

  unfoldable pub read_from : StreamBuffer A → List A → Option (StreamBuffer A × ℕ)
  read_from b src =
      let len : ℕ = min (w_remaining b) (length src) in
      elim (w_increase (record b { buf = copy_to (take len src) b.buf b.w_pos }) len) [
        | none ↦ none
        | some b' ↦ some (b', len)
      ]
