-- ===== src/BufWrite.antt =====
-- zedio/io/impl/impl_buf_write.hpp and impl_async_write.hpp: writers with and without a buffer. The
-- file below them is a parameter.
pub mod System
pub mod Advance
pub mod Flush
pub mod Accept
pub mod Write
mod Tests
use zedlibs.Prelude.{
  ℕ, zero, suc, ◌+◌, ◌-◌, ◌≤◌, ◌≡◌, min, List, [], ◌∷◌, ◌++◌, length, take, drop, Option, none,
  some, Bool, true, false, leb, ltb, ◌==◌, ◌&&◌, not, if◌then◌else◌,
}
use zedlibs.Errors.{ErrorCode, write_zero}
use zedlibs.Buffer.{
  StreamBuffer, r_slice, r_remaining, w_remaining, r_increase, reset_pos, reset_data, read_from,
}
use zedlibs.BufWrite.System.{File, Failure, sys, zedio, Outcome, done, failed}
use Prim.{tt}

module _ {ℓ} {F A : Type ℓ} (file : File F A) where
  -- `write_all` of impl_async_write.hpp, in at most so many rounds. `none` is that no round is left.
  unfoldable pub write_all : ℕ → F → List A → Option (F × Outcome (Unit {ℓ}))
  write_all rounds f [] = some (f, done tt)
  write_all zero f (x ∷ buf) = none
  write_all (suc rounds) f (x ∷ buf) =
      let (f', ret) = file.write f (x ∷ buf) in
      elim ret [
        | failed e ↦ some (f', failed e)
        | done zero ↦ some (f', failed (zedio write_zero))
        | done (suc n) ↦ write_all rounds f' (drop (suc n) (x ∷ buf))
      ]

  -- The loop of `flush`; `none` is that no round is left, or a failed assertion.
  unfoldable pub flush_loop :
      ℕ → F → StreamBuffer A → List A → Option (F × StreamBuffer A × Outcome (Unit {ℓ}))
  flush_loop rounds f b [] = some (f, reset_pos b, done tt)
  flush_loop zero f b (x ∷ slice) = none
  flush_loop (suc rounds) f b (x ∷ slice) =
      let (f', ret) = file.write f (x ∷ slice) in
      elim ret [
        | failed e ↦ some (f', b, failed e)
        | done zero ↦ some (f', b, failed (zedio write_zero))
        | done (suc n) ↦ elim (r_increase b (suc n)) [
          | none ↦ none
          | some b' ↦ flush_loop rounds f' b' (drop (suc n) (x ∷ slice))
        ]
      ]

  -- A round for each byte is enough.
  unfoldable pub flush : F → StreamBuffer A → Option (F × StreamBuffer A × Outcome (Unit {ℓ}))
  flush f b = flush_loop (length (r_slice b)) f b (r_slice b)

  -- After the loop of `real_write`: what fits goes into the buffer.
  unfoldable pub write_rest :
      F → StreamBuffer A → List A → ℕ → Option (F × StreamBuffer A × Outcome ℕ)
  write_rest f b buf result = elim (read_from b buf) [
    | none ↦ none
    | some (b', len) ↦ some (f, b', done (result + len))
  ]

  -- The `do … while` loop of `real_write`; the flag is `write_once`.
  unfoldable pub write_loop :
      Bool → ℕ → F → StreamBuffer A → List A → ℕ → Option (F × StreamBuffer A × Outcome ℕ)
  write_loop once zero f b buf result = none
  write_loop once (suc rounds) f b buf result =
      let (f', ret) = file.write_vectored f (r_slice b) buf in
      elim ret [
        | failed e ↦ some (f', b, failed e)
        | done zero ↦ some (f', b, failed (zedio write_zero))
        | done (suc n) ↦
            let len : ℕ = min (suc n) (r_remaining b) in
            let rest : ℕ = suc n - len in
            elim (r_increase b len) [
              | none ↦ none
              | some b' ↦
                  let next =
                    write_loop once rounds f' (reset_data b') (drop rest buf) (result + rest) in
                  if not once && ltb (w_remaining (reset_data b')) (length (drop rest buf))
                  then next
                  else write_rest f' (reset_data b') (drop rest buf) (result + rest)
            ]
      ]

  unfoldable pub real_write :
      Bool → F → StreamBuffer A → List A → Option (F × StreamBuffer A × Outcome ℕ)
  real_write once f b buf =
      let looped = write_loop once (length (r_slice b) + length buf) f b buf 0 in
      if leb (length buf) (w_remaining b)
      then elim (read_from b buf) [ none ↦ none | some (b', len) ↦ some (f, b', done len) ]
      else looped
