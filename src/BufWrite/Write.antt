-- ===== src/BufWrite/Write.antt =====
-- The buffered `write` and `write_all`: what has come to the file and to the buffer.
use zedlibs.Prelude.{
  ℕ, zero, suc, ◌+◌, ◌-◌, ◌≤◌, ◌<◌, ◌≡◌, refl, sym, ap, ap₂, ◌∙◌, min, List, ◌++◌, append-nil,
  append_assoc, length, length-drop, length-append, take, drop, none, some, Bool, not, ◌&&◌, leb,
  ltb, if◌then◌else◌, arith, Bool-cases, inl, inr,
}
use zedlibs.Errors.{write_zero}
use zedlibs.Buffer.{StreamBuffer, r_slice, r_remaining, w_remaining, r_increase, reset_data}
use zedlibs.Buffer.Bytes.{IsValid, held, r_slice-held, read_from-Filled, reset_data-Compacted}
use zedlibs.BufWrite.{write_rest, write_loop, real_write}
use zedlibs.BufWrite.System.{File, Promises, Takes, zedio, Outcome, done, failed}
use zedlibs.BufWrite.Advance.{Advanced, r_increase-Advanced, length-held}
use zedlibs.BufWrite.Accept.{value_of, split_taken, Accepted, write_rest-Accepted, extend, refused}

module _ {ℓ} {F A : Type ℓ} (file : File F A) (contents : F → List A)
    (os : Promises file contents) where
  -- A round in which the file took `suc n` data.
  module _ (once : Bool) (f f' : F) (b : StreamBuffer A) (buf : List A) (result n : ℕ)
      (v : IsValid b) (taken : Takes contents f (r_slice b ++ buf) f' (done (suc n))) where
    abbrev len : ℕ
    len = min (suc n) (r_remaining b)

    abbrev rest : ℕ
    rest = suc n - len

    remaining : r_remaining b ≡ length (held b)
    unfolding r_remaining
    remaining = sym (length-held b v)

    step : Advanced b len (r_increase b len)
    step = r_increase-Advanced b len v (omega (arith, remaining))

    compacted : StreamBuffer A
    compacted = reset_data step.b'

    compacted-IsValid : IsValid compacted
    unfolding compacted
    compacted-IsValid = (reset_data-Compacted step.b' step.good).good

    compacted_held : held compacted ≡ drop len (held b)
    unfolding compacted
    compacted_held = (reset_data-Compacted step.b' step.good).kept ∙ step.rest

    rest_few : rest ≤ length buf
    rest_few =
        omega
          (arith, taken.0, length-append (r_slice b) buf, ap length (r_slice-held b v), remaining)

    same : contents f' ++ held compacted ≡ contents f ++ (held b ++ take rest buf)
    same =
        ap₂ (λ c h. c ++ h)
          (taken.1 ∙ ap (λ l. contents f ++ take (suc n) (l ++ buf)) (r_slice-held b v))
          (compacted_held ∙ ap (λ m. drop (min (suc n) m) (held b)) remaining)
        ∙ append_assoc (contents f) (take (suc n) (held b ++ buf))
            (drop (min (suc n) (length (held b))) (held b))
        ∙ ap (λ l. contents f ++ l)
            (split_taken (held b) buf (suc n)
              ∙ ap (λ m. held b ++ take (suc n - min (suc n) m) buf) (sym remaining))

    smaller :
        length (held compacted) + length (drop rest buf) + suc n ≡ length (held b) + length buf
    smaller = omega (
      arith,
      ap length compacted_held,
      length-drop len (held b),
      length-drop rest buf,
      remaining,
      rest_few,
    )

  write_step :
      (once : Bool) (rounds : ℕ)
      → ((f : F) (b : StreamBuffer A) (buf : List A) (result : ℕ)
          → IsValid b
          → 0 < length buf
          → length (held b) + length buf ≤ rounds
          → Accepted file contents os once f b buf result
              (write_loop file once rounds f b buf result))
      → (f : F) (b : StreamBuffer A) (buf : List A) (result : ℕ) → IsValid b
      → length (held b) + length buf ≤ suc rounds
      → (p : F × Outcome ℕ) → Takes contents f (r_slice b ++ buf) p.0 p.1
      → Accepted file contents os once f b buf result (elim p.1 [
        | failed e ↦ some (p.0, b, failed e)
        | done zero ↦ some (p.0, b, failed (zedio write_zero))
        | done (suc n) ↦
            let len : ℕ = min (suc n) (r_remaining b) in
            let rest : ℕ = suc n - len in
            elim (r_increase b len) [
              | none ↦ none
              | some b' ↦
                  let next =
                    write_loop file once rounds p.0
                      (reset_data b')
                      (drop rest buf)
                      (result + rest) in
                  if not once && ltb (w_remaining (reset_data b')) (length (drop rest buf))
                  then next
                  else write_rest file p.0 (reset_data b') (drop rest buf) (result + rest)
            ]
      ])
  unfolding compacted
  write_step once rounds ih f b buf result v total (f', failed err) taken =
      refused file contents os once f f' b buf result err v taken
  write_step once rounds ih f b buf result v total (f', done zero) taken =
      refused file contents os once f f' b buf result (zedio write_zero) v
        (taken.1 ∙ append-nil (contents f))
  write_step once rounds ih f b buf result v total (f', done (suc n)) taken =
      let b2 = compacted once f f' b buf result n v taken in
      let good = compacted-IsValid once f f' b buf result n v taken in
      let buf' = drop (rest once f f' b buf result n v taken) buf in
      let less = smaller once f f' b buf result n v taken in
      rw ((step once f f' b buf result n v taken).returns) (
        extend file contents os once f f' b b2 buf result (rest once f f' b buf result n v taken) _
          (rest_few once f f' b buf result n v taken) (same once f f' b buf result n v taken)
          (elim (Bool-cases (not once && ltb (w_remaining b2) (length buf'))) [
            | inl go ↦ rw go (
                ih f' b2 buf' (result + rest once f f' b buf result n v taken) good
                  (ground (arith, go)) (omega (arith, less, total)))
            | inr stop ↦ rw stop (
                write_rest-Accepted file contents os once f' b2 buf'
                  (result + rest once f f' b buf result n v taken) good
                  (λ e. ground (arith, stop, e)))
          ]))

  write_loop-Accepted :
      (once : Bool) (rounds : ℕ) (f : F) (b : StreamBuffer A) (buf : List A) (result : ℕ)
      → IsValid b
      → 0 < length buf
      → length (held b) + length buf ≤ rounds
      → Accepted file contents os once f b buf result (write_loop file once rounds f b buf result)
  unfolding write_loop
  write_loop-Accepted once zero f b buf result v p total = absurd (omega (arith, p, total))
  write_loop-Accepted once (suc rounds) f b buf result v p total =
      write_step once rounds (λ f' b' buf' r. write_loop-Accepted once rounds f' b' buf' r) f b buf
        result v total (file.write_vectored f (r_slice b) buf)
        (os.on_write_vectored f (r_slice b) buf)

  -- The buffered `write`, whose flag is true, and `write_all`, over a file whose calls keep the
  -- operating system's promises and with a valid buffer: a round for each byte is enough, and no
  -- assertion fails. A front of the data is accepted. Whether the call succeeds or fails, the data that
  -- came to the file and those in the buffer are, in order, those that were there, those that the buffer
  -- held, and the accepted ones; the buffer stays valid. If it succeeds it returns the number of accepted
  -- data, and for `write_all` these are all.
  pub real_write-Accepted :
      (once : Bool) (f : F) (b : StreamBuffer A) (buf : List A)
      → IsValid b
      → Accepted file contents os once f b buf 0 (real_write file once f b buf)
  unfolding real_write
  real_write-Accepted once f b buf v = elim (Bool-cases (leb (length buf) (w_remaining b))) [
    | inl fits ↦
        let filled = read_from-Filled b buf v in
        rw fits (
          rw (filled.found) (record {
            f' = f;
            b' = filled.after;
            ret = done filled.len;
            accepted = filled.len;
            returns = refl;
            good = filled.good;
            few = omega (arith, filled.most);
            order = ap (λ l. contents f ++ l) filled.appended;
            number = λ n e. omega (arith, ap value_of e);
            all_of_it = λ n e once_false. ground (arith, filled.most, fits);
          }))
    | inr no_room ↦ rw no_room (
        write_loop-Accepted once (length (r_slice b) + length buf) f b buf 0 v
          (ground (arith, no_room)) (omega (arith, ap length (r_slice-held b v))))
  ]
