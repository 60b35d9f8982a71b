-- ===== src/BufRead/Read.antt =====
-- The buffered `read` and `read_exact` into a span that is no larger than the buffer.
use zedlibs.Prelude.{
  ℕ, zero, suc, ◌+◌, ◌≤◌, ◌≡◌, refl, sym, ap, ap₂, ◌∙◌, List, ◌++◌, append_assoc, length,
  length-append, Option, none, some, Bool, true, not, ◌&&◌, ◌||◌, ◌==◌, ltb, if◌then◌else◌, arith,
  Bool-cases, inl, inr,
}
use zedlibs.Prelude.Slices.{slice, length-slice}
use zedlibs.Errors.{unexpected_eof}
use zedlibs.Buffer.{StreamBuffer, r_remaining, w_remaining, capacity}
use zedlibs.Buffer.Bytes.{IsValid, held, write_to-Drained}
use zedlibs.BufWrite.System.{Failure, zedio, Outcome, done, failed}
use zedlibs.BufRead.{fill, pred, hand_out, compacted, read_loop, read_buffered, real_read}
use zedlibs.BufRead.Source.{Input, Gives, Promises}
use zedlibs.BufRead.Fill.{held_few, fill-Grown, compacted-Ready}

module _ {ℓ} {F A : Type ℓ} (file : Input F A) (coming : F → List A)
    (os : Promises file coming) where
  -- The first `n` data of the span are the oldest that were in the buffer or still to come; or nothing
  -- is given out, and the span stays as it is.
  pub data Served (exact : Bool) (f : F) (b : StreamBuffer A) (dst : List A)
      (out : Option (F × StreamBuffer A × List A × Outcome ℕ)) : Type ℓ where
    given :
        (f' : F) (b' : StreamBuffer A) (dst' : List A) (n : ℕ)
        → out ≡ some (f', b', dst', done n)
        → IsValid b'
        → held b ++ coming f ≡ slice dst' 0 n ++ (held b' ++ coming f')
        → n ≤ length dst
        → (exact ≡ true → n ≡ length dst)
        → Served exact f b dst out
    not_given :
        (f' : F) (b' : StreamBuffer A) (e : Failure)
        → out ≡ some (f', b', dst, failed e)
        → IsValid b'
        → held b ++ coming f ≡ held b' ++ coming f'
        → Served exact f b dst out

  -- The buffer and the file have only exchanged data.
  moved :
      (exact : Bool) (f f' : F) (b b' : StreamBuffer A) (dst : List A)
      (out : Option (F × StreamBuffer A × List A × Outcome ℕ))
      → held b ++ coming f ≡ held b' ++ coming f'
      → Served exact f' b' dst out
      → Served exact f b dst out
  moved exact f f' b b' dst out same (given f'' b'' dst' n e good order few all_of_it) =
      given f'' b'' dst' n e good (same ∙ order) few all_of_it
  moved exact f f' b b' dst out same (not_given f'' b'' err e good order) =
      not_given f'' b'' err e good (same ∙ order)

  hand_out-Served :
      (exact : Bool) (f : F) (b : StreamBuffer A) (dst : List A)
      → IsValid b
      → (exact ≡ true → length dst ≤ length (held b))
      → Served exact f b dst (hand_out file f b dst)
  unfolding hand_out
  hand_out-Served exact f b dst v enough =
      let drained = write_to-Drained b dst v in
      given f drained.after drained.dst' drained.len (rw (drained.found, hand_out) refl)
        drained.good
        (ap (λ l. l ++ coming f) drained.shared
          ∙ append_assoc (slice drained.dst' 0 drained.len) (held drained.after) (coming f))
        (omega (arith, drained.most)) (λ e. omega (arith, drained.most, enough e))

  pred-exact :
      (exact : Bool) (b : StreamBuffer A) (n : ℕ)
      → IsValid b
      → pred exact n b ≡ true
      → exact ≡ true
      → n ≤ length (held b)
  unfolding pred r_remaining
  pred-exact exact b n v h e = ground (arith, h, e, length-slice b.buf b.r_pos b.w_pos v.inside)

  read_step :
      (exact : Bool) (exact_bytes rounds : ℕ)
      → ((f : F) (b : StreamBuffer A) (dst : List A)
          → IsValid b
          → length dst ≡ exact_bytes
          → capacity b + 1 ≤ rounds + length (held b)
          → Served exact f b dst (read_loop file exact exact_bytes rounds f b dst))
      → (f : F) (b : StreamBuffer A) (dst : List A) → IsValid b
      → length dst ≡ exact_bytes
      → capacity b + 1 ≤ suc rounds + length (held b)
      → (p : F × Outcome (List A)) → Gives coming f (w_remaining (compacted b dst)) p.0 p.1
      → Served exact f b dst (elim p.1 [
        | failed e ↦ some (p.0, compacted b dst, dst, failed e)
        | done l ↦ elim (fill (compacted b dst) l) [
          | none ↦ none
          | some b' ↦
              let next = read_loop file exact exact_bytes rounds p.0 b' dst in
              if exact && (length l == 0)
              then some (p.0, b', dst, failed (zedio unexpected_eof))
              else if pred exact exact_bytes b' || (length l == 0)
              then hand_out file p.0 b' dst
              else next
        ]
      ])
  read_step exact exact_bytes rounds ih f b dst v size total (f', failed err) gives =
      let ready = compacted-Ready b dst v in
      not_given f' (compacted b dst) err refl ready.good
        (ap₂ (λ h c. h ++ c) (sym ready.kept) (sym gives))
  read_step exact exact_bytes rounds ih f b dst v size total (f', done l) (few, gives) =
      let ready = compacted-Ready b dst v in
      let grown = fill-Grown (compacted b dst) l ready.good few in
      let same : held b ++ coming f ≡ held grown.b' ++ coming f' =
        ap₂ (λ h c. h ++ c) (sym ready.kept) gives
        ∙ sym (append_assoc (held (compacted b dst)) l (coming f'))
        ∙ ap (λ h. h ++ coming f') (sym grown.more) in
      let longer : length (held grown.b') ≡ length (held b) + length l =
        ap length (grown.more ∙ ap (λ h. h ++ l) ready.kept) ∙ length-append (held b) l in
      rw (grown.returns) (
        moved exact f f' b grown.b' dst _ same (elim (Bool-cases (exact && (length l == 0))) [
          | inl eof ↦ rw eof (not_given f' grown.b' (zedio unexpected_eof) refl grown.good refl)
          | inr more ↦ elim (Bool-cases (pred exact exact_bytes grown.b' || (length l == 0))) [
            | inl ready_now ↦
                rw (more, ready_now)
                  (hand_out-Served exact f' grown.b' dst grown.good (λ e. omega (
                    arith,
                    size,
                    pred-exact exact grown.b' exact_bytes grown.good
                        (ground (arith, more, ready_now, e)) e,
                  )))
            | inr not_yet ↦
                rw (more, not_yet)
                  (ih f' grown.b' dst grown.good size
                    (ground (arith, not_yet, longer, total, grown.size, ready.size)))
          ]
        ]))

  read_loop-Served :
      (exact : Bool) (exact_bytes rounds : ℕ) (f : F) (b : StreamBuffer A) (dst : List A)
      → IsValid b
      → length dst ≡ exact_bytes
      → capacity b + 1 ≤ rounds + length (held b)
      → Served exact f b dst (read_loop file exact exact_bytes rounds f b dst)
  unfolding read_loop
  read_loop-Served exact exact_bytes zero f b dst v size total =
      absurd (omega (arith, total, held_few b v))
  read_loop-Served exact exact_bytes (suc rounds) f b dst v size total =
      read_step exact exact_bytes rounds
        (λ f' b' dst'. read_loop-Served exact exact_bytes rounds f' b' dst') f b dst v size total
        (file.read f (w_remaining (compacted b dst))) (os.on_read f (w_remaining (compacted b dst)))

  -- The buffered `read`, whose flag is false, and `read_exact`, over a file whose calls keep the
  -- operating system's promises, with a valid buffer and a span that is no larger than the buffer: a
  -- round for each byte of the buffer, and one more, is enough, and no assertion fails. The buffer stays
  -- valid. If the call succeeds, the data at the front of the span, as many as are returned, are the
  -- oldest of those that the buffer held and that were still to come, and the others are still there, in
  -- order; for `read_exact` they fill the span. If it fails, the span is as it was and no datum is lost.
  pub real_read-Served :
      (exact : Bool) (f : F) (b : StreamBuffer A) (dst : List A)
      → IsValid b
      → length dst ≤ capacity b
      → Served exact f b dst (real_read file exact f b dst)
  unfolding real_read read_buffered
  real_read-Served exact f b dst v small =
      let test : not (ltb (capacity b) (length dst)) ≡ true = ground (arith, small) in
      rw test (elim (Bool-cases (pred exact (length dst) b)) [
        | inl enough ↦
            rw enough (hand_out-Served exact f b dst v (pred-exact exact b (length dst) v enough))
        | inr not_yet ↦
            rw not_yet
              (read_loop-Served exact (length dst) (suc (capacity b)) f b dst v refl (omega arith))
      ])
