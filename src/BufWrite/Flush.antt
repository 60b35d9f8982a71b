-- ===== src/BufWrite/Flush.antt =====
-- `flush` and the unbuffered `write_all`: what has come to the file when they return.
use zedlibs.Prelude.{
  ℕ, zero, suc, ◌≤◌, ◌≡◌, refl, sym, ap, ap₂, subst, ◌∙◌, List, [], ◌∷◌, ◌++◌, append-nil,
  append_assoc, length, length-drop, take, drop, take-append-drop, Option, none, some, arith,
}
use Prim.{tt}
use zedlibs.Prelude.Slices.{slice_empty}
use zedlibs.Errors.{write_zero}
use zedlibs.Buffer.{StreamBuffer, r_slice, r_increase, reset_pos}
use zedlibs.Buffer.Bytes.{IsValid, held, r_slice-held}
use zedlibs.BufWrite.{flush_loop, flush}
use zedlibs.BufWrite.System.{File, Promises, Takes, Failure, zedio, Outcome, done, failed}
use zedlibs.BufWrite.Advance.{r_increase-Advanced}

module _ {ℓ} {F A : Type ℓ} (file : File F A) (contents : F → List A)
    (os : Promises file contents) where
  -- No datum is lost, doubled or moved before another.
  pub record Flushed (f : F) (b : StreamBuffer A)
      (out : Option (F × StreamBuffer A × Outcome (Unit {ℓ}))) : Type ℓ where
    pub f' : F
    pub b' : StreamBuffer A
    pub ret : Outcome (Unit {ℓ})
    pub returns : out ≡ some (f', b', ret)
    pub good : IsValid b'
    pub order : contents f' ++ held b' ≡ contents f ++ held b
    pub all_out : ret ≡ done tt → held b' ≡ []

  reset-held : (b : StreamBuffer A) → IsValid b → IsValid (reset_pos b) × (held (reset_pos b) ≡ [])
  unfolding reset_pos
  reset-held b v = (
    record { ordered = omega arith; inside = omega arith; addressable = v.addressable },
    slice_empty b.buf 0 0 (omega arith),
  )

  not_done : (e : Failure) → ◌≡◌ {A = Outcome (Unit {ℓ})} (failed e) (done tt) → ⊥
  not_done e h = cc

  -- The call failed, or wrote nothing.
  stopped :
      (f f' : F) (b : StreamBuffer A) (e : Failure)
      → IsValid b
      → contents f' ≡ contents f
      → Flushed f b (some (f', b, failed e))
  stopped f f' b e v h = record {
    f' = f';
    b' = b;
    ret = failed e;
    returns = refl;
    good = v;
    order = ap (λ c. c ++ held b) h;
    all_out = λ h'. absurd (not_done e h');
  }

  flush_step :
      (rounds : ℕ)
      → ((f : F) (b : StreamBuffer A) (l : List A)
          → IsValid b
          → held b ≡ l
          → length l ≤ rounds
          → Flushed f b (flush_loop file rounds f b l))
      → (f : F) (b : StreamBuffer A) (x : A) (l : List A) → IsValid b
      → held b ≡ x ∷ l
      → length (x ∷ l) ≤ suc rounds
      → (p : F × Outcome ℕ) → Takes contents f (x ∷ l) p.0 p.1
      → Flushed f b (elim p.1 [
        | failed e ↦ some (p.0, b, failed e)
        | done zero ↦ some (p.0, b, failed (zedio write_zero))
        | done (suc n) ↦ elim (r_increase b (suc n)) [
          | none ↦ none
          | some b' ↦ flush_loop file rounds p.0 b' (drop (suc n) (x ∷ l))
        ]
      ])
  flush_step rounds ih f b x l v e h (f', failed err) taken = stopped f f' b err v taken
  flush_step rounds ih f b x l v e h (f', done zero) (few, taken) =
      stopped f f' b (zedio write_zero) v (taken ∙ append-nil (contents f))
  flush_step rounds ih f b x l v e h (f', done (suc n)) (few, taken) =
      let step = r_increase-Advanced b (suc n) v (subst (λ m. suc n ≤ length m) (sym e) few) in
      let rest =
        ih f' step.b' (drop n l) step.good (step.rest ∙ ap (drop (suc n)) e)
          (omega (arith, length-drop n l, h)) in
      rw (step.returns) (record {
        f' = rest.f';
        b' = rest.b';
        ret = rest.ret;
        returns = rest.returns;
        good = rest.good;
        order =
            rest.order
            ∙ ap₂ (λ c d. c ++ d) taken (step.rest ∙ ap (drop (suc n)) e)
            ∙ append_assoc (contents f) (x ∷ take n l) (drop n l)
            ∙ ap (λ m. contents f ++ (x ∷ m)) (take-append-drop n l)
            ∙ ap (λ m. contents f ++ m) (sym e);
        all_out = rest.all_out;
      })

  flush_loop-Flushed :
      (rounds : ℕ) (f : F) (b : StreamBuffer A) (l : List A)
      → IsValid b
      → held b ≡ l
      → length l ≤ rounds
      → Flushed f b (flush_loop file rounds f b l)
  unfolding flush_loop
  flush_loop-Flushed rounds f b [] v e h =
      let (good, none_held) = reset-held b v in
      record {
        f' = f;
        b' = reset_pos b;
        ret = done tt;
        returns = refl;
        good = good;
        order = ap (λ l. contents f ++ l) (none_held ∙ sym e);
        all_out = λ _. none_held;
      }
  flush_loop-Flushed zero f b (x ∷ l) v e h = absurd (omega (arith, h))
  flush_loop-Flushed (suc rounds) f b (x ∷ l) v e h =
      flush_step rounds (λ f' b' l'. flush_loop-Flushed rounds f' b' l') f b x l v e h
        (file.write f (x ∷ l)) (os.on_write f (x ∷ l))

  -- `flush` of a valid buffer, over a file whose calls keep the operating system's promises: a round for
  -- each byte is enough, and no assertion fails. Whether it succeeds or fails, the data that came to the
  -- file and those still in the buffer are, in order, those that were there and those that the buffer
  -- held; the buffer stays valid. If it succeeds the buffer is empty.
  pub flush-Flushed : (f : F) (b : StreamBuffer A) → IsValid b → Flushed f b (flush file f b)
  unfolding flush
  flush-Flushed f b v =
      flush_loop-Flushed (length (r_slice b)) f b (r_slice b) v (sym (r_slice-held b v))
        (omega arith)
