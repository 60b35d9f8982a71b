-- ===== src/Logger/Order.antt =====
-- FileLogger: any sequence of calls of log and rounds of work, up to the end of the logger's thread.
use zedlibs.Prelude.{
  ℕ, ◌≡◌, refl, sym, ap, ◌∙◌, List, [], ◌∷◌, ◌++◌, append-nil, append_assoc, length, none, some,
  ◌==◌, inl, inr, Bool-cases, arith,
}
use zedlibs.Prelude.Slices.{slice_empty}
use zedlibs.Logger.{
  FileLogger, Step, logs, hands_over, writes_out, size, empty, content, write_out, finish,
  hand_over, step, run,
}
use zedlibs.Logger.Steps.{Goes, hand_over_lem, log_lem, write_out_lem}
use zedlibs.Logger.Pending.{
  gathered, contents, contents-append, write_all-gathered, pending, messages, Short, IsValid,
  Carried,
}

module _ {ℓ} {A : Type ℓ} (null : A) (capacity : ℕ) where
  step_lem :
      (x : Step A) (steps : List (Step A)) (s : FileLogger A)
      → IsValid capacity s
      → Short capacity (x ∷ steps)
      → (l : List A) × (messages (x ∷ steps) ≡ l ++ messages steps)
        × Short capacity steps
        × Goes null capacity l s (step null capacity x s)
  unfolding step Short messages
  step_lem (logs msg) steps s v short =
      (msg, refl, short.1, (log_lem null capacity s msg v short.0))
  step_lem hands_over steps s v short =
      let h = hand_over_lem null capacity s v in
      (
        [],
        refl,
        short,
        (
          hand_over null capacity s,
          refl,
          record {
            valid = h.valid;
            reports = omega (arith, ap length h.cerr);
            kept = λ _. h.kept ∙ sym (append-nil (pending s));
          },
        ),
      )
  step_lem (writes_out now) steps s v short =
      ([], refl, short, (write_out now s, refl, write_out_lem null capacity now s v))

  run_nil : (s : FileLogger A) → run null capacity [] s ≡ some s
  unfolding run
  run_nil s = refl

  run_cons :
      (x : Step A) (steps : List (Step A)) (s s' : FileLogger A)
      → step null capacity x s ≡ some s'
      → run null capacity (x ∷ steps) s ≡ run null capacity steps s'
  unfolding run
  run_cons x steps s s' e = ap (λ o. elim o [ none ↦ none | some t ↦ run null capacity steps t ]) e

  stays : (s : FileLogger A) → IsValid capacity s → Carried capacity (messages []) s s
  unfolding messages
  stays s v = record { valid = v; reports = omega arith; kept = λ _. sym (append-nil (pending s)) }

  -- With texts that are shorter than a buffer, the calls of `log` and the rounds of `work` fail no
  -- assertion, whatever their order, and the state stays valid. If none of the rounds reports that it
  -- drops buffers, then what stands in the files and in the buffers grows by the texts that were
  -- logged, in their order.
  pub run-Carried :
      (steps : List (Step A)) (s : FileLogger A)
      → IsValid capacity s
      → Short capacity steps
      → Goes null capacity (messages steps) s (run null capacity steps s)
  run-Carried [] s v short = (s, run_nil s, stays s v)
  run-Carried (x ∷ steps) s v short =
      let (l, all, rest, (s', returns, c)) = step_lem x steps s v short in
      let (s'', ends, d) = run-Carried steps s' c.valid rest in
      let kept : length s''.cerr ≡ length s.cerr → pending s'' ≡ pending s ++ messages (x ∷ steps) =
        λ same.
          d.kept (omega (arith, c.reports, d.reports, same))
          ∙ ap (λ k. k ++ messages steps) (c.kept (omega (arith, c.reports, d.reports, same)))
          ∙ append_assoc (pending s) l (messages steps)
          ∙ ap (λ k. pending s ++ k) (sym all) in
      (
        s'',
        run_cons x steps s s' returns ∙ ends,
        record { valid = d.valid; reports = omega (arith, c.reports, d.reports); kept = kept },
      )

  -- What `work` writes after its loop is what was still in the buffers.
  pub finish-gathered : (now : ℕ → ℕ) (s : FileLogger A) → gathered (finish now s) ≡ pending s
  unfolding finish pending empty contents size
  finish-gathered now s =
      let full = s.full_buffers in
      let cur = s.current_buffer in
      elim (Bool-cases (cur.cur == 0)) [
        | inl none_held ↦
            let nothing : content cur ≡ [] =
              slice_empty cur.data_ 0 cur.cur (ground (arith, none_held)) in
            rw none_held (
              write_all-gathered now 0 s.file full
              ∙ sym (append-nil (gathered s.file ++ contents full))
              ∙ ap (λ l. gathered s.file ++ contents full ++ l) (sym nothing))
        | inr some_held ↦ rw some_held (
            write_all-gathered now 0 s.file (full ++ cur ∷ [])
            ∙ ap (λ l. gathered s.file ++ l) (contents-append full (cur ∷ []))
            ∙ ap (λ l. gathered s.file ++ (contents full ++ l)) (append-nil (content cur))
            ∙ sym (append_assoc (gathered s.file) (contents full) (content cur)))
      ]

  -- The logger's life up to the end of its thread: with texts that are shorter than a buffer, the calls
  -- of `log` and the rounds of `work` fail no assertion, whatever their order. If none of the rounds
  -- reports that it drops buffers, then the files, from the oldest on, end up with what they and the
  -- buffers had at first and then every text that was logged, in the order of the calls, whenever the
  -- writes roll to a new file.
  pub run-finish :
      (steps : List (Step A)) (now : ℕ → ℕ) (s : FileLogger A)
      → IsValid capacity s
      → Short capacity steps
      → (s' : FileLogger A) × (run null capacity steps s ≡ some s')
        × (length s'.cerr ≡ length s.cerr → gathered (finish now s') ≡ pending s ++ messages steps)
  run-finish steps now s v short =
      let (s', returns, c) = run-Carried steps s v short in
      (s', returns, λ same. finish-gathered now s' ∙ c.kept same)
