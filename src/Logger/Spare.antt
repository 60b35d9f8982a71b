-- ===== src/Logger/Spare.antt =====
-- FileLogger: the empty buffers that the logger keeps.
use zedlibs.Prelude.{
  ℕ, suc, ◌-◌, ◌≤◌, ◌≡◌, refl, ap, subst, List, [], ◌∷◌, length, length-append, length-take, map,
  Option, none, some, Bool, true, false, ltb, if◌then◌else◌, inl, inr, Bool-cases, arith,
}
use zedlibs.Logger.{
  LogBuffer, FileLogger, Step, logs, hands_over, writes_out, writable_bytes, write, reset, at_most,
  max_buffer_list_size, write_out, next_buffer, hand_over, write_current, log, step, run,
}

module _ {ℓ} {A : Type ℓ} where
  -- There are at most two empty buffers, and at most one beside a full one.
  unfoldable pub IsSpare : FileLogger A → Type 0
  IsSpare s = length s.empty_buffers ≤ 2 - length s.full_buffers

  length-map : (buffers : List (LogBuffer A)) → length (map reset buffers) ≡ length buffers
  length-map [] = refl
  length-map (b ∷ buffers) = ap suc (length-map buffers)

  at_most-two : (buffers : List (LogBuffer A)) → length (at_most 2 buffers) ≤ 2
  at_most-two buffers = elim (Bool-cases (ltb 2 (length buffers))) [
    | inl many ↦ rw many (omega (arith, length-take 2 buffers))
    | inr few ↦ rw few (ground (arith, few))
  ]

  at_most-less :
      (n : ℕ) (buffers : List (LogBuffer A)) → length (at_most n buffers) ≤ length buffers
  at_most-less n buffers = elim (Bool-cases (ltb n (length buffers))) [
    | inl many ↦ rw many (omega (arith, length-take 2 buffers))
    | inr few ↦ rw few (omega arith)
  ]

  write_out-IsSpare : (now : ℕ → ℕ) (s : FileLogger A) → IsSpare s → IsSpare (write_out now s)
  unfolding IsSpare write_out
  write_out-IsSpare now s h =
      let kept = at_most max_buffer_list_size s.full_buffers in
      omega (
        arith,
        h,
        length-append s.empty_buffers (at_most 2 (map reset kept)),
        at_most-two (map reset kept),
        at_most-less 2 (map reset kept),
        length-map kept,
        at_most-less max_buffer_list_size s.full_buffers,
      )

module _ {ℓ} {A : Type ℓ} (null : A) (capacity : ℕ) where
  length-next_buffer :
      (buffers : List (LogBuffer A))
      → length (next_buffer null capacity buffers).1 ≡ length buffers - 1
  unfolding next_buffer
  length-next_buffer [] = refl
  length-next_buffer (b ∷ rest) = omega arith

  hand_over-IsSpare : (s : FileLogger A) → IsSpare s → IsSpare (hand_over null capacity s)
  unfolding IsSpare hand_over
  hand_over-IsSpare s h = omega (
    arith,
    h,
    length-append s.full_buffers (s.current_buffer ∷ []),
    length-next_buffer s.empty_buffers,
  )

  -- What holds of the state that a step leaves, if it fails no assertion.
  abbrev After : (FileLogger A → Type 0) → Option (FileLogger A) → Type 0
  After P none = Unit
  After P (some s) = P s

  if-After :
      (P : FileLogger A → Type 0) (test : Bool) (o o' : Option (FileLogger A))
      → After P o
      → After P o'
      → After P (if test then o else o')
  if-After P true o o' h h' = h
  if-After P false o o' h h' = h'

  write_current-IsSpare :
      (s : FileLogger A) (msg : List A)
      → IsSpare s
      → After IsSpare (write_current null capacity s msg)
  unfolding IsSpare
  write_current-IsSpare s msg h = written (write s.current_buffer msg)
    where
      written :
          (o : Option (LogBuffer A))
          → After IsSpare (elim o [ none ↦ none | some b ↦ some (record s { current_buffer = b }) ])
      written none = Prim.tt
      written (some b) = h

  log-IsSpare :
      (s : FileLogger A) (msg : List A) → IsSpare s → After IsSpare (log null capacity s msg)
  unfolding log
  log-IsSpare s msg h =
      let over = hand_over null capacity s in
      let now = write_current null capacity s msg in
      let later = write_current null capacity over msg in
      let test = ltb (length msg) (writable_bytes s.current_buffer) in
      if-After IsSpare s.running (if test then now else later) (some s)
        (if-After IsSpare test now later (write_current-IsSpare s msg h)
          (write_current-IsSpare over msg (hand_over-IsSpare s h)))
        h

  step-IsSpare :
      (x : Step A) (s : FileLogger A) → IsSpare s → After IsSpare (step null capacity x s)
  unfolding step
  step-IsSpare (logs msg) s h = log-IsSpare s msg h
  step-IsSpare hands_over s h = hand_over-IsSpare s h
  step-IsSpare (writes_out now) s h = write_out-IsSpare now s h

  then-After :
      (steps : List (Step A)) (o : Option (FileLogger A))
      → After IsSpare o
      → ((t : FileLogger A) → IsSpare t → After IsSpare (run null capacity steps t))
      → After IsSpare (elim o [ none ↦ none | some t ↦ run null capacity steps t ])
  then-After steps none h k = Prim.tt
  then-After steps (some t) h k = k t h

  run-After :
      (steps : List (Step A)) (s : FileLogger A)
      → IsSpare s
      → After IsSpare (run null capacity steps s)
  unfolding run
  run-After [] s h = h
  run-After (x ∷ steps) s h =
      then-After steps (step null capacity x s) (step-IsSpare x s h) (λ t k. run-After steps t k)

  -- Whatever is logged and whenever the rounds of `work` come: where there were at most two empty
  -- buffers, and one less for each full one, there are no more of them afterwards.
  pub run-IsSpare :
      (steps : List (Step A)) (s s' : FileLogger A)
      → IsSpare s
      → run null capacity steps s ≡ some s'
      → IsSpare s'
  run-IsSpare steps s s' h e = subst (After IsSpare) e (run-After steps s h)
