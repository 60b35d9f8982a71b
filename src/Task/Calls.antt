-- ===== src/Task/Calls.antt =====
-- A chain of coroutines, each of which awaits the next one: it runs like nested calls.
use zedlibs.Prelude.{
  ℕ, zero, suc, ◌+◌, ◌≡◌, refl, sym, ap, ◌∙◌, List, [], ◌∷◌, length, Option, none, some, true,
  false, arith,
}
use zedlibs.Task.{
  Frame, Coroutines, Answer, returned, thrown, store, complete, ended, return_value,
  unhandled_exception, result, destroy, release, go_on, final_suspend,
}
use zedlibs.Task.Frames.{put_same}
use zedlibs.Task.Chain.{
  deepest, waiting_for, root, root-deepest, length-waiting_for, await_all, Running, Waiting,
  Waiting-store, Distinct, await_all-Waiting,
}

-- What the body of a coroutine does from where it goes on with the answer of what it awaited, to its
-- end.
module _ {E V : Type 0} (body : ℕ → Answer E V → Answer E V) where
  -- Nested calls: the answer of each goes to the body of its caller. The list is of all that end, with
  -- their answers.
  unfoldable pub calls : ℕ → Answer E V → List ℕ → List (ℕ × Answer E V)
  calls h a [] = (h, a) ∷ []
  calls h a (caller ∷ callers) = (h, a) ∷ calls caller (body caller a) callers

  abbrev pub ahead :
      ℕ × Answer E V
      → Option (List (ℕ × Answer E V) × Coroutines E V)
      → Option (List (ℕ × Answer E V) × Coroutines E V)
  ahead x none = none
  ahead x (some (ended, s)) = some (x ∷ ended, s)

  -- What goes on after a final suspension: nothing, or the caller with what `await_resume` gives.
  unfoldable pub after :
      (ℕ → Answer E V → Coroutines E V → Option (List (ℕ × Answer E V) × Coroutines E V))
      → ℕ
      → Answer E V
      → Option (Option ℕ × Coroutines E V)
      → Option (List (ℕ × Answer E V) × Coroutines E V)
  after next h a none = none
  after next h a (some (none, s)) = some ((h, a) ∷ [], s)
  after next h a (some (some caller, s)) = elim (result (s.frame h)) [
    | none ↦ none
    | some b ↦ ahead (h, a) (next caller (body caller b) s)
  ]

  -- The body of `h` has the answer `a`; what then goes on, in at most so many final suspensions.
  unfoldable pub finish :
      ℕ → ℕ → Answer E V → Coroutines E V → Option (List (ℕ × Answer E V) × Coroutines E V)
  finish zero h a s = none
  finish (suc rounds) h a s = after (finish rounds) h a (final_suspend h (complete h a s))

module _ {E V : Type 0} where
  pub ended-Running :
      (a : Answer E V) (p : Frame E V)
      → Running p
      → ((ended a p).caller ≡ p.caller) × ((ended a p).alive ≡ true) × (result (ended a p) ≡ some a)
  unfolding ended return_value unhandled_exception result
  ended-Running (returned v) p run = (refl, run.live, rw (run.no_ex) refl)
  ended-Running (thrown e) p run = (refl, run.live, refl)

  resumes :
      (h caller : ℕ) (a : Answer E V) (s : Coroutines E V)
      → Running (s.frame h)
      → (s.frame h).caller ≡ some caller
      → final_suspend h (complete h a s) ≡ some (some caller, complete h a s)
  unfolding go_on
  resumes h caller a s run e =
      let p = ended a (s.frame h) in
      ap (λ k. go_on k h (complete h a s))
        (ap (λ q. q.caller) (put_same s.frame h p) ∙ (ended-Running a (s.frame h) run).0 ∙ e)

  destroys :
      (h : ℕ) (a : Answer E V) (s : Coroutines E V)
      → Running (s.frame h)
      → (s.frame h).caller ≡ none
      → (s' : Coroutines E V) × (final_suspend h (complete h a s) ≡ some (none, s'))
        × ((s'.frame h).alive ≡ false)
  unfolding go_on destroy release
  destroys h a s run e =
      let p = ended a (s.frame h) in
      let dead = record p { alive = false } in
      let found = put_same s.frame h p in
      let (calls, live, answer) = ended-Running a (s.frame h) run in
      let gone : destroy h (complete h a s) ≡ some (store (complete h a s) h dead) =
        ap (λ q. release h q (complete h a s)) found ∙ rw live refl in
      (
        store (complete h a s) h dead,
        ap (λ k. go_on k h (complete h a s)) (ap (λ q. q.caller) found ∙ calls ∙ e)
            ∙ ap (λ o. elim o [ none ↦ none | some s' ↦ some (none, s') ]) gone,
        ap (λ q. q.alive) (put_same (complete h a s).frame h dead),
      )

  result_ended :
      (h : ℕ) (a : Answer E V) (s : Coroutines E V)
      → Running (s.frame h)
      → result ((complete h a s).frame h) ≡ some a
  result_ended h a s run =
      ap result (put_same s.frame h (ended a (s.frame h))) ∙ (ended-Running a (s.frame h) run).2

module _ {E V : Type 0} (body : ℕ → Answer E V → Answer E V) where
  -- A coroutine and those that wait for it, each for the one before: when its body ends, one final
  -- suspension for each of them is enough.
  finish-calls :
      (h : ℕ) (callers : List ℕ) (a : Answer E V) (s : Coroutines E V)
      → Waiting s h callers
      → (s' : Coroutines E V) × (finish body (suc (length callers)) h a s
          ≡ some (calls body h a callers, s'))
        × ((s'.frame (root h callers)).alive ≡ false)
  unfolding finish after calls Waiting root
  finish-calls h [] a s w =
      let (s', ends, dead) = destroys h a s w.0 w.1 in
      (s', ap (after body (finish body 0) h a) ends, dead)
  finish-calls h (caller ∷ callers) a s w =
      let next = finish body (suc (length callers)) in
      let w' = Waiting-store s h (ended a (s.frame h)) caller callers w.2 w.3 in
      let (s', ends, dead) = finish-calls caller callers (body caller a) (complete h a s) w' in
      (
        s',
        ap (after body next h a) (resumes h caller a s w.0 w.1)
            ∙ ap
                (λ o. elim o [
                  | none ↦ none
                  | some b ↦ ahead body (h, a) (next caller (body caller b) (complete h a s))
                ])
                (result_ended h a s w.0)
            ∙ ap (ahead body (h, a)) ends,
        dead,
      )

  -- A coroutine for which nobody waits awaits another one, which awaits the next, and so on, over
  -- frames that are distinct and have not ended. When the body of the last one ends, with a value or an
  -- exception, each body goes on once, with the answer of the one that it awaited, in the order of
  -- nested calls, until the first one has ended, whose frame is then destroyed. One final suspension
  -- for each coroutine is enough, no assertion fails and no frame is destroyed twice.
  pub await_all-calls :
      (r : ℕ) (callees : List ℕ) (a : Answer E V) (s : Coroutines E V)
      → Running (s.frame r)
      → (s.frame r).caller ≡ none
      → Distinct s (r ∷ []) callees
      → (s' : Coroutines E V) × (finish body
            (length callees + 1)
            (deepest r callees)
            a
            (await_all r callees s)
          ≡ some (calls body (deepest r callees) a (waiting_for r [] callees), s'))
        × ((s'.frame r).alive ≡ false)
  unfolding Waiting root
  await_all-calls r callees a s run nobody distinct =
      let w = await_all-Waiting r [] callees s (run, nobody) distinct in
      let last = deepest r callees in
      let waiting = waiting_for r [] callees in
      let (s', ends, dead) = finish-calls last waiting a (await_all r callees s) w in
      let count : suc (length waiting) ≡ length callees + 1 =
        omega (arith, length-waiting_for r [] callees) in
      (
        s',
        ap (λ n. finish body n last a (await_all r callees s)) (sym count) ∙ ends,
        ap (λ k. (s'.frame k).alive) (sym (root-deepest r [] callees)) ∙ dead,
      )
