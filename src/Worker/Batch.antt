-- ===== src/Worker/Batch.antt =====
-- `pull_batch`: the tasks that a worker takes from the global queue all fit into its own.
use zedlibs.Prelude.{
  ℕ, ◌+◌, ◌-◌, ◌/◌, ◌≤◌, ◌<◌, ◌≡◌, ◌≢◌, refl, sym, ap, ap₂, ◌∙◌, subst, min, List, [], ◌∷◌, ◌++◌,
  length, Option, none, some, true, false, not, ◌==◌, ltb, arith, ℕ_discrete,
}
use zedlibs.Queue.Global.{pop_n, size}
use zedlibs.Queue.Local.{capacity}
use zedlibs.Queue.Owner.{waiting, IsValid}
use zedlibs.Queue.Batch.{held, push_batch-Batched, remaining_slots-held}
use zedlibs.Queue.Shared.{IsCounted, pop_n-TakesOldest}
use zedlibs.Worker.Thread.{Worker, local_queue, keep_others, pull_batch}
use zedlibs.Worker.Choice.{
  to_list, local_tasks, global_tasks, IsSound, with_queue, with_global, local-with_queue, got,
  none_left, take_global-GlobalOutcome,
}

module _ {ℓ} {A : Type ℓ} where
  -- The first of a batch runs, the others wait in the worker's queue.
  record KeepsOthers (w : Worker A) (l : List A) (out : Option (Worker A × Option A)) : Type ℓ where
    w' : Worker A
    x : A
    returns : out ≡ some (w', some x)
    good : IsValid (local_queue w')
    batch : l ≡ x ∷ waiting (local_queue w')
    same_next : w'.run_next ≡ w.run_next
    same_global : w'.shared.global_queue ≡ w.shared.global_queue

  keep_others-KeepsOthers :
      (w : Worker A) (l : List A) (t : ℕ)
      → IsValid (local_queue w)
      → waiting (local_queue w) ≡ []
      → length l ≡ t
      → 0 < t
      → held (local_queue w) + (t - 1) ≤ capacity
      → KeepsOthers w l (keep_others w l t)
  unfolding keep_others
  keep_others-KeepsOthers w [] t good dry e p fits = absurd (omega (arith, e, p))
  keep_others-KeepsOthers w (x ∷ []) t good dry e p fits =
      let test : not (ltb 0 (t - 1)) ≡ true = ground (arith, e) in
      record {
        w' = w;
        x = x;
        returns = rw test refl;
        good = good;
        batch = ap (λ l. x ∷ l) (sym dry);
        same_next = refl;
        same_global = refl;
      }
  keep_others-KeepsOthers w (x ∷ y ∷ l) t good dry e p fits =
      let test : not (ltb 0 (t - 1)) ≡ false = ground (arith, e) in
      let (q, out, batched) =
        push_batch-Batched (local_queue w) (y ∷ l) (t - 1) good (omega (arith, e))
          (omega (arith, e)) fits in
      let here = local-with_queue w q in
      record {
        w' = with_queue w q;
        x = x;
        returns = rw (test, out) refl;
        good = subst IsValid (sym here) batched.good;
        batch =
            ap (λ l. x ∷ l)
              (sym (ap (λ q'. waiting q') here ∙ batched.order ∙ ap (λ l'. l' ++ (y ∷ l)) dry));
        same_next = refl;
        same_global = refl;
      }

  has_some : (l : List A) → l ≢ [] → 0 < length l
  has_some [] ne = absurd (ne refl)
  has_some (x ∷ l) ne = omega arith

  -- What `pull_batch` takes is the oldest part of the global queue.
  pub record Pulls (w : Worker A) (out : Option (Worker A × Option A)) : Type ℓ where
    pub w' : Worker A
    pub x : A
    pub returns : out ≡ some (w', some x)
    pub sound : IsSound w'
    pub order : global_tasks w ≡ x ∷ (local_tasks w' ++ global_tasks w')

  pub pull_batch-Pulls :
      (w : Worker A)
      → IsSound w
      → w.run_next ≡ none
      → waiting (local_queue w) ≡ []
      → global_tasks w ≢ []
      → Pulls w (pull_batch w)
  unfolding pull_batch size
  pull_batch-Pulls w good next dry some_task =
      let slots = remaining_slots-held (local_queue w) good.local_good in
      elim (ℕ_discrete (min (capacity - held (local_queue w)) (capacity / 2)) 0) [
        | yes full ↦
            let test : (min (capacity - held (local_queue w)) (capacity / 2) == 0) ≡ true =
              ground (arith, full) in
            elim (take_global-GlobalOutcome w good.global_good) [
              | none_left out e ↦ absurd (some_task e)
              | got global x out counted e ↦ record {
                w' = with_global w global;
                x = x;
                returns = rw (slots, pull_batch) (rw test (ap (λ p. some p) out));
                sound = record { local_good = good.local_good; global_good = counted };
                order =
                    e
                    ∙ ap (λ l. x ∷ (l ++ global.tasks))
                        (sym (ap₂ (λ o l. to_list o ++ l) next dry));
              }
            ]
        | no room ↦
            let count : ℕ =
              min (w.shared.global_queue.num / w.shared.workers + 1)
                (min (capacity - held (local_queue w)) (capacity / 2)) in
            let out = pop_n w.shared.global_queue count in
            let oldest = pop_n-TakesOldest w.shared.global_queue count good.global_good in
            let some_global : 0 < length (global_tasks w) = has_some (global_tasks w) some_task in
            let some_taken : 0 < out.1 = omega (arith, oldest.number, some_global, room) in
            let few : held (local_queue w) + (out.1 - 1) ≤ capacity =
              omega (arith, oldest.number) in
            let kept =
              keep_others-KeepsOthers (with_global w out.0) out.2 out.1 good.local_good dry
                oldest.taken some_taken few in
            let test : (min (capacity - held (local_queue w)) (capacity / 2) == 0) ≡ false =
              ground (arith, room) in
            let taken_test : (out.1 == 0) ≡ false = ground (arith, some_taken) in
            record {
              w' = kept.w';
              x = kept.x;
              returns = rw (slots, pull_batch) (rw test (rw taken_test kept.returns));
              sound = record {
                local_good = kept.good;
                global_good = subst IsCounted (sym kept.same_global) oldest.good;
              };
              order =
                  sym oldest.in_order
                  ∙ ap (λ l. l ++ out.0.tasks) kept.batch
                  ∙ ap₂ (λ o g. kept.x ∷ ((to_list o ++ waiting (local_queue kept.w')) ++ g.tasks))
                      (sym (kept.same_next ∙ next)) (sym kept.same_global);
            }
      ]
