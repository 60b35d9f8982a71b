-- ===== src/Worker/Next.antt =====
-- `get_next_task`: which task a worker runs next.
use zedlibs.Prelude.{
  ◌%◌, ◌≡◌, ◌≢◌, refl, sym, ap, ap₂, ◌∙◌, subst, List, [], ◌∷◌, ◌++◌, length, Option, none, some,
  true, false, ◌==◌, if◌then◌else◌, arith, ℕ_discrete,
}
use zedlibs.Queue.Global.{empty}
use zedlibs.Queue.Owner.{waiting, IsValid}
use zedlibs.Queue.Shared.{IsCounted}
use zedlibs.Worker.Thread.{
  Config, Worker, local_queue, next_local_task, take_global, pull_batch, get_next_task,
}
use zedlibs.Worker.Choice.{
  to_list, local_tasks, global_tasks, IsSound, with_global, found, dry,
  next_local_task-LocalOutcome, got, none_left, take_global-GlobalOutcome,
}
use zedlibs.Worker.Batch.{pull_batch-Pulls}

module _ {ℓ} {A : Type ℓ} where
  -- All the tasks that the worker can reach without stealing.
  abbrev pub pending : Worker A → List A
  pending w = local_tasks w ++ global_tasks w

  pub data Chosen (config : Config) (w : Worker A) (out : Option (Worker A × Option A))
      : Type ℓ where
    from_global :
        w.tick_count % config.global_queue_interval ≡ 0
        → (w' : Worker A) (x : A) → out ≡ some (w', some x)
        → IsSound w'
        → global_tasks w ≡ x ∷ global_tasks w'
        → local_tasks w' ≡ local_tasks w
        → Chosen config w out
    oldest :
        (w' : Worker A) (x : A)
        → out ≡ some (w', some x)
        → IsSound w'
        → pending w ≡ x ∷ pending w'
        → Chosen config w out
    nothing_left :
        (w' : Worker A)
        → out ≡ some (w', none)
        → IsSound w'
        → pending w ≡ []
        → pending w' ≡ []
        → Chosen config w out

  -- What follows the first attempt, at the global queue or at the worker's own.
  abbrev after_global : Worker A × Option A → Option (Worker A × Option A)
  after_global p = elim p.1 [
    | some task ↦ some (p.0, some task)
    | none ↦ some (next_local_task p.0)
  ]

  abbrev after_local : Worker A × Option A → Option (Worker A × Option A)
  after_local p = elim p.1 [
    | some task ↦ some (p.0, some task)
    | none ↦ if empty p.0.shared.global_queue then some (p.0, none) else pull_batch p.0
  ]

  global_first :
      (config : Config) (w : Worker A)
      → w.tick_count % config.global_queue_interval ≡ 0
      → get_next_task config w ≡ after_global (take_global w)
  unfolding get_next_task
  global_first config w now =
      let test : (w.tick_count % config.global_queue_interval == 0) ≡ true = ground (arith, now) in
      rw test refl

  local_first :
      (config : Config) (w : Worker A)
      → w.tick_count % config.global_queue_interval ≢ 0
      → get_next_task config w ≡ after_local (next_local_task w)
  unfolding get_next_task
  local_first config w other =
      let test : (w.tick_count % config.global_queue_interval == 0) ≡ false =
        ground (arith, other) in
      rw test refl

  IsSound-same :
      (w w' : Worker A)
      → IsSound w
      → IsValid (local_queue w')
      → w'.shared.global_queue ≡ w.shared.global_queue
      → IsSound w'
  IsSound-same w w' good good' same = record {
    local_good = good';
    global_good = subst IsCounted (sym same) good.global_good;
  }

  dry-tasks : (w : Worker A) → w.run_next ≡ none → waiting (local_queue w) ≡ [] → local_tasks w ≡ []
  dry-tasks w next waits = ap₂ (λ o l. to_list o ++ l) next waits

  -- A worker that has nothing of its own looks at the global queue.
  then_global :
      (config : Config) (w w' : Worker A)
      → IsSound w'
      → local_tasks w ≡ []
      → w'.run_next ≡ none
      → waiting (local_queue w') ≡ []
      → w'.shared.global_queue ≡ w.shared.global_queue
      → Chosen config w (after_local (w', none))
  then_global config w w' good lacks next waits same = by_tasks (global_tasks w') refl
    where
      by_tasks : (l : List A) → global_tasks w' ≡ l → Chosen config w (after_local (w', none))
      by_tasks [] e =
          let test : empty w'.shared.global_queue ≡ true =
            unfold empty in ground (arith, good.global_good.counted ∙ ap length e) in
          nothing_left w' (rw test refl) good
            (ap₂ (λ l g. l ++ g) lacks (sym (ap (λ g. g.tasks) same) ∙ e))
            (ap₂ (λ l g. l ++ g) (dry-tasks w' next waits) e)
      by_tasks (x ∷ l) e =
          let test : empty w'.shared.global_queue ≡ false =
            unfold empty in ground (arith, good.global_good.counted ∙ ap length e) in
          let pulls = pull_batch-Pulls w' good next waits (λ e'. some_task (sym e ∙ e')) in
          oldest pulls.w' pulls.x (rw test pulls.returns) pulls.sound
            (ap₂ (λ l g. l ++ g) lacks (sym (ap (λ g. g.tasks) same)) ∙ pulls.order)
        where
          some_task : x ∷ l ≢ []
          some_task h = cc

  -- `get_next_task` of a worker with a valid queue, where the count of the global queue is right: no
  -- assertion fails, nothing is thrown, and queue and count stay so. It takes the first global task,
  -- and leaves the worker's own as they were, only at a tick that the interval divides. Else it takes
  -- the first of `run_next`, the waiting tasks and the global tasks, in this order, and leaves the
  -- others in order. It returns nothing only if there are none.
  pub get_next_task-Chosen :
      (config : Config) (w : Worker A) → IsSound w → Chosen config w (get_next_task config w)
  get_next_task-Chosen config w good =
      elim (ℕ_discrete (w.tick_count % config.global_queue_interval) 0) [
        | yes now ↦
            subst (Chosen config w) (sym (global_first config w now))
              (elim (take_global-GlobalOutcome w good.global_good) [
                | got global x out counted e ↦
                    from_global now (with_global w global) x (ap after_global out)
                      (record { local_good = good.local_good; global_good = counted }) e refl
                | none_left out e ↦ elim (next_local_task-LocalOutcome w good.local_good) [
                  | found w' x out' good' order same ↦
                      oldest w' x (ap after_global out ∙ ap (λ p. some p) out')
                        (IsSound-same w w' good good' same)
                        (ap₂ (λ l g. l ++ g.tasks) order (sym same))
                  | dry w' out' good' order next waits same ↦
                      nothing_left w' (ap after_global out ∙ ap (λ p. some p) out')
                        (IsSound-same w w' good good' same) (ap₂ (λ l g. l ++ g) order e)
                        (ap₂ (λ l g. l ++ g) (dry-tasks w' next waits) (ap (λ g. g.tasks) same ∙ e))
                ]
              ])
        | no other ↦
            subst (Chosen config w) (sym (local_first config w other))
              (elim (next_local_task-LocalOutcome w good.local_good) [
                | found w' x out good' order same ↦
                    oldest w' x (ap after_local out) (IsSound-same w w' good good' same)
                      (ap₂ (λ l g. l ++ g.tasks) order (sym same))
                | dry w' out good' order next waits same ↦
                    subst (Chosen config w) (sym (ap after_local out)) (
                      then_global config w w' (IsSound-same w w' good good' same) order next waits
                        same)
              ])
      ]
