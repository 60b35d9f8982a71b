-- ===== src/Worker/Choice.antt =====
-- `get_next_task`: which task a worker runs next.
use zedlibs.Prelude.{
  suc, ◌≡◌, refl, sym, ap, ◌∙◌, subst, List, [], ◌∷◌, ◌++◌, length, Option, none, some, true, false,
  ◌==◌, arith,
}
use zedlibs.Queue.Global.{GlobalQueue, pop_n}
use zedlibs.Queue.Global
use zedlibs.Queue.Local.{LocalQueue}
use zedlibs.Queue.Owner.{waiting, IsValid, nothing, taken, pop-PopOutcome}
use zedlibs.Queue.Shared.{IsCounted}
use zedlibs.Worker.Shared.{next_global_task}
use zedlibs.Worker.Thread.{Worker, local_queue, set_queue, next_local_task, take_global}

module _ {ℓ} {A : Type ℓ} where
  abbrev pub to_list : Option A → List A
  to_list none = []
  to_list (some x) = x ∷ []

  -- The tasks of the worker itself, in the order in which it takes them.
  abbrev pub local_tasks : Worker A → List A
  local_tasks w = to_list w.run_next ++ waiting (local_queue w)

  abbrev pub global_tasks : Worker A → List A
  global_tasks w = w.shared.global_queue.tasks

  pub record IsSound (w : Worker A) : Type ℓ where
    pub local_good : IsValid (local_queue w)
    pub global_good : IsCounted w.shared.global_queue

  abbrev pub with_queue : Worker A → LocalQueue A → Worker A
  with_queue w q = record w { shared = set_queue w.shared w.index q }

  abbrev pub with_global : Worker A → GlobalQueue A → Worker A
  with_global w global = record w { shared = record w.shared { global_queue = global } }

  pub local-with_queue : (w : Worker A) (q : LocalQueue A) → local_queue (with_queue w q) ≡ q
  local-with_queue w q = ground arith

  pub data LocalOutcome (w : Worker A) (out : Worker A × Option A) : Type ℓ where
    found :
        (w' : Worker A) (x : A)
        → out ≡ (w', some x)
        → IsValid (local_queue w')
        → local_tasks w ≡ x ∷ local_tasks w'
        → w'.shared.global_queue ≡ w.shared.global_queue
        → LocalOutcome w out
    dry :
        (w' : Worker A)
        → out ≡ (w', none)
        → IsValid (local_queue w')
        → local_tasks w ≡ []
        → w'.run_next ≡ none
        → waiting (local_queue w') ≡ []
        → w'.shared.global_queue ≡ w.shared.global_queue
        → LocalOutcome w out

  pub next_local_task-LocalOutcome :
      (w : Worker A) → IsValid (local_queue w) → LocalOutcome w (next_local_task w)
  unfolding next_local_task
  next_local_task-LocalOutcome w good = by_next w.run_next refl
    where
      by_next : (next : Option A) → w.run_next ≡ next → LocalOutcome w (next_local_task w)
      by_next (some task) e =
          found (record w { run_next = none }) task (rw e refl) good
            (ap (λ o. to_list o ++ waiting (local_queue w)) e) refl
      by_next none e = elim (pop-PopOutcome (local_queue w) good) [
        | nothing waits out ↦
            let here = local-with_queue w (local_queue w) in
            dry (with_queue w (local_queue w)) (rw (e, out) refl) (subst IsValid (sym here) good)
              (ap (λ o. to_list o ++ waiting (local_queue w)) e ∙ waits) e
              (ap (λ q. waiting q) here ∙ waits) refl
        | taken q' x out popped ↦
            let here = local-with_queue w q' in
            found (with_queue w q') x (rw (e, out) refl) (subst IsValid (sym here) popped.good)
              (ap (λ o. to_list o ++ waiting (local_queue w)) e
                ∙ popped.oldest
                ∙ ap (λ q. x ∷ waiting q) (sym here)
                ∙ ap (λ o. x ∷ (to_list o ++ waiting (local_queue (with_queue w q')))) (sym e))
              refl
      ]

  pub data GlobalOutcome (w : Worker A) (out : Worker A × Option A) : Type ℓ where
    got :
        (global : GlobalQueue A) (x : A)
        → out ≡ (with_global w global, some x)
        → IsCounted global
        → global_tasks w ≡ x ∷ global.tasks
        → GlobalOutcome w out
    none_left : out ≡ (w, none) → global_tasks w ≡ [] → GlobalOutcome w out

  pub take_global-GlobalOutcome :
      (w : Worker A) → IsCounted w.shared.global_queue → GlobalOutcome w (take_global w)
  unfolding take_global next_global_task Global.pop Global.empty
  take_global-GlobalOutcome w good = by_tasks (global_tasks w) refl
    where
      by_tasks : (l : List A) → global_tasks w ≡ l → GlobalOutcome w (take_global w)
      by_tasks [] e =
          let zero_num : w.shared.global_queue.num ≡ 0 = good.counted ∙ ap length e in
          let test : (w.shared.global_queue.num == 0) ≡ true = ground (arith, zero_num) in
          none_left (rw test refl) e
      by_tasks (x ∷ tasks) e =
          let num : w.shared.global_queue.num ≡ suc (length tasks) = good.counted ∙ ap length e in
          let test : (w.shared.global_queue.num == 0) ≡ false = ground (arith, num) in
          got
            (record w.shared.global_queue {
              tasks = tasks;
              num = Global.minus64 w.shared.global_queue.num 1;
            })
            x (rw (test, e) refl)
            (record { counted = ground (arith, num); few = ground (arith, num, good.few) }) e
