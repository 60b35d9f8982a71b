-- ===== src/Worker/Schedule.antt =====
-- `schedule_local`: a task that the worker itself makes ready.
use zedlibs.Prelude.{◌≡◌, refl, sym, ap, ◌∙◌, subst, ◌∷◌, ◌++◌, Option, none, some, false, arith}
use mathlib.Core.List.{Perm}
use mathlib.Core.List.Perm
use zedlibs.Idle.Notify.{WellFormed}
use zedlibs.Queue.Global.{GlobalQueue}
use zedlibs.Queue.Local.{LocalQueue}
use zedlibs.Queue.Owner.{waiting, IsValid}
use zedlibs.Worker.Thread.{Worker, local_queue, set_local, schedule_local}
use zedlibs.Worker.Choice.{to_list, global_tasks}
use zedlibs.Worker.Next.{pending}
use zedlibs.Worker.Pushed.{push-Pushed}
use zedlibs.Worker.Wake.{wake_up_one-Woken}

module _ {ℓ} {A : Type ℓ} where
  pub record Scheduled (w : Worker A) (task : A) (out : Option (Worker A)) : Type ℓ where
    pub w' : Worker A
    pub returns : out ≡ some w'
    pub local_good : IsValid (local_queue w')
    pub idle_good : WellFormed w'.shared.idle
    pub next : w'.run_next ≡ some task
    pub conserved : Perm (pending w') (task ∷ pending w)

  local-set_local :
      (w : Worker A) (q : LocalQueue A) (global : GlobalQueue A)
      → local_queue (set_local w q global) ≡ q
  local-set_local w q global = ground arith

  -- `schedule_local` of a worker with a valid queue and well-formed idle workers in an open runtime: no
  -- assertion fails, and queue and idle workers stay so. The task is the one that runs next; it and the
  -- tasks that were there before are the tasks of the worker and of the global queue, each of them once.
  pub schedule_local-Scheduled :
      (w : Worker A) (task : A)
      → IsValid (local_queue w)
      → WellFormed w.shared.idle
      → w.shared.global_queue.is_closed ≡ false
      → Scheduled w task (schedule_local w task)
  unfolding schedule_local
  schedule_local-Scheduled w task good idle e = by_next w.run_next refl
    where
      by_next : (o : Option A) → w.run_next ≡ o → Scheduled w task (schedule_local w task)
      by_next none now = record {
        w' = record w { run_next = some task };
        returns = rw now refl;
        local_good = good;
        idle_good = idle;
        next = refl;
        conserved =
            subst
              (λ o.
                Perm (task ∷ (waiting (local_queue w) ++ global_tasks w))
                  (task ∷ ((to_list o ++ waiting (local_queue w)) ++ global_tasks w)))
              (sym now) (Perm.refl _);
      }
      by_next (some next) now =
          let pushed = push-Pushed (local_queue w) w.shared.global_queue next good e in
          let w' = set_local (record w { run_next = some task }) pushed.q' pushed.global' in
          let here = local-set_local (record w { run_next = some task }) pushed.q' pushed.global' in
          let woken = wake_up_one-Woken w'.shared idle in
          let woken_queue : woken.shared'.queues w.index ≡ pushed.q' =
            ap (λ queues. queues w.index) woken.same_queues ∙ here in
          record {
            w' = record w' { shared = woken.shared' };
            returns = rw (now, schedule_local) (rw (pushed.returns) (rw (woken.returns) refl));
            local_good = subst IsValid (sym woken_queue) pushed.good;
            idle_good = woken.good;
            next = refl;
            conserved =
                subst
                  (λ (q : LocalQueue A).
                    Perm (task ∷ (waiting q ++ woken.shared'.global_queue.tasks))
                      (task ∷ pending w))
                  (sym woken_queue)
                  (subst
                    (λ (g : GlobalQueue A).
                      Perm (task ∷ (waiting pushed.q' ++ g.tasks)) (task ∷ pending w))
                    (sym woken.same_global)
                    (Perm.cons task (
                      subst
                        (λ o.
                          Perm (waiting pushed.q' ++ pushed.global'.tasks)
                            ((to_list o ++ waiting (local_queue w)) ++ global_tasks w))
                        (sym now) pushed.conserved)));
          }
