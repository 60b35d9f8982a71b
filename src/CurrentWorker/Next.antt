-- ===== src/CurrentWorker/Next.antt =====
-- The order in which the worker runs its tasks.
use zedlibs.Prelude.{
  ℕ, ◌%◌, ◌≡◌, refl, sym, ap, subst, ◌∙◌, List, [], ◌∷◌, ◌++◌, append-nil, append_assoc, Option,
  none, some, Bool, true, false, ◌==◌, arith, ==_iff, Bool-cases, inl, inr,
}
use zedlibs.CurrentThread.{pop, pop_all, local_push, local_push_batch, local_pop}
use zedlibs.CurrentWorker.{Config, Worker, next_local_task, take_all, get_next_task}

module _ {ℓ} {A : Type ℓ} where
  abbrev pub to_list : Option A → List A
  to_list none = []
  to_list (some x) = x ∷ []

  abbrev pub local_tasks : Worker A → List A
  local_tasks w = to_list w.run_next ++ w.local_queue

  pub local_push_batch-append : (q l : List A) → local_push_batch q l ≡ q ++ l
  unfolding local_push_batch local_push
  local_push_batch-append q [] = sym (append-nil q)
  local_push_batch-append q (x ∷ l) =
      local_push_batch-append (q ++ x ∷ []) l ∙ append_assoc q (x ∷ []) l

  pub data Chosen (config : Config) (w : Worker A) (out : Worker A × Option A) : Type ℓ where
    from_global :
        w.tick_count % config.global_queue_interval ≡ 0
        → (w' : Worker A) (x : A) → out ≡ (w', some x)
        → w.global_queue.tasks ≡ x ∷ w'.global_queue.tasks
        → local_tasks w' ≡ local_tasks w
        → Chosen config w out
    oldest :
        (w' : Worker A) (x : A)
        → out ≡ (w', some x)
        → local_tasks w ++ w.global_queue.tasks ≡ x ∷ (local_tasks w' ++ w'.global_queue.tasks)
        → Chosen config w out
    nothing_left :
        (w' : Worker A)
        → out ≡ (w', none)
        → local_tasks w ++ w.global_queue.tasks ≡ []
        → Chosen config w out

  abbrev worker_of : List A → List A → Option A → ℕ → Bool → ℕ → Worker A
  worker_of global local next t down wakes = record {
    global_queue = record { tasks = global; is_closed = false };
    local_queue = local;
    run_next = next;
    tick_count = t;
    is_shutdown = down;
    wake_ups = wakes;
  }

  module _ (config : Config) (t : ℕ) (down : Bool) (wakes : ℕ) where
    global_now :
        (global local : List A) (next : Option A)
        → (t % config.global_queue_interval == 0) ≡ true
        → Chosen config
            (worker_of global local next t down wakes)
            (get_next_task config (worker_of global local next t down wakes))
    unfolding get_next_task next_local_task pop local_pop
    global_now (x ∷ global) local next e =
        from_global (omega (arith, (==_iff (t % config.global_queue_interval) 0).0 e))
          (worker_of global local next t down wakes) x (rw e refl) refl refl
    global_now [] local (some x) e =
        oldest (worker_of [] local none t down wakes) x (rw e refl) refl
    global_now [] (x ∷ local) none e =
        oldest (worker_of [] local none t down wakes) x (rw e refl) refl
    global_now [] [] none e = nothing_left (worker_of [] [] none t down wakes) (rw e refl) refl

    local_now :
        (global local : List A) (next : Option A)
        → (t % config.global_queue_interval == 0) ≡ false
        → Chosen config
            (worker_of global local next t down wakes)
            (get_next_task config (worker_of global local next t down wakes))
    unfolding get_next_task next_local_task local_pop pop_all take_all
    local_now global local (some x) e =
        oldest (worker_of global local none t down wakes) x (rw e refl) refl
    local_now global (x ∷ local) none e =
        oldest (worker_of global local none t down wakes) x (rw e refl) refl
    local_now [] [] none e = nothing_left (worker_of [] [] none t down wakes) (rw e refl) refl
    local_now (x ∷ global) [] none e =
        oldest (worker_of [] (local_push_batch [] global) none t down wakes) x (rw e refl) (
          ap (λ l. x ∷ l)
            (sym (append-nil (local_push_batch [] global) ∙ local_push_batch-append [] global)))

  -- `get_next_task` in an open runtime takes the first global task, and leaves the worker's own as they
  -- were, only at a tick that the interval divides. Else it takes the first of `run_next`, the local
  -- queue and the global queue, in this order, and leaves the others in order. It returns nothing only
  -- if there are none.
  pub get_next_task-InOrder :
      (config : Config) (w : Worker A)
      → w.global_queue.is_closed ≡ false
      → Chosen config w (get_next_task config w)
  get_next_task-InOrder config w e =
      let same : worker_of w.global_queue.tasks w.local_queue w.run_next w.tick_count w.is_shutdown
            w.wake_ups
          ≡ w =
        ap (λ b. record w { global_queue = record w.global_queue { is_closed = b } }) (sym e) in
      subst (λ w'. Chosen config w' (get_next_task config w')) same
        (elim (Bool-cases (w.tick_count % config.global_queue_interval == 0)) [
          | inl now ↦
              global_now config w.tick_count w.is_shutdown w.wake_ups w.global_queue.tasks
                w.local_queue w.run_next now
          | inr other ↦
              local_now config w.tick_count w.is_shutdown w.wake_ups w.global_queue.tasks
                w.local_queue w.run_next other
        ])
