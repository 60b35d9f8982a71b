-- ===== src/CurrentWorker.antt =====
-- zedio/runtime/current_thread/worker.hpp: the worker of the runtime with one thread.
pub mod Next
pub mod Sleep
mod Tests
use zedlibs.Prelude.{
  ℕ, suc, ◌+◌, ◌%◌, ◌^◌, List, [], ◌∷◌, ◌++◌, Option, none, some, Bool, true, false, not, ◌&&◌,
  ◌||◌, ◌==◌, ltb, length, if◌then◌else◌,
}
use zedlibs.CurrentThread.{
  GlobalQueue, push, push_batch, pop, pop_all, close, empty, local_push, local_push_batch,
  local_pop, is_nil,
}

pub record Config : Type 0 where
  pub io_interval : ℕ
  pub global_queue_interval : ℕ

-- The handles that a poll of the driver pushes to the local queue, and the number of completions and
-- expired timers that it counts.
pub record Events {ℓ} (A : Type ℓ) : Type ℓ where
  pub handles : List A
  pub count : ℕ

-- `wake_ups` counts the calls of the driver's `wake_up`.
pub record Worker {ℓ} (A : Type ℓ) : Type ℓ where
  pub global_queue : GlobalQueue A
  pub local_queue : List A
  pub run_next : Option A
  pub tick_count : ℕ
  pub is_shutdown : Bool
  pub wake_ups : ℕ

module _ {ℓ} {A : Type ℓ} where
  unfoldable pub wake_up : Worker A → Worker A
  wake_up w = record w { wake_ups = suc w.wake_ups }

  unfoldable pub close_worker : Worker A → Worker A
  close_worker w =
      let (global_queue, first) = close w.global_queue in
      let w' = record w { global_queue = global_queue } in if first then wake_up w' else w'

  unfoldable pub schedule_local : Worker A → A → Worker A
  schedule_local w task = elim w.run_next [
    | none ↦ record w { run_next = some task }
    | some next ↦ record w { local_queue = local_push w.local_queue next; run_next = some task }
  ]

  unfoldable pub schedule_remote : Worker A → A → Worker A
  schedule_remote w task = wake_up (record w { global_queue = push w.global_queue task })

  unfoldable pub schedule_remote_batch : Worker A → List A → Worker A
  schedule_remote_batch w handles =
      wake_up (record w { global_queue = push_batch w.global_queue handles })

  -- `tick_` is a `uint32_t`.
  unfoldable pub tick : Worker A → Worker A
  tick w = record w { tick_count = (w.tick_count + 1) % 2 ^ 32 }

  unfoldable pub check_shutdown : Worker A → Worker A
  check_shutdown w =
      if w.is_shutdown then w else record w { is_shutdown = w.global_queue.is_closed }

  -- `poll`, with what the driver finds.
  unfoldable pub poll : Worker A → Events A → Worker A × Bool
  poll w events =
      (record w { local_queue = local_push_batch w.local_queue events.handles }, ltb 0 events.count)

  unfoldable pub maintenance : Config → Worker A → Events A → Worker A
  maintenance config w events =
      if w.tick_count % config.io_interval == 0 then check_shutdown (poll w events).0 else w

  unfoldable pub next_local_task : Worker A → Worker A × Option A
  next_local_task w =
      let (local_queue, task) = local_pop w.local_queue in
      elim w.run_next [
        | some next ↦ (record w { run_next = none }, some next)
        | none ↦ (record w { local_queue = local_queue }, task)
      ]

  -- All that the global queue had: the first task runs, the others go to the local queue.
  unfoldable pub take_all : Worker A → List A → Worker A × Option A
  take_all w [] = (w, none)
  take_all w (result ∷ handles) =
      (record w { local_queue = local_push_batch w.local_queue handles }, some result)

  unfoldable pub get_next_task : Config → Worker A → Worker A × Option A
  get_next_task config w =
      let (popped, global_task) = pop w.global_queue in
      let w' = record w { global_queue = popped } in
      let (w'', local_task) = next_local_task w in
      let (emptied, handles) = pop_all w''.global_queue in
      if w.tick_count % config.global_queue_interval == 0
      then elim global_task [ some task ↦ (w', some task) | none ↦ next_local_task w' ]
      else elim local_task [
        | some task ↦ (w'', some task)
        | none ↦ take_all (record w'' { global_queue = emptied }) handles
      ]

  -- The loop of `sleep`: each of `waits` is what one `driver_.wait` finds. The flag tells that the
  -- loop has been left.
  unfoldable pub sleep_loop : List (Events A) → Worker A → Worker A × Bool
  sleep_loop [] w = (w, w.is_shutdown)
  sleep_loop (events ∷ waits) w =
      let w' = check_shutdown (poll w events).0 in
      let rest = sleep_loop waits w' in
      if w.is_shutdown
      then (w, true)
      else if not (is_nil w'.local_queue) || not (empty w'.global_queue)
      then (w', true)
      else rest

  unfoldable pub sleep : List (Events A) → Worker A → Worker A × Bool
  sleep waits w = sleep_loop waits (check_shutdown w)

-- What a round of `run` ends with; `sleeps` is a worker that still sleeps when `waits` is used up.
pub data Round {ℓ} (A : Type ℓ) : Type ℓ where
  stops : Round A
  runs : A → Round A
  polled : Round A
  slept : Round A
  sleeps : Round A

-- One round of `while (!is_shutdown_)`, up to the `resume` of the task that it runs.
unfoldable pub run_round {ℓ} :
    {A : Type ℓ} → Config → Worker A → Events A → Events A → List (Events A) → Worker A × Round A
run_round config w first second waits =
    let (w', found) = get_next_task config (maintenance config (tick w) first) in
    let (w'', happened) = poll w' second in
    let (w3, left) = sleep waits w'' in
    if w.is_shutdown then (w, stops) else elim found [
      | some task ↦ (w', runs task)
      | none ↦ if happened then (w'', polled) else (w3, if left then slept else sleeps)
    ]
