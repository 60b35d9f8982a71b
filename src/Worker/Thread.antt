-- ===== src/Worker/Thread.antt =====
-- The class Worker. One worker's code runs alone, between two of its accesses to what is shared no
-- other worker does anything.
use zedlibs.Prelude.{
  ℕ, ◌+◌, ◌-◌, ◌/◌, ◌%◌, ◌^◌, min, List, [], ◌∷◌, Option, none, some, Bool, true, false, not, ◌&&◌,
  ◌||◌, ◌==◌, ltb, if◌then◌else◌,
}
use zedlibs.Idle.{
  transition_worker_to_sleeping, transition_worker_to_searching, transition_worker_from_searching,
  remove, contains,
}
use zedlibs.Queue.Global.{GlobalQueue, pop_n}
use zedlibs.Queue.Global
use zedlibs.Queue.Local.{
  LocalQueue, push_back_or_overflow, push_batch, remaining_slots, pop, steal_into, capacity,
}
use zedlibs.Queue.Local
use zedlibs.Worker.Shared.{Shared, wake_up_one, wake_up_if_work_pending, next_global_task}
use zedlibs.Worker.Driver.{Events}
use zedlibs.Worker.Driver

pub record Config : Type 0 where
  pub io_interval : ℕ
  pub global_queue_interval : ℕ

-- `shared` is the object that all workers share.
pub record Worker {ℓ} (A : Type ℓ) : Type ℓ where
  pub shared : Shared A
  pub index : ℕ
  pub tick_count : ℕ
  pub run_next : Option A
  pub is_shutdown : Bool
  pub is_searching : Bool

abbrev pub has_value {ℓ} : {A : Type ℓ} → Option A → Bool
has_value none = false
has_value (some _) = true

-- The queues with another one at index `i`.
abbrev pub set_queue {ℓ} : {A : Type ℓ} → Shared A → ℕ → LocalQueue A → Shared A
set_queue shared i q = record shared { queues = λ j. if j == i then q else shared.queues j }

module _ {ℓ} {A : Type ℓ} where
  -- `local_queue_`
  abbrev pub local_queue : Worker A → LocalQueue A
  local_queue w = w.shared.queues w.index

  abbrev pub set_local : Worker A → LocalQueue A → GlobalQueue A → Worker A
  set_local w q global = record w {
    shared = record (set_queue w.shared w.index q) { global_queue = global };
  }

  abbrev pub with_shared : Worker A → Option (Shared A) → Option (Worker A)
  with_shared w none = none
  with_shared w (some shared) = some (record w { shared = shared })

  unfoldable pub schedule_local : Worker A → A → Option (Worker A)
  schedule_local w task = elim w.run_next [
    | none ↦ some (record w { run_next = some task })
    | some next ↦ elim (push_back_or_overflow 1 (local_queue w) next w.shared.global_queue) [
      | none ↦ none
      | some (q, global) ↦
          let w' = set_local (record w { run_next = some task }) q global in
          with_shared w' (wake_up_one w'.shared)
    ]
  ]

  unfoldable pub has_tasks : Worker A → Bool
  has_tasks w = has_value w.run_next || not (Local.empty (local_queue w))

  unfoldable pub transition_from_searching : Worker A → Option (Worker A)
  transition_from_searching w =
      let (idle, last) = transition_worker_from_searching w.shared.idle in
      let w' = record w { is_searching = false; shared = record w.shared { idle = idle } } in
      if not w.is_searching
      then some w
      else if last
      then with_shared w' (wake_up_one w'.shared)
      else some w'

  unfoldable pub transition_to_searching : Worker A → Worker A × Bool
  transition_to_searching w =
      let (idle, searching) = transition_worker_to_searching w.shared.idle in
      if w.is_searching then (w, true) else (
        record w { is_searching = searching; shared = record w.shared { idle = idle } },
        searching,
      )

  unfoldable pub transition_to_sleeping : Worker A → Option (Worker A × Bool)
  transition_to_sleeping w =
      let (idle, last) = transition_worker_to_sleeping w.shared.idle w.index w.is_searching in
      let w' = record w { is_searching = false; shared = record w.shared { idle = idle } } in
      if has_tasks w
      then some (w, false)
      else if last
      then elim (wake_up_if_work_pending w'.shared) [
        | none ↦ none
        | some shared ↦ some (record w' { shared = shared }, true)
      ]
      else some (w', true)

  unfoldable pub transition_from_sleeping : Worker A → Worker A × Bool
  transition_from_sleeping w =
      let (idle, removed) = remove w.shared.idle w.index in
      if has_tasks w
      then (record w { is_searching = not removed; shared = record w.shared { idle = idle } }, true)
      else if contains w.shared.idle.sleeping_workers w.index
      then (w, false)
      else (record w { is_searching = true }, true)

  unfoldable pub should_notify_others : Worker A → Bool
  should_notify_others w = not w.is_searching && ltb 1 (Local.size (local_queue w))

  -- `tick_` is a `uint32_t`.
  unfoldable pub tick : Worker A → Worker A
  tick w = record w { tick_count = (w.tick_count + 1) % 2 ^ 32 }

  unfoldable pub check_shutdown : Worker A → Worker A
  check_shutdown w =
      if w.is_shutdown then w else record w { is_shutdown = w.shared.global_queue.is_closed }

  -- `poll`, with the events that the driver finds: whether there are any.
  unfoldable pub poll : Worker A → Events A → Option (Worker A × Bool)
  poll w events = elim (Driver.poll events (local_queue w) w.shared.global_queue) [
    | none ↦ none
    | some (q, global, happened) ↦
        let w' = set_local w q global in
        if not happened
        then some (w', false)
        else if should_notify_others w'
        then elim (wake_up_one w'.shared) [
          | none ↦ none
          | some shared ↦ some (record w' { shared = shared }, true)
        ]
        else some (w', true)
  ]

  unfoldable pub maintenance : Config → Worker A → Events A → Option (Worker A)
  maintenance config w events =
      if not (w.tick_count % config.io_interval == 0)
      then some w
      else elim (poll w events) [ none ↦ none | some (w', _) ↦ some (check_shutdown w') ]

  unfoldable pub next_local_task : Worker A → Worker A × Option A
  next_local_task w = elim w.run_next [
    | some task ↦ (record w { run_next = none }, some task)
    | none ↦
        let (q, task) = pop (local_queue w) in
        (record w { shared = set_queue w.shared w.index q }, task)
  ]

  unfoldable pub take_global : Worker A → Worker A × Option A
  take_global w =
      let (shared, task) = next_global_task w.shared in (record w { shared = shared }, task)

  -- The first of the tasks that were popped runs, the others go to the local queue. `none` is the
  -- exception or a failed assertion there.
  unfoldable pub keep_others : Worker A → List A → ℕ → Option (Worker A × Option A)
  keep_others w [] n = none
  keep_others w (result ∷ tasks) n =
      if not (ltb 0 (n - 1))
      then some (w, some result)
      else elim (push_batch (local_queue w) tasks (n - 1)) [
        | none ↦ none
        | some q ↦ some (record w { shared = set_queue w.shared w.index q }, some result)
      ]

  -- A batch from the global queue, where the local queue had nothing.
  unfoldable pub pull_batch : Worker A → Option (Worker A × Option A)
  pull_batch w = elim (remaining_slots (local_queue w)) [
    | none ↦ none
    | some slots ↦
        let room : ℕ = min slots (capacity / 2) in
        let n : ℕ = min (Global.size w.shared.global_queue / w.shared.workers + 1) room in
        let (global, taken, tasks) = pop_n w.shared.global_queue n in
        if room == 0
        then some (take_global w)
        else if taken == 0
        then some (record w { shared = record w.shared { global_queue = global } }, none)
        else keep_others (record w { shared = record w.shared { global_queue = global } }) tasks
            taken
  ]

  unfoldable pub get_next_task : Config → Worker A → Option (Worker A × Option A)
  get_next_task config w =
      if w.tick_count % config.global_queue_interval == 0
      then (let (w', found) = take_global w in
          elim found [ some task ↦ some (w', some task) | none ↦ some (next_local_task w') ])
      else (let (w', found) = next_local_task w in
          elim found [
            | some task ↦ some (w', some task)
            | none ↦ if Global.empty w'.shared.global_queue then some (w', none) else pull_batch w'
          ])
