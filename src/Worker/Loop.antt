-- ===== src/Worker/Loop.antt =====
-- The loops of the class Worker: stealing, sleeping, and one round of `run`.
use zedlibs.Prelude.{
  ℕ, zero, suc, ◌+◌, ◌%◌, List, [], ◌∷◌, Option, none, some, Bool, true, false, not, ◌==◌,
  if◌then◌else◌,
}
use zedlibs.Queue.Local.{steal_into}
use zedlibs.Worker.Driver.{Events}
use zedlibs.Worker.Driver
use zedlibs.Worker.Thread.{
  Config, Worker, local_queue, set_queue, transition_to_searching, transition_to_sleeping,
  transition_from_sleeping, transition_from_searching, take_global, tick, maintenance,
  get_next_task, poll, check_shutdown,
}

-- What a round of `run` ends with; `sleeps` is a worker that still sleeps when `waits` is used up.
pub data Round {ℓ} (A : Type ℓ) : Type ℓ where
  stops : Round A
  runs : A → Round A
  polled : Round A
  slept : Round A
  sleeps : Round A

module _ {ℓ} {A : Type ℓ} where
  -- The loop of `steal_work`, with `n` workers left from the `i`th after `start` on.
  unfoldable pub steal_from : Worker A → ℕ → ℕ → ℕ → Worker A × Option A
  steal_from w start i zero = (w, none)
  steal_from w start i (suc n) =
      let idx : ℕ = (start + i) % w.shared.workers in
      let (src, dst, result) = steal_into (w.shared.queues idx) (local_queue w) in
      let stolen = record w { shared = set_queue (set_queue w.shared idx src) w.index dst } in
      let next = steal_from (if idx == w.index then w else stolen) start (suc i) n in
      if idx == w.index then next else elim result [ none ↦ next | some task ↦ (stolen, some task) ]

  -- `start` is the random number below the number of workers.
  unfoldable pub steal_work : Worker A → ℕ → Worker A × Option A
  steal_work w start =
      let (w', searching) = transition_to_searching w in
      let (w'', found) = steal_from w' start 0 w'.shared.workers in
      if not searching
      then (w', none)
      else elim found [ some task ↦ (w'', some task) | none ↦ take_global w'' ]

  -- `execute_task`, up to the task's `resume`.
  unfoldable pub execute_task : Worker A → Option (Worker A)
  execute_task w = transition_from_searching w

  -- The loop of `sleep`: each of `waits` is what one `driver_.wait` finds. The flag tells that the
  -- loop has been left.
  unfoldable pub sleep_loop : List (Events A) → Worker A → Option (Worker A × Bool)
  sleep_loop [] w = some (w, w.is_shutdown)
  sleep_loop (events ∷ waits) w = elim w.is_shutdown [
    | true ↦ some (w, true)
    | false ↦ elim (Driver.poll events (local_queue w) w.shared.global_queue) [
      | none ↦ none
      | some (q, global, _) ↦
          let w' = check_shutdown (record w {
            shared = record (set_queue w.shared w.index q) { global_queue = global };
          }) in
          let (w'', awake) = transition_from_sleeping w' in
          elim awake [ true ↦ some (w'', true) | false ↦ sleep_loop waits w'' ]
    ]
  ]

  unfoldable pub sleep : List (Events A) → Worker A → Option (Worker A × Bool)
  sleep waits w = elim (transition_to_sleeping (check_shutdown w)) [
    | none ↦ none
    | some (w', false) ↦ some (w', true)
    | some (w', true) ↦ sleep_loop waits w'
  ]

  -- The steps 3 and 4.
  unfoldable pub poll_or_sleep : Worker A → Events A → List (Events A) → Option (Worker A × Round A)
  poll_or_sleep w events waits = elim (poll w events) [
    | none ↦ none
    | some (w', true) ↦ some (w', polled)
    | some (w', false) ↦ elim (sleep waits w') [
      | none ↦ none
      | some (w'', true) ↦ some (w'', slept)
      | some (w'', false) ↦ some (w'', sleeps)
    ]
  ]

  unfoldable pub run_task : Worker A → A → Option (Worker A × Round A)
  run_task w task = elim (execute_task w) [ none ↦ none | some w' ↦ some (w', runs task) ]

  -- One round of `while (!is_shutdown_)`. `first` and `second` are what the two polls find.
  unfoldable pub run_round :
      Config → Worker A → ℕ → Events A → Events A → List (Events A) → Option (Worker A × Round A)
  run_round config w start first second waits =
      if w.is_shutdown then some (w, stops) else elim (maintenance config (tick w) first) [
        | none ↦ none
        | some w1 ↦ elim (get_next_task config w1) [
          | none ↦ none
          | some (w2, some task) ↦ run_task w2 task
          | some (w2, none) ↦
              let (w3, found) = steal_work w2 start in
              elim found [ some task ↦ run_task w3 task | none ↦ poll_or_sleep w3 second waits ]
        ]
      ]
