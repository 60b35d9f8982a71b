-- ===== src/Idle.antt =====
-- zedio/runtime/multi_thread/idle.hpp: how many workers work and search for tasks, packed into one
-- word, and the workers that sleep.
pub mod Notify
pub mod Counts
mod Tests
use zedlibs.Prelude.{
  ℕ, ◌+◌, ◌-◌, ◌*◌, ◌/◌, ◌%◌, ◌^◌, List, [], ◌∷◌, Option, none, some, Bool, true, false, not, ◌&&◌,
  ◌||◌, ◌==◌, ltb, leb, if◌then◌else◌,
}

-- `std::atomic<std::size_t>` and its `fetch_add` and `fetch_sub`
abbrev pub plus64 : ℕ → ℕ → ℕ
plus64 x y = (x + y) % 2 ^ 64

abbrev pub minus64 : ℕ → ℕ → ℕ
minus64 x y = if ltb x y then x + 2 ^ 64 - y else x - y

-- `num_workers << WORKING_SHIFT`
unfoldable pub new_state : ℕ → ℕ
new_state num_workers = num_workers * 2 ^ 16 % 2 ^ 64

unfoldable pub num_searching : ℕ → ℕ
num_searching state = state % 2 ^ 16

unfoldable pub num_working : ℕ → ℕ
num_working state = state / 2 ^ 16

abbrev pub num_working_and_searching : ℕ → ℕ × ℕ
num_working_and_searching state = (num_working state, num_searching state)

unfoldable pub inc_num_searching : ℕ → ℕ
inc_num_searching state = plus64 state 1

-- The state afterwards, and whether this was the final searching worker.
unfoldable pub dec_num_searching : ℕ → ℕ × Bool
dec_num_searching state = (minus64 state 1, num_searching state == 1)

-- `state_.fetch_add(num_searching | (1 << WORKING_SHIFT))`; it is called with 0 and 1.
unfoldable pub wake_up_one : ℕ → ℕ → ℕ
wake_up_one state searching = plus64 state (searching + 2 ^ 16)

unfoldable pub dec_num_working : ℕ → Bool → ℕ × Bool
dec_num_working state is_searching = (
  minus64 state (if is_searching then 2 ^ 16 + 1 else 2 ^ 16),
  is_searching && (num_searching state == 1),
)

-- `sleeping_workers` is a set; the list has its elements in the order of `begin()`.
pub record Idle : Type 0 where
  pub state : ℕ
  pub num_workers : ℕ
  pub sleeping_workers : List ℕ

unfoldable pub make : ℕ → Idle
make num_workers = record {
  state = new_state num_workers;
  num_workers = num_workers;
  sleeping_workers = [];
}

unfoldable pub contains : List ℕ → ℕ → Bool
contains [] worker = false
contains (w ∷ workers) worker = (w == worker) || contains workers worker

unfoldable pub erase : List ℕ → ℕ → List ℕ
erase [] worker = []
erase (w ∷ workers) worker =
    let rest = erase workers worker in if w == worker then workers else w ∷ rest

unfoldable pub notify_should_wakeup : Idle → Bool
notify_should_wakeup idle =
    (num_searching idle.state == 0) && ltb (num_working idle.state) idle.num_workers

-- The outer `none` is `*begin()` of an empty set. The second test, under the mutex, sees the state of
-- the first.
unfoldable pub worker_to_notify : Idle → Option (Idle × Option ℕ)
worker_to_notify idle =
    if not (notify_should_wakeup idle) then some (idle, none) else elim idle.sleeping_workers [
      | [] ↦ none
      | worker ∷ workers ↦ some (
        record idle { state = wake_up_one idle.state 1; sleeping_workers = workers },
        some worker,
      )
    ]

unfoldable pub transition_worker_to_sleeping : Idle → ℕ → Bool → Idle × Bool
transition_worker_to_sleeping idle worker is_searching =
    let (state, result) = dec_num_working idle.state is_searching in
    (
      record idle {
        state = state;
        sleeping_workers =
            if contains idle.sleeping_workers worker
            then idle.sleeping_workers
            else worker ∷ idle.sleeping_workers;
      },
      result,
    )

unfoldable pub transition_worker_to_searching : Idle → Idle × Bool
transition_worker_to_searching idle =
    if leb idle.num_workers (2 * num_searching idle.state)
    then (idle, false)
    else (record idle { state = inc_num_searching idle.state }, true)

unfoldable pub transition_worker_from_searching : Idle → Idle × Bool
transition_worker_from_searching idle =
    let (state, result) = dec_num_searching idle.state in (record idle { state = state }, result)

unfoldable pub remove : Idle → ℕ → Idle × Bool
remove idle worker =
    if contains idle.sleeping_workers worker
    then (
      record idle {
        state = wake_up_one idle.state 0;
        sleeping_workers = erase idle.sleeping_workers worker;
      },
      true,
    )
    else (idle, false)
