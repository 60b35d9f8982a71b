-- ===== src/Worker/Tests.antt =====
-- Workers that meet the hypotheses of their theorems, and runs of a worker.
use zedlibs.Prelude.{
  ℕ, ◌+◌, ◌*◌, ◌^◌, ◌≡◌, refl, [], ◌∷◌, Option, none, some, true, false, ◌==◌, if◌then◌else◌, arith,
}
use zedlibs.Idle.{Idle, num_working, num_searching, contains}
use zedlibs.Idle.Counts.{Counted, act, falls_asleep, act-Counted}
use zedlibs.Queue.Local.{LocalQueue, unpack, pack, push_batch, put_all, remaining_slots}
use zedlibs.Queue.Local
use zedlibs.Queue.Owner.{IsValid}
use zedlibs.Worker.Shared.{Shared}
use zedlibs.Worker.Driver.{Events}
use zedlibs.Worker.Thread.{
  Config, Worker, get_next_task, next_local_task, schedule_local, transition_to_sleeping,
}
use zedlibs.Worker.Choice.{IsSound}
use zedlibs.Worker.Next.{Chosen, get_next_task-Chosen}
use zedlibs.Worker.Schedule.{Scheduled, schedule_local-Scheduled}
use zedlibs.Worker.Sleep.{Sleeps, transition_to_sleeping-Sleeps}

abbrev empty_queue : LocalQueue ℕ
empty_queue = record { head = 0; tail = 0; buffer = λ i. 0 }

-- The tasks 100, 101 and 102 wait.
abbrev busy_queue : LocalQueue ℕ
busy_queue = record { head = 0; tail = 3; buffer = λ i. 100 + i }

-- Of four workers 0 and 2 work, and 2 searches.
abbrev half_asleep : Idle
half_asleep = record { state = 2 * 2 ^ 16 + 1; num_workers = 4; sleeping_workers = 3 ∷ 1 ∷ [] }

abbrev world : Shared ℕ
world = record {
  idle = half_asleep;
  global_queue = record { tasks = 7 ∷ 8 ∷ 9 ∷ []; num = 3; is_closed = false };
  queues = λ i. if i == 0 then busy_queue else empty_queue;
  workers = 4;
  woken = [];
}

abbrev config : Config
config = record { io_interval = 61; global_queue_interval = 61 }

abbrev worker : ℕ → Worker ℕ
worker i = record {
  shared = world;
  index = i;
  tick_count = 5;
  run_next = none;
  is_shutdown = false;
  is_searching = i == 2;
}

busy_queue-IsValid : IsValid busy_queue
unfolding unpack pack
busy_queue-IsValid = record { packed = refl; tail_small = omega arith; room = omega arith }

empty_queue-IsValid : IsValid empty_queue
unfolding unpack pack
empty_queue-IsValid = record { packed = refl; tail_small = omega arith; room = omega arith }

worker-IsSound : IsSound (worker 2)
worker-IsSound = record {
  local_good = empty_queue-IsValid;
  global_good = record { counted = refl; few = omega arith };
}

half_asleep-Counted : Counted half_asleep
unfolding num_working num_searching
half_asleep-Counted = record {
  good = record { counted = refl; few = omega arith };
  searchers = omega arith;
}

act-Counted_example :
    (idle' : Idle) × (act half_asleep (falls_asleep 2 true) ≡ some idle') × Counted idle'
unfolding num_working num_searching contains
act-Counted_example =
    act-Counted half_asleep (falls_asleep 2 true) half_asleep-Counted
      (refl, omega arith, omega arith)

get_next_task-Chosen_example : Chosen config (worker 2) (get_next_task config (worker 2))
get_next_task-Chosen_example = get_next_task-Chosen config (worker 2) worker-IsSound

schedule_local-Scheduled_example : Scheduled (worker 0) 5 (schedule_local (worker 0) 5)
schedule_local-Scheduled_example =
    schedule_local-Scheduled (worker 0) 5 busy_queue-IsValid half_asleep-Counted.good refl

transition_to_sleeping-Sleeps_example : Sleeps (worker 2) (transition_to_sleeping (worker 2))
unfolding num_working num_searching contains
transition_to_sleeping-Sleeps_example =
    transition_to_sleeping-Sleeps (worker 2) half_asleep-Counted (refl, omega arith, omega arith)

abbrev events : Events ℕ
events = record { completions = some 4 ∷ none ∷ []; expired = some 6 ∷ none ∷ [] }

abbrev task_of : Option (Worker ℕ × Option ℕ) → Option ℕ
task_of none = none
task_of (some (w, task)) = task

own_first : task_of (get_next_task config (worker 0)) ≡ some 100
unfolding get_next_task next_local_task Local.pop unpack pack
own_first = refl
