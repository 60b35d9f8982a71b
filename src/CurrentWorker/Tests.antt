-- ===== src/CurrentWorker/Tests.antt =====
-- A worker that meets the theorems' hypotheses, and runs of it.
use zedlibs.Prelude.{ℕ, ◌≡◌, refl, [], ◌∷◌, none, some, true, false}
use zedlibs.CurrentThread.{pop, pop_all, local_pop, local_push_batch, local_push}
use zedlibs.CurrentWorker.{
  Config, Events, Worker, next_local_task, take_all, get_next_task, schedule_remote, sleep_loop,
}
use zedlibs.CurrentWorker.Next.{Chosen, get_next_task-InOrder}
use zedlibs.CurrentWorker.Sleep.{sleep_loop-schedule_remote}

abbrev config : Config
config = record { io_interval = 61; global_queue_interval = 61 }

abbrev worker : Worker ℕ
worker = record {
  global_queue = record { tasks = 7 ∷ 8 ∷ []; is_closed = false };
  local_queue = [];
  run_next = none;
  tick_count = 5;
  is_shutdown = false;
  wake_ups = 0;
}

abbrev events : Events ℕ
events = record { handles = []; count = 0 }

get_next_task-InOrder_example : Chosen config worker (get_next_task config worker)
get_next_task-InOrder_example = get_next_task-InOrder config worker refl

sleep_loop-schedule_remote_example :
    ((schedule_remote worker 3).wake_ups ≡ 1)
    × ((sleep_loop (events ∷ []) (schedule_remote worker 3)).1 ≡ true)
    × ((sleep_loop (events ∷ []) (schedule_remote worker 3)).0.is_shutdown ≡ false)
    × ((sleep_loop (events ∷ []) (schedule_remote worker 3)).0.global_queue.tasks ≡ 7 ∷ 8 ∷ 3 ∷ [])
sleep_loop-schedule_remote_example = sleep_loop-schedule_remote worker 3 events [] refl refl

first_global : (get_next_task config worker).1 ≡ some 7
unfolding get_next_task next_local_task take_all pop pop_all local_pop
first_global = refl

others_local : (get_next_task config worker).0.local_queue ≡ 8 ∷ []
unfolding get_next_task next_local_task take_all pop_all local_pop local_push_batch local_push
others_local = refl
