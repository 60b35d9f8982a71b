-- ===== src/CurrentWorker/Sleep.antt =====
-- A call from another thread ends the worker's sleep.
use zedlibs.Prelude.{suc, ◌≡◌, refl, List, [], ◌∷◌, ◌++◌, true, false, arith}
use zedlibs.CurrentThread.{push, close, empty, is_nil}
use zedlibs.CurrentWorker.{
  Events, Worker, wake_up, schedule_remote, close_worker, check_shutdown, poll, sleep_loop,
}

module _ {ℓ} {A : Type ℓ} where
  not_nil : (l : List A) (x : A) → is_nil (l ++ x ∷ []) ≡ false
  not_nil [] x = refl
  not_nil (y ∷ l) x = refl

  -- A sleeping worker of an open runtime, to which another thread schedules a task: the driver is woken
  -- up once, and after one more wait the worker has left the loop, is not shut down, and the task is
  -- the last of the global queue.
  pub sleep_loop-schedule_remote :
      (w : Worker A) (task : A) (events : Events A) (waits : List (Events A))
      → w.is_shutdown ≡ false
      → w.global_queue.is_closed ≡ false
      → ((schedule_remote w task).wake_ups ≡ suc w.wake_ups)
        × ((sleep_loop (events ∷ waits) (schedule_remote w task)).1 ≡ true)
        × ((sleep_loop (events ∷ waits) (schedule_remote w task)).0.is_shutdown ≡ false)
        × ((sleep_loop (events ∷ waits) (schedule_remote w task)).0.global_queue.tasks
            ≡ w.global_queue.tasks ++ task ∷ [])
  unfolding sleep_loop schedule_remote wake_up push check_shutdown poll empty
  sleep_loop-schedule_remote w task events waits down open_now =
      ground (arith, down, open_now, not_nil w.global_queue.tasks task)

  -- A sleeping worker whose runtime another thread closes: the driver is woken up once, and after one
  -- more wait the worker has left the loop and is shut down.
  pub sleep_loop-close_worker :
      (w : Worker A) (events : Events A) (waits : List (Events A))
      → w.is_shutdown ≡ false
      → w.global_queue.is_closed ≡ false
      → ((close_worker w).wake_ups ≡ suc w.wake_ups)
        × ((sleep_loop (events ∷ waits) (close_worker w)).1 ≡ true)
        × ((sleep_loop (events ∷ waits) (close_worker w)).0.is_shutdown ≡ true)
  unfolding sleep_loop close_worker wake_up close check_shutdown poll
  sleep_loop-close_worker w events [] down open_now = ground (arith, down, open_now)
  sleep_loop-close_worker w events (_ ∷ waits) down open_now = ground (arith, down, open_now)
