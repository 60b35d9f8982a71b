-- ===== src/Worker/Shared.antt =====
-- zedio/runtime/multi_thread/shared.hpp, and the three wake-ups at the end of worker.hpp.
use zedlibs.Prelude.{
  ℕ, zero, suc, List, [], ◌∷◌, ◌++◌, Option, none, some, Bool, false, not, ◌||◌, if◌then◌else◌,
}
use zedlibs.Idle.{Idle, worker_to_notify}
use zedlibs.Queue.Global.{GlobalQueue}
use zedlibs.Queue.Global
use zedlibs.Queue.Local.{LocalQueue}
use zedlibs.Queue.Local

-- `queues` has `workers_[i]->local_queue_` at `i`, and `workers` is the size of `workers_`. `woken`
-- records the calls of `wake_up` on the workers, in order.
pub record Shared {ℓ} (A : Type ℓ) : Type ℓ where
  pub idle : Idle
  pub global_queue : GlobalQueue A
  pub queues : ℕ → LocalQueue A
  pub workers : ℕ
  pub woken : List ℕ

-- The numbers from `i` on.
abbrev pub up_from : ℕ → ℕ → List ℕ
up_from i zero = []
up_from i (suc n) = i ∷ up_from (suc i) n

module _ {ℓ} {A : Type ℓ} where
  -- `none` is the look into an empty set of sleeping workers.
  unfoldable pub wake_up_one : Shared A → Option (Shared A)
  wake_up_one shared = elim (worker_to_notify shared.idle) [
    | none ↦ none
    | some (idle, none) ↦ some (record shared { idle = idle })
    | some (idle, some index) ↦
        some (record shared { idle = idle; woken = shared.woken ++ index ∷ [] })
  ]

  unfoldable pub wake_up_all : Shared A → Shared A
  wake_up_all shared = record shared { woken = shared.woken ++ up_from 0 shared.workers }

  -- The loop of `wake_up_if_work_pending` from worker `i` on: whether it finds a queue with tasks.
  unfoldable pub any_local : (ℕ → LocalQueue A) → ℕ → ℕ → Bool
  any_local queues i zero = false
  any_local queues i (suc n) = not (Local.empty (queues i)) || any_local queues (suc i) n

  unfoldable pub wake_up_if_work_pending : Shared A → Option (Shared A)
  wake_up_if_work_pending shared =
      if any_local shared.queues 0 shared.workers
      then wake_up_one shared
      else if not (Global.empty shared.global_queue)
      then wake_up_one shared
      else some shared

  unfoldable pub next_global_task : Shared A → Shared A × Option A
  next_global_task shared =
      let (global_queue, task) = Global.pop shared.global_queue in
      if Global.empty shared.global_queue
      then (shared, none)
      else (record shared { global_queue = global_queue }, task)

  unfoldable pub close : Shared A → Shared A
  close shared =
      let (global_queue, first) = Global.close shared.global_queue in
      let shared' = record shared { global_queue = global_queue } in
      if first then wake_up_all shared' else shared'

  unfoldable pub schedule_remote : Shared A → A → Option (Shared A)
  schedule_remote shared handle =
      wake_up_one (record shared { global_queue = Global.push shared.global_queue handle })

  unfoldable pub schedule_remote_batch : Shared A → List A → ℕ → Option (Shared A)
  schedule_remote_batch shared handles n =
      wake_up_one (record shared { global_queue = Global.push_batch shared.global_queue handles n })
