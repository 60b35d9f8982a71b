-- ===== src/CurrentThread.antt =====
-- zedio/runtime/current_thread/queue.hpp: the queues of the runtime with one worker.
use zedlibs.Prelude.{
  ℕ, List, [], ◌∷◌, ◌++◌, length, Option, none, some, Bool, true, false, if◌then◌else◌,
}

pub record GlobalQueue {ℓ} (A : Type ℓ) : Type ℓ where
  pub tasks : List A
  pub is_closed : Bool

abbrev pub is_nil {ℓ} : {A : Type ℓ} → List A → Bool
is_nil [] = true
is_nil (_ ∷ _) = false

-- The first of the tasks, and the others.
abbrev pub pop_front {ℓ} : {A : Type ℓ} → List A → List A × Option A
pop_front [] = ([], none)
pop_front (task ∷ tasks) = (tasks, some task)

module _ {ℓ} {A : Type ℓ} where
  unfoldable pub push : GlobalQueue A → A → GlobalQueue A
  push q handle = if q.is_closed then q else record q { tasks = q.tasks ++ handle ∷ [] }

  unfoldable pub push_batch : GlobalQueue A → List A → GlobalQueue A
  push_batch q handles = if q.is_closed then q else record q { tasks = q.tasks ++ handles }

  unfoldable pub pop : GlobalQueue A → GlobalQueue A × Option A
  pop q =
      let (tasks, result) = pop_front q.tasks in
      if q.is_closed then (q, none) else (record q { tasks = tasks }, result)

  unfoldable pub pop_all : GlobalQueue A → GlobalQueue A × List A
  pop_all q = if q.is_closed then (q, []) else (record q { tasks = [] }, q.tasks)

  unfoldable pub close : GlobalQueue A → GlobalQueue A × Bool
  close q = if q.is_closed then (q, false) else (record q { is_closed = true }, true)

  unfoldable pub empty : GlobalQueue A → Bool
  empty q = is_nil q.tasks

  unfoldable pub size : GlobalQueue A → ℕ
  size q = length q.tasks

  -- The class LocalQueue is a `std::queue` of tasks.
  unfoldable pub local_push : List A → A → List A
  local_push tasks task = tasks ++ task ∷ []

  unfoldable pub local_push_back_or_overflow : List A → A → GlobalQueue A → List A
  local_push_back_or_overflow tasks task global = local_push tasks task

  unfoldable pub local_push_batch : List A → List A → List A
  local_push_batch tasks [] = tasks
  local_push_batch tasks (handle ∷ handles) = local_push_batch (local_push tasks handle) handles

  unfoldable pub local_pop : List A → List A × Option A
  local_pop tasks = pop_front tasks
