-- ===== src/Queue/Global.antt =====
-- The class GlobalQueue. Each operation runs under the queue's mutex.
use zedlibs.Prelude.{
  ℕ, ◌+◌, ◌-◌, ◌^◌, ◌%◌, min, List, [], ◌∷◌, ◌++◌, take, drop, Option, none, some, Bool, true,
  false, ◌==◌, ltb, if◌then◌else◌,
}

pub record GlobalQueue {ℓ} (A : Type ℓ) : Type ℓ where
  pub tasks : List A
  pub num : ℕ
  pub is_closed : Bool

-- `num_.fetch_sub(n)`
abbrev pub minus64 : ℕ → ℕ → ℕ
minus64 a b = if ltb a b then a + 2 ^ 64 - b else a - b

module _ {ℓ} {A : Type ℓ} where
  unfoldable pub make : GlobalQueue A
  make = record { tasks = []; num = 0; is_closed = false }

  unfoldable pub size : GlobalQueue A → ℕ
  size q = q.num

  unfoldable pub empty : GlobalQueue A → Bool
  empty q = q.num == 0

  unfoldable pub push : GlobalQueue A → A → GlobalQueue A
  push q task =
      if q.is_closed
      then q
      else record q { tasks = q.tasks ++ task ∷ []; num = (q.num + 1) % 2 ^ 64 }

  unfoldable pub push_batch : GlobalQueue A → List A → ℕ → GlobalQueue A
  push_batch q tasks n =
      if q.is_closed then q else record q { tasks = q.tasks ++ tasks; num = (q.num + n) % 2 ^ 64 }

  unfoldable pub pop : GlobalQueue A → GlobalQueue A × Option A
  pop q = elim q.tasks [
    | [] ↦ (q, none)
    | task ∷ tasks ↦ (record q { tasks = tasks; num = minus64 q.num 1 }, some task)
  ]

  -- The queue afterwards, the number of tasks that are taken, and the tasks.
  unfoldable pub pop_n : GlobalQueue A → ℕ → GlobalQueue A × ℕ × List A
  pop_n q n =
      let taken : ℕ = min q.num n in
      (
        record q { tasks = drop taken q.tasks; num = minus64 q.num taken },
        taken,
        take taken q.tasks,
      )

  unfoldable pub close : GlobalQueue A → GlobalQueue A × Bool
  close q = if q.is_closed then (q, false) else (record q { is_closed = true }, true)
