-- ===== src/CondVar.antt =====
-- zedio/sync/condition_variable.hpp: the condition variable, over the coroutine mutex.
use zedlibs.Prelude.{ℕ, List, [], ◌∷◌, Option, none, some, Bool, if◌then◌else◌}
use zedlibs.Mutex.{Mutex, unlock}

-- `awaiters_` is the list of the awaiters, each linked to the one before it.
pub record ConditionVariable : Type 0 where
  pub awaiters : List ℕ

-- What is done to the two objects, and the coroutines that are scheduled.
pub record Done : Type 0 where
  pub cv : ConditionVariable
  pub mutex : Mutex
  pub scheduled : List ℕ

abbrev pub to_list : Option ℕ → List ℕ
to_list none = []
to_list (some handle) = handle ∷ []

-- `await_suspend`: the coroutine is on the list when the lock guard unlocks the mutex. `none` is the
-- failed assertion of `unlock`.
unfoldable pub await_suspend : ConditionVariable → Mutex → ℕ → Option Done
await_suspend cv mutex handle = elim (unlock mutex) [
  | none ↦ none
  | some (mutex', next) ↦ some (record {
    cv = record { awaiters = handle ∷ cv.awaiters };
    mutex = mutex';
    scheduled = to_list next;
  })
]

-- `resume`
unfoldable pub resume : List ℕ → List ℕ
resume [] = []
resume (handle ∷ awaiters) = handle ∷ resume awaiters

unfoldable pub notify_one : ConditionVariable → ConditionVariable × List ℕ
notify_one cv = elim cv.awaiters [
  | [] ↦ (cv, [])
  | first ∷ awaiters ↦ (record { awaiters = awaiters }, resume (first ∷ []))
]

unfoldable pub notify_all : ConditionVariable → ConditionVariable × List ℕ
notify_all cv = (record { awaiters = [] }, resume cv.awaiters)

-- A round of the loop of `wait`, with what the predicate says, in a coroutine that holds the mutex:
-- `none` inside is that the loop is left.
unfoldable pub wait : Bool → ConditionVariable → Mutex → ℕ → Option (Option Done)
wait predicate cv mutex handle =
    if predicate
    then some none
    else elim (await_suspend cv mutex handle) [ none ↦ none | some out ↦ some (some out) ]
