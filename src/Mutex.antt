-- ===== src/Mutex.antt =====
-- zedio/sync/mutex.hpp: the coroutine mutex. `state_` is the mutex itself when it is free, null when
-- it is locked, and else the last of the awaiters that have come, each linked to the one before it.
pub mod Fair
pub mod Refine
mod Tests
use zedlibs.Prelude.{ℕ, List, [], ◌∷◌, Option, none, some, Bool, true, false}

-- `queued []` is `locking_state()`, the null pointer.
pub data State : Type 0 where
  unlocking : State
  queued : List ℕ → State

-- `fifo` has the awaiters that unlock has put into the order in which they came.
pub record Mutex : Type 0 where
  pub state : State
  pub fifo : List ℕ

unfoldable pub make : Mutex
make = record { state = unlocking; fifo = [] }

-- `await_suspend` of the coroutine `handle`: whether it is suspended.
unfoldable pub await_suspend : Mutex → ℕ → Mutex × Bool
await_suspend mutex handle = elim mutex.state [
  | unlocking ↦ (record mutex { state = queued [] }, false)
  | queued awaiters ↦ (record mutex { state = queued (handle ∷ awaiters) }, true)
]

-- `compare_exchange_strong` expects the state that was loaded just before.
unfoldable pub try_lock : Mutex → Mutex × Bool
try_lock mutex = (record mutex { state = queued [] }, true)

-- `do { … } while (lifo_awaiters != nullptr)`, which moves the head of one list to the other.
unfoldable pub reverse_lists : List ℕ → List ℕ → List ℕ
reverse_lists fifo [] = fifo
reverse_lists fifo (awaiter ∷ lifo) = reverse_lists (awaiter ∷ fifo) lifo

-- The mutex afterwards, and the coroutine that is scheduled.
unfoldable pub resume : State → List ℕ → Option (Mutex × Option ℕ)
resume state [] = none
resume state (awaiter ∷ fifo) = some (record { state = state; fifo = fifo }, some awaiter)

-- `none` is a failed assertion.
unfoldable pub unlock : Mutex → Option (Mutex × Option ℕ)
unlock mutex = elim mutex.state [
  | unlocking ↦ none
  | queued awaiters ↦ elim mutex.fifo [
    | [] ↦ elim awaiters [
      | [] ↦ some (record mutex { state = unlocking }, none)
      | last ∷ others ↦ resume (queued []) (reverse_lists [] (last ∷ others))
    ]
    | first ∷ fifo ↦ resume (queued awaiters) (first ∷ fifo)
  ]
]
