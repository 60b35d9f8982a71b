-- ===== src/Semaphore.antt =====
-- zedio/sync/semaphore.hpp: the counting semaphore. `acquire` and `release` run under its mutex, which
-- `acquire` holds until its coroutine is enqueued.
pub mod Permits
mod Tests
use zedlibs.Prelude.{
  ℕ, suc, ◌-◌, List, [], ◌∷◌, ◌++◌, Option, some, none, leb, Bool, true, false, ltb, ◌==◌, ◌&&◌,
  not, if◌then◌else◌,
}
use zedlibs.Prelude.Ints.{ℤ, pos, negsuc, ◌+ℤ◌, ◌-ℤ◌, is_negative}

-- The count falls below zero by one for each coroutine that waits.
pub record Semaphore : Type 0 where
  pub count : ℤ
  pub awaiters : List ℕ

-- `none` is the failed assertion.
unfoldable pub make : ℕ → ℕ → Option Semaphore
make max_count count =
    if leb count max_count then some (record { count = pos count; awaiters = [] }) else none

-- The coroutine goes on, or is suspended at the end of the queue.
unfoldable pub acquire : Semaphore → ℕ → Semaphore × Bool
acquire sem handle =
    let less = record sem { count = sem.count -ℤ 1 } in
    if is_negative less.count
    then (record less { awaiters = sem.awaiters ++ handle ∷ [] }, true)
    else (less, false)

-- `while (update > 0 && !awaiters_.empty())`: those that stay, and those that are scheduled.
unfoldable pub wake : ℕ → List ℕ → List ℕ × List ℕ
wake update [] = ([], [])
wake update (first ∷ awaiters) =
    let (stay, woken) = wake (update - 1) awaiters in
    if ltb 0 update then (stay, first ∷ woken) else (first ∷ awaiters, [])

unfoldable pub release : Semaphore → ℕ → Semaphore × List ℕ
release sem update =
    let (stay, woken) = wake update sem.awaiters in
    (record { count = sem.count +ℤ update; awaiters = stay }, woken)
