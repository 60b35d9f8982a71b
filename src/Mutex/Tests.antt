-- ===== src/Mutex/Tests.antt =====
-- A mutex that meets the hypotheses of the mutex's theorems, and runs of its operations.
use zedlibs.Prelude.{◌≡◌, refl, [], ◌∷◌, none, some, true, false}
use zedlibs.Mutex.{Mutex, queued, make, await_suspend, unlock, reverse_lists, resume}
use zedlibs.Mutex.Refine.{
  ask, give_back, suspended, resumed, failed, run, run_fair, view, mutex_run_refines,
}

-- 1 and 2 wait in order, and 3 and 4 have come after them.
abbrev held_mutex : Mutex
held_mutex = record { state = queued (4 ∷ 3 ∷ []); fifo = 1 ∷ 2 ∷ [] }

mutex_run_refines_example :
    run held_mutex (ask 5 ∷ give_back ∷ []) ≡ run_fair (view held_mutex) (ask 5 ∷ give_back ∷ [])
mutex_run_refines_example = mutex_run_refines held_mutex (ask 5 ∷ give_back ∷ []) tt

-- Three coroutines ask in turn and get the mutex in that order.
in_turn :
    run make (ask 7 ∷ ask 8 ∷ ask 9 ∷ give_back ∷ give_back ∷ give_back ∷ give_back ∷ [])
    ≡ suspended false
      ∷ suspended true
      ∷ suspended true
      ∷ resumed (some 8)
      ∷ resumed (some 9)
      ∷ resumed none
      ∷ failed
      ∷ []
unfolding run make await_suspend unlock reverse_lists resume
in_turn = refl
