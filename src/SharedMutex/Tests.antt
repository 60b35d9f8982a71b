-- ===== src/SharedMutex/Tests.antt =====
-- Locks that meet the theorems' hypotheses, and runs of them.
use zedlibs.Prelude.{◌≡◌, refl, [], ◌∷◌, some, arith}
use Prim.{tt}
use zedlibs.Mutex.{queued, unlock, resume, reverse_lists}
use zedlibs.SharedMutex.{SharedMutex, lock, lock_shared}
use zedlibs.SharedMutex.Exclusion.{LockOutcome, lock-LockOutcome}
use zedlibs.SharedMutex.Unlocks.{SharedOutcome, lock_shared-SharedOutcome}

-- A coroutine holds the mutex, and 7 waits for it; two readers have the lock.
abbrev two_readers : SharedMutex
two_readers = record {
  mutex = record { state = queued (7 ∷ []); fifo = [] };
  cond = record { awaiters = [] };
  writer_cond = record { awaiters = [] };
  state = 2;
}

unlocked : unlock two_readers.mutex ≡ some (record { state = queued []; fifo = [] }, some 7)
unfolding unlock resume reverse_lists
unlocked = refl

lock-LockOutcome_example : LockOutcome two_readers (lock two_readers 5)
lock-LockOutcome_example =
    lock-LockOutcome two_readers 5 (record { state = queued []; fifo = [] }) (some 7) unlocked

lock_shared-SharedOutcome_example : SharedOutcome two_readers (lock_shared two_readers 5)
lock_shared-SharedOutcome_example = lock_shared-SharedOutcome two_readers 5 tt refl (omega arith)
