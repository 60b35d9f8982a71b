-- ===== src/SharedMutex/Exclusion.antt =====
-- Writers and readers exclude each other, as far as the state word goes.
use zedlibs.Prelude.{
  ℕ, ◌+◌, ◌%◌, ◌≤◌, ◌<◌, ◌≡◌, refl, ◌∷◌, Option, some, true, false, ◌==◌, leb, arith, dec_lt,
  ℕ_discrete,
}
use zedlibs.Mutex.{Mutex, unlock}
use zedlibs.CondVar.{await_suspend, to_list}
use zedlibs.SharedMutex.{
  SharedMutex, Step, returned, waits_on_cond, waits_on_writer_cond, has_writer, count_reader,
  writer_flag, release_guard, wait_on_cond, wait_on_writer_cond, lock_flagged, lock,
}

-- Where a coroutine that locks for writing comes to.
pub data LockOutcome (s : SharedMutex) (out : Option Step) : Type 0 where
  locked :
      (step : Step)
      → out ≡ some step
      → s.state ≡ 0
      → step.point ≡ returned
      → step.after.state ≡ writer_flag
      → LockOutcome s out
  waits_for_readers :
      (step : Step)
      → out ≡ some step
      → 0 < s.state
      → s.state < writer_flag
      → step.point ≡ waits_on_writer_cond
      → step.after.state ≡ s.state + writer_flag
      → LockOutcome s out
  waits_for_writer :
      (step : Step)
      → out ≡ some step
      → writer_flag ≤ s.state
      → step.point ≡ waits_on_cond
      → step.after.state ≡ s.state
      → LockOutcome s out

module _ (s : SharedMutex) (handle : ℕ) (mutex : Mutex) (next : Option ℕ)
    (free : unlock s.mutex ≡ some (mutex, next)) where
  abbrev freed : SharedMutex
  freed = record s { mutex = mutex; state = s.state % writer_flag + writer_flag }

  locked_now :
      s.state ≡ 0
      → lock s handle ≡ some (record { after = freed; scheduled = to_list next; point = returned })
  unfolding lock has_writer lock_flagged count_reader release_guard
  locked_now e =
      let test : leb writer_flag s.state ≡ false = ground (arith, e) in
      let nobody : ((s.state % writer_flag + writer_flag) % writer_flag == 0) ≡ true =
        ground (arith, e) in
      rw test (rw nobody (rw (free, release_guard) refl))

  readers_left :
      0 < s.state
      → s.state < writer_flag
      → lock s handle
        ≡ some (record {
          after = record freed {
            writer_cond = record { awaiters = handle ∷ s.writer_cond.awaiters };
          };
          scheduled = to_list next;
          point = waits_on_writer_cond;
        })
  unfolding lock has_writer lock_flagged count_reader wait_on_writer_cond await_suspend
  readers_left pos few =
      let test : leb writer_flag s.state ≡ false = ground (arith, few) in
      let some_reader : ((s.state % writer_flag + writer_flag) % writer_flag == 0) ≡ false =
        ground (arith, pos, few) in
      rw test (rw some_reader (rw (free, wait_on_writer_cond) refl))

  writer_there :
      writer_flag ≤ s.state
      → lock s handle
        ≡ some (record {
          after = record s { mutex = mutex; cond = record { awaiters = handle ∷ s.cond.awaiters } };
          scheduled = to_list next;
          point = waits_on_cond;
        })
  unfolding lock has_writer wait_on_cond await_suspend
  writer_there h =
      let test : leb writer_flag s.state ≡ true = ground (arith, h) in
      rw test (rw (free, wait_on_cond) refl)

  -- A coroutine that locks for writing while it holds the mutex gets the lock only when no reader and
  -- no writer has it, and the state word is then the writer's flag alone. If readers have it, the flag
  -- is set beside their number and it waits for the last of them; if the flag is set, it waits for the
  -- other writer and changes nothing in the word. No assertion fails.
  pub lock-LockOutcome : LockOutcome s (lock s handle)
  lock-LockOutcome = elim (dec_lt s.state writer_flag) [
    | no writes ↦
        waits_for_writer _ (writer_there (omega (arith, writes))) (omega (arith, writes)) refl refl
    | yes few ↦ elim (ℕ_discrete s.state 0) [
      | yes nobody ↦ locked _ (locked_now nobody) nobody refl (omega (arith, nobody))
      | no some_reader ↦
          waits_for_readers _ (readers_left (omega (arith, some_reader)) few)
            (omega (arith, some_reader)) few refl (omega (arith, few))
    ]
  ]
