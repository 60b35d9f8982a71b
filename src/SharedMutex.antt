-- ===== src/SharedMutex.antt =====
-- zedio/sync/shared_mutex.hpp: the readers-writer lock. Each function runs a coroutine that holds
-- `mutex_` up to the point where it waits or returns.
pub mod Exclusion
pub mod Unlocks
mod Tests
use zedlibs.Prelude.{
  ℕ, ◌+◌, ◌-◌, ◌%◌, ◌^◌, List, [], ◌∷◌, ◌++◌, Option, none, some, Bool, true, false, not, ◌&&◌,
  ◌==◌, leb, ltb, if◌then◌else◌,
}
use zedlibs.Mutex.{Mutex, unlock}
use zedlibs.CondVar.{ConditionVariable, Done, to_list, await_suspend, notify_one, notify_all}

pub record SharedMutex : Type 0 where
  pub mutex : Mutex
  pub cond : ConditionVariable
  pub writer_cond : ConditionVariable
  pub state : ℕ

-- Bit 63, and all bits below it.
abbrev pub writer_flag : ℕ
writer_flag = 2 ^ 63

abbrev pub reader_mask : ℕ
reader_mask = 2 ^ 63 - 1

unfoldable pub has_writer : SharedMutex → Bool
has_writer s = leb writer_flag s.state

unfoldable pub count_reader : SharedMutex → ℕ
count_reader s = s.state % writer_flag

-- What the coroutine comes to.
pub data Point : Type 0 where
  returned waits_on_cond waits_on_writer_cond : Point

pub record Step : Type 0 where
  pub after : SharedMutex
  pub scheduled : List ℕ
  pub point : Point

-- The lock guard goes out of scope; `none` is the failed assertion of `unlock`.
unfoldable pub release_guard : SharedMutex → List ℕ → Option Step
release_guard s scheduled = elim (unlock s.mutex) [
  | none ↦ none
  | some (mutex, next) ↦ some (record {
    after = record s { mutex = mutex };
    scheduled = scheduled ++ to_list next;
    point = returned;
  })
]

unfoldable pub wait_on_cond : SharedMutex → ℕ → Option Step
wait_on_cond s handle = elim (await_suspend s.cond s.mutex handle) [
  | none ↦ none
  | some out ↦ some (record {
    after = record s { mutex = out.mutex; cond = out.cv };
    scheduled = out.scheduled;
    point = waits_on_cond;
  })
]

unfoldable pub wait_on_writer_cond : SharedMutex → ℕ → Option Step
wait_on_writer_cond s handle = elim (await_suspend s.writer_cond s.mutex handle) [
  | none ↦ none
  | some out ↦ some (record {
    after = record s { mutex = out.mutex; writer_cond = out.cv };
    scheduled = out.scheduled;
    point = waits_on_writer_cond;
  })
]

-- `lock` from the test of its second wait on.
unfoldable pub lock_flagged : SharedMutex → ℕ → Option Step
lock_flagged s handle =
    if count_reader s == 0 then release_guard s [] else wait_on_writer_cond s handle

-- `lock` from the test of its first wait on.
unfoldable pub lock : SharedMutex → ℕ → Option Step
lock s handle =
    if has_writer s
    then wait_on_cond s handle
    else lock_flagged (record s { state = s.state % writer_flag + writer_flag }) handle

-- `none` is a failed assertion.
unfoldable pub unlock_writer : SharedMutex → Option Step
unlock_writer s =
    let (cond, woken) = notify_all s.cond in
    if s.state == writer_flag
    then release_guard (record s { state = 0; cond = cond }) woken
    else none

-- `lock_shared` from the test of its wait on: it unlocks the mutex, and then its lock guard does.
unfoldable pub lock_shared : SharedMutex → ℕ → Option Step
lock_shared s handle =
    if ltb s.state reader_mask
    then elim (unlock s.mutex) [
      | none ↦ none
      | some (mutex, next) ↦
          release_guard (record s { state = (s.state + 1) % 2 ^ 64; mutex = mutex }) (to_list next)
    ]
    else wait_on_cond s handle

unfoldable pub unlock_shared : SharedMutex → Option Step
unlock_shared s =
    let less = record s { state = (s.state + 2 ^ 64 - 1) % 2 ^ 64 } in
    let (writer_cond, woken_writer) = notify_one s.writer_cond in
    let (cond, woken) = notify_one s.cond in
    if has_writer less && (count_reader less == 0)
    then release_guard (record less { writer_cond = writer_cond }) woken_writer
    else if s.state == reader_mask
    then release_guard (record less { cond = cond }) woken
    else release_guard less []
