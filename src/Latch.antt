-- ===== src/Latch.antt =====
-- zedio/sync/latch.hpp: the latch. Each atomic access is a step of its own.
pub mod Once
pub mod Race
mod Tests
use zedlibs.Prelude.{ℕ, suc, List, [], ◌∷◌, ◌++◌, Bool, true, false, not, if◌then◌else◌}
use zedlibs.Prelude.Ints.{ℤ, pos, negsuc, ◌-ℤ◌, is_zero}

-- `head_` is the list of the awaiters, each linked to the one before it.
pub record Latch : Type 0 where
  pub expected : ℤ
  pub head : List ℕ

unfoldable pub make : ℤ → Latch
make expected = record { expected = expected; head = [] }

unfoldable pub try_wait : Latch → Bool
try_wait latch = is_zero latch.expected

-- `expected_.fetch_sub(update)`, for an `update` that is not negative: whether the value before was `update`, so that all are notified.
unfoldable pub fetch_sub : Latch → ℕ → Latch × Bool
fetch_sub latch update =
    (record latch { expected = latch.expected -ℤ update }, is_zero (latch.expected -ℤ update))

-- The coroutines that are scheduled, from `head_` on.
unfoldable pub notify_all : Latch → List ℕ
notify_all latch = latch.head

unfoldable pub count_down : Latch → ℕ → Latch × List ℕ
count_down latch update =
    let (latch', last) = fetch_sub latch update in (latch', if last then notify_all latch' else [])

-- The counts of other threads, one after the other, with all that they schedule.
unfoldable pub count_all : List ℕ → Latch → Latch × List ℕ
count_all [] latch = (latch, [])
count_all (update ∷ updates) latch =
    let (latch', woken) = count_down latch update in
    let (latch'', later) = count_all updates latch' in (latch'', woken ++ later)

-- The exchange of `head_` in `await_suspend`.
unfoldable pub enqueue : Latch → ℕ → Latch
enqueue latch handle = record latch { head = handle ∷ latch.head }

-- `await_suspend`: whether the coroutine is suspended.
unfoldable pub await_suspend : Latch → ℕ → Latch × Bool
await_suspend latch handle = let latch' = enqueue latch handle in (latch', not (try_wait latch'))

-- `await_suspend`, where other threads count between its two accesses.
unfoldable pub await_suspend_amid : Latch → ℕ → List ℕ → Latch × List ℕ × Bool
await_suspend_amid latch handle updates =
    let (latch', woken) = count_all updates (enqueue latch handle) in
    (latch', woken, not (try_wait latch'))

-- `co_await wait()`, with `await_ready` first.
unfoldable pub wait : Latch → ℕ → Latch × Bool
wait latch handle = if try_wait latch then (latch, false) else await_suspend latch handle

-- `co_await arrive_and_wait(update)`
unfoldable pub arrive_and_wait : Latch → ℕ → ℕ → Latch × List ℕ × Bool
arrive_and_wait latch update handle =
    let (counted, woken) = count_down latch update in
    let (latch', suspended) = wait counted handle in (latch', woken, suspended)
