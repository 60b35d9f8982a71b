-- ===== src/Latch/Tests.antt =====
-- Runs of the latch.
use zedlibs.Prelude.{◌≡◌, refl, [], ◌∷◌, true, false, arith}
use zedlibs.Prelude.Ints.{pos}
use zedlibs.Prelude.Runs.{answers}
use Prim.{tt}
use zedlibs.Latch.{
  make, try_wait, fetch_sub, notify_all, count_down, enqueue, await_suspend, await_suspend_amid,
  count_all, wait, arrive_and_wait,
}
use zedlibs.Latch.Once.{counts_down, waits, step, spec, gate, latch_of, answers-Gate}
use zedlibs.Latch.Race.{Awaited, await_suspend_amid-Awaited}

answers-Gate_example :
    answers step (latch_of 3 (9 ∷ [])) (waits 1 ∷ counts_down 2 ∷ counts_down 1 ∷ waits 2 ∷ [])
    ≡ answers spec (gate 3 (9 ∷ [])) (waits 1 ∷ counts_down 2 ∷ counts_down 1 ∷ waits 2 ∷ [])
answers-Gate_example =
    answers-Gate (waits 1 ∷ counts_down 2 ∷ counts_down 1 ∷ waits 2 ∷ []) 3 (9 ∷ [])
      (omega arith, omega arith, (omega arith, omega arith, tt))

await_suspend_amid-Awaited_example :
    Awaited 3 (8 ∷ []) 7 (2 ∷ 1 ∷ []) (await_suspend_amid (latch_of 3 (8 ∷ [])) 7 (2 ∷ 1 ∷ []))
await_suspend_amid-Awaited_example =
    await_suspend_amid-Awaited 3 (8 ∷ []) 7 (2 ∷ 1 ∷ [])
      (omega arith, omega arith, (omega arith, omega arith, tt))

resumed_twice :
    await_suspend_amid (latch_of 3 (8 ∷ [])) 7 (2 ∷ 1 ∷ [])
    ≡ (latch_of 0 (7 ∷ 8 ∷ []), 7 ∷ 8 ∷ [], false)
unfolding await_suspend_amid count_all count_down fetch_sub notify_all enqueue try_wait
resumed_twice = refl

-- The last to arrive is not suspended, and wakes the other.
two_arrivals :
    (arrive_and_wait (arrive_and_wait (make (pos 2)) 1 4).0 1 5)
    ≡ (latch_of 0 (4 ∷ []), 4 ∷ [], false)
unfolding arrive_and_wait make count_down fetch_sub notify_all wait await_suspend enqueue try_wait
two_arrivals = refl

first_arrival : (arrive_and_wait (make (pos 2)) 1 4) ≡ (latch_of 1 (4 ∷ []), [], true)
unfolding arrive_and_wait make count_down fetch_sub notify_all wait await_suspend enqueue try_wait
first_arrival = refl
