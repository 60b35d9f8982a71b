-- ===== src/Queue/Tests.antt =====
-- Queues that meet the hypotheses of the run queues' theorems, and runs of their operations.
use zedlibs.Prelude.{ℕ, ◌+◌, ◌-◌, ◌*◌, ◌≡◌, ◌^◌, refl, [], ◌∷◌, some, false, arith}
use zedlibs.Queue.Global.{GlobalQueue}
use zedlibs.Queue.Local.{
  LocalQueue, unpack, pack, pop, push_back_or_overflow, steal_into, steal_into2, reserve, release,
  copy,
}
use zedlibs.Queue.Owner.{IsValid, PopOutcome, pop-PopOutcome, waiting}
use zedlibs.Queue.Push.{PushOutcome, push_back_or_overflow-PushOutcome}
use zedlibs.Queue.Steal.{StealOutcome, steal_into-StealOutcome}
use zedlibs.Queue.Shared.{IsCounted}

-- The tasks 100 … at the positions 2^32 - 2 to 2, past the end of the counters.
abbrev busy : LocalQueue ℕ
busy = record { head = (2 ^ 32 - 2) * 2 ^ 32 + (2 ^ 32 - 2); tail = 2; buffer = λ i. 100 + i }

abbrev idle : LocalQueue ℕ
idle = record { head = 0; tail = 0; buffer = λ i. 0 }

abbrev shared : GlobalQueue ℕ
shared = record { tasks = 7 ∷ 8 ∷ 9 ∷ []; num = 3; is_closed = false }

busy-IsValid : IsValid busy
unfolding unpack pack
busy-IsValid = record { packed = refl; tail_small = omega arith; room = omega arith }

idle-IsValid : IsValid idle
unfolding unpack pack
idle-IsValid = record { packed = refl; tail_small = omega arith; room = omega arith }

shared-IsCounted : IsCounted shared
shared-IsCounted = record { counted = refl; few = omega arith }

pop-PopOutcome_example : PopOutcome busy (pop busy)
pop-PopOutcome_example = pop-PopOutcome busy busy-IsValid

push_back_or_overflow-PushOutcome_example :
    PushOutcome busy 5 shared (push_back_or_overflow 1 busy 5 shared)
push_back_or_overflow-PushOutcome_example =
    push_back_or_overflow-PushOutcome 0 busy 5 shared busy-IsValid

steal_into-StealOutcome_example : StealOutcome busy idle (steal_into busy idle)
steal_into-StealOutcome_example = steal_into-StealOutcome busy idle busy-IsValid idle-IsValid

four_wait : waiting busy ≡ 354 ∷ 355 ∷ 100 ∷ 101 ∷ []
unfolding unpack
four_wait = refl

oldest_first : (pop busy).1 ≡ some 354
unfolding pop unpack
oldest_first = refl

-- Of four tasks a thief takes two and runs the second.
two_stolen : (steal_into busy idle).2 ≡ some 355
unfolding steal_into steal_into2 reserve release copy unpack pack
two_stolen = refl

two_left : waiting (steal_into busy idle).0 ≡ 100 ∷ 101 ∷ []
unfolding steal_into steal_into2 reserve release copy unpack pack
two_left = refl

one_waits : waiting (steal_into busy idle).1 ≡ 354 ∷ []
unfolding steal_into steal_into2 reserve release copy unpack pack
one_waits = refl
