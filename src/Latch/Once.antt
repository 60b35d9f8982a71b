-- ===== src/Latch/Once.antt =====
-- Calls of the latch that do not overlap: who waits goes on once, when the count reaches zero.
use zedlibs.Prelude.{
  ℕ, ◌-◌, ◌≤◌, ◌<◌, ◌≡◌, refl, ap, List, [], ◌∷◌, Bool, true, false, not, ◌==◌, if◌then◌else◌,
  arith,
}
use zedlibs.Prelude.Runs.{answers}
use zedlibs.Prelude.Ints.{pos}
use zedlibs.Latch.{Latch, try_wait, fetch_sub, notify_all, count_down, enqueue, await_suspend, wait}

-- A gate that opens when `missing` arrivals have been counted.
pub data Gate : Type 0 where
  closed : ℕ → List ℕ → Gate
  opened : Gate

pub data Call : Type 0 where
  counts_down : ℕ → Call
  waits : ℕ → Call

pub data Seen : Type 0 where
  scheduled : List ℕ → Seen
  suspended : Bool → Seen

unfoldable pub step : Latch → Call → Latch × Seen
step latch (counts_down n) = ((count_down latch n).0, scheduled (count_down latch n).1)
step latch (waits handle) = ((wait latch handle).0, suspended (wait latch handle).1)

-- The specification: the arrivals that are missing, and who waits, the last to come first.
unfoldable pub spec : Gate → Call → Gate × Seen
spec (closed missing waiting) (counts_down n) =
    if n == missing
    then (opened, scheduled waiting)
    else (closed (missing - n) waiting, scheduled [])
spec (closed missing waiting) (waits handle) = (closed missing (handle ∷ waiting), suspended true)
spec opened (counts_down n) = (opened, scheduled [])
spec opened (waits handle) = (opened, suspended false)

abbrev pub gate : ℕ → List ℕ → Gate
gate missing waiting = if missing == 0 then opened else closed missing waiting

-- The calls count at least one each, and together no more than what is missing.
abbrev pub IsWithin : ℕ → List Call → Type 0
IsWithin missing [] = Unit {0}
IsWithin missing (counts_down n ∷ calls) = (0 < n) × (n ≤ missing) × IsWithin (missing - n) calls
IsWithin missing (waits handle ∷ calls) = IsWithin missing calls

-- The latch with that count and those awaiters.
abbrev pub latch_of : ℕ → List ℕ → Latch
latch_of missing waiting = record { expected = pos missing; head = waiting }

pub count_down-Gate :
    (k : ℕ) (l : List ℕ) (n : ℕ)
    → 0 < n
    → n ≤ k
    → (step (latch_of k l) (counts_down n)
        ≡ (latch_of (k - n) l, scheduled (if n == k then l else [])))
      × (spec (gate k l) (counts_down n) ≡ (gate (k - n) l, scheduled (if n == k then l else [])))
unfolding step spec count_down fetch_sub notify_all
count_down-Gate k l n p q = (ground (arith, p, q), ground (arith, p, q))

wait-Gate :
    (k : ℕ) (l : List ℕ) (h : ℕ)
    → (step (latch_of k l) (waits h)
        ≡ (latch_of k (if k == 0 then l else h ∷ l), suspended (not (k == 0))))
      × (spec (gate k l) (waits h)
          ≡ (gate k (if k == 0 then l else h ∷ l), suspended (not (k == 0))))
unfolding step spec wait await_suspend enqueue try_wait
wait-Gate k l h = (ground arith, ground arith)

-- No sequence of waits and of counts that are positive and do not exceed what is missing can be told
-- from a gate which opens with the last arrival: those who wait are scheduled then, the last to come
-- first, and later waits do not suspend.
pub answers-Gate :
    (calls : List Call) (missing : ℕ) (waiting : List ℕ)
    → IsWithin missing calls
    → answers step (latch_of missing waiting) calls ≡ answers spec (gate missing waiting) calls
unfolding answers
answers-Gate [] k l w = refl
answers-Gate (counts_down n ∷ calls) k l (p, q, w) =
    let one = count_down-Gate k l n p q in
    rw (one.0, one.1)
      (ap (λ r. scheduled (if n == k then l else []) ∷ r) (answers-Gate calls (k - n) l w))
answers-Gate (waits h ∷ calls) k l w =
    let one = wait-Gate k l h in
    rw (one.0, one.1)
      (ap (λ r. suspended (not (k == 0)) ∷ r)
        (answers-Gate calls k (if k == 0 then l else h ∷ l) w))
