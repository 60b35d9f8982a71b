-- ===== src/Idle/Notify.antt =====
-- `worker_to_notify`: a worker that sleeps is found whenever one should wake up.
use zedlibs.Prelude.{
  ℕ, ◌+◌, ◌^◌, ◌<◌, ◌≡◌, refl, List, [], ◌∷◌, length, Option, none, some, true, false, arith,
  Bool-cases, inl, inr,
}
use zedlibs.Idle.{
  Idle, num_searching, num_working, wake_up_one, notify_should_wakeup, worker_to_notify,
}

-- Every worker that does not sleep is counted as working.
pub record WellFormed (idle : Idle) : Type 0 where
  pub counted : num_working idle.state + length idle.sleeping_workers ≡ idle.num_workers
  pub few : idle.num_workers < 2 ^ 16

pub data NotifyOutcome (idle : Idle) (out : Option (Idle × Option ℕ)) : Type 0 where
  quiet : notify_should_wakeup idle ≡ false → out ≡ some (idle, none) → NotifyOutcome idle out
  woken :
      (idle' : Idle) (worker : ℕ)
      → out ≡ some (idle', some worker)
      → WellFormed idle'
      → idle.sleeping_workers ≡ worker ∷ idle'.sleeping_workers
      → num_searching idle'.state ≡ 1
      → idle'.num_workers ≡ idle.num_workers
      → NotifyOutcome idle out

abbrev idle_of : ℕ → ℕ → List ℕ → Idle
idle_of state num sleeping = record {
  state = state;
  num_workers = num;
  sleeping_workers = sleeping;
}

one_more :
    (state num sleeping : ℕ)
    → num_working state + sleeping ≡ num
    → num < 2 ^ 16
    → num_searching state ≡ 0
    → (num_working (wake_up_one state 1) ≡ num_working state + 1)
      × (num_searching (wake_up_one state 1) ≡ 1)
unfolding num_working num_searching wake_up_one
one_more state num sleeping h few none_searches = (omega arith, omega arith)

notify :
    (state num : ℕ) (sleeping : List ℕ)
    → WellFormed (idle_of state num sleeping)
    → NotifyOutcome (idle_of state num sleeping) (worker_to_notify (idle_of state num sleeping))
unfolding worker_to_notify
notify state num sleeping good =
    elim (Bool-cases (notify_should_wakeup (idle_of state num sleeping))) [
      | inr off ↦ quiet off (rw off refl)
      | inl on ↦ found sleeping good on
    ]
  where
    tests :
        (l : List ℕ)
        → notify_should_wakeup (idle_of state num l) ≡ true
        → (num_searching state ≡ 0) × (num_working state < num)
    tests l on = unfold notify_should_wakeup in (ground (arith, on), ground (arith, on))

    found :
        (l : List ℕ)
        → WellFormed (idle_of state num l)
        → notify_should_wakeup (idle_of state num l) ≡ true
        → NotifyOutcome (idle_of state num l) (worker_to_notify (idle_of state num l))
    found [] good' on' = absurd (omega (arith, good'.counted, (tests [] on').1))
    found (worker ∷ workers) good' on' =
        let t = tests (worker ∷ workers) on' in
        let more = one_more state num (length (worker ∷ workers)) good'.counted good'.few t.0 in
        rw on' (
          woken _ worker refl
            (record { counted = omega (arith, more.0, good'.counted); few = good'.few }) refl more.1
            refl)

-- `worker_to_notify` of a well-formed state never looks into an empty set. If a worker should wake
-- up, it returns one that sleeps, which then does not sleep and is counted as working, and as the
-- only one that searches; else it changes nothing. The state stays well formed.
pub worker_to_notify-NotifyOutcome :
    (idle : Idle) → WellFormed idle → NotifyOutcome idle (worker_to_notify idle)
worker_to_notify-NotifyOutcome idle good =
    notify idle.state idle.num_workers idle.sleeping_workers good
