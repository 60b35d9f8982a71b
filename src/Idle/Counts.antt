-- ===== src/Idle/Counts.antt =====
-- The transitions keep the counts of working and of searching workers right.
use zedlibs.Prelude.{
  ℕ, ◌+◌, ◌*◌, ◌^◌, ◌≤◌, ◌<◌, ◌≡◌, refl, ap, List, [], ◌∷◌, length, Option, none, some, Bool, true,
  false, leb, if◌then◌else◌, arith, Bool-cases, inl, inr,
}
use zedlibs.Idle.{
  Idle, num_searching, num_working, inc_num_searching, dec_num_searching, dec_num_working, contains,
  erase, transition_worker_to_sleeping, transition_worker_to_searching,
  transition_worker_from_searching, remove, wake_up_one, worker_to_notify,
}
use zedlibs.Idle.Notify.{WellFormed, quiet, woken, worker_to_notify-NotifyOutcome}

-- Every worker that does not sleep is counted as working, and only workers that work search.
pub record Counted (idle : Idle) : Type 0 where
  pub good : WellFormed idle
  pub searchers : num_searching idle.state ≤ num_working idle.state

abbrev pub one_if : Bool → ℕ
one_if b = if b then 1 else 0

-- What the workers do to the idle state.
pub data Act : Type 0 where
  notifies : Act
  falls_asleep : ℕ → Bool → Act
  starts_search : Act
  ends_search : Act
  leaves : ℕ → Act

-- The caller's part: who falls asleep works, and searches if it says so; who starts to search works
-- and does not search; who ends its search searches.
abbrev pub IsAllowed : Idle → Act → Type 0
IsAllowed idle notifies = Unit {0}
IsAllowed idle (falls_asleep worker searching) =
    (contains idle.sleeping_workers worker ≡ false)
    × (one_if searching ≤ num_searching idle.state)
    × (num_searching idle.state + 1 ≤ num_working idle.state + one_if searching)
IsAllowed idle starts_search = num_searching idle.state < num_working idle.state
IsAllowed idle ends_search = 0 < num_searching idle.state
IsAllowed idle (leaves worker) = Unit {0}

-- The state after the act; `none` is the look into an empty set.
unfoldable pub act : Idle → Act → Option Idle
act idle notifies = elim (worker_to_notify idle) [ none ↦ none | some (idle', _) ↦ some idle' ]
act idle (falls_asleep worker searching) =
    some (transition_worker_to_sleeping idle worker searching).0
act idle starts_search = some (transition_worker_to_searching idle).0
act idle ends_search = some (transition_worker_from_searching idle).0
act idle (leaves worker) = some (remove idle worker).0

pub dec_lem :
    (state : ℕ) (searching : Bool)
    → 0 < num_working state
    → one_if searching ≤ num_searching state
    → (num_working (dec_num_working state searching).0 + 1 ≡ num_working state)
      × (num_searching (dec_num_working state searching).0 + one_if searching ≡ num_searching state)
unfolding num_working num_searching dec_num_working
dec_lem state true p q = (ground (arith, p, q), ground (arith, p, q))
dec_lem state false p q = (ground (arith, p, q), ground (arith, p, q))

-- The counts in a state where one worker more works.
wake_lem :
    (state k : ℕ)
    → num_working state + k < 2 ^ 16
    → 0 < k
    → (num_working (wake_up_one state 0) ≡ num_working state + 1)
      × (num_searching (wake_up_one state 0) ≡ num_searching state)
unfolding num_working num_searching wake_up_one
wake_lem state k few p = (omega arith, omega arith)

inc_lem :
    (state : ℕ)
    → num_working state < 2 ^ 16
    → num_searching state < num_working state
    → (num_working (inc_num_searching state) ≡ num_working state)
      × (num_searching (inc_num_searching state) ≡ num_searching state + 1)
unfolding num_working num_searching inc_num_searching
inc_lem state few p = (omega arith, omega arith)

dec_search_lem :
    (state : ℕ)
    → 0 < num_searching state
    → (num_working (dec_num_searching state).0 ≡ num_working state)
      × (num_searching (dec_num_searching state).0 + 1 ≡ num_searching state)
unfolding num_working num_searching dec_num_searching
dec_search_lem state p = (ground (arith, p), ground (arith, p))

length-erase :
    (l : List ℕ) (worker : ℕ) → contains l worker ≡ true → length (erase l worker) + 1 ≡ length l
unfolding contains erase
length-erase [] worker h = absurd (cc)
length-erase (w ∷ l) worker h = ground (arith, h, length-erase l worker)

pub sleep-Counted :
    (idle : Idle) (worker : ℕ) (searching : Bool)
    → Counted idle
    → IsAllowed idle (falls_asleep worker searching)
    → Counted (transition_worker_to_sleeping idle worker searching).0
unfolding transition_worker_to_sleeping
sleep-Counted idle worker searching c (awake, has, enough) =
    let counts =
      dec_lem idle.state searching (omega (arith, enough, has, one_small searching)) has in
    rw awake (record {
      good = record { counted = omega (arith, counts.0, c.good.counted); few = c.good.few };
      searchers = omega (arith, counts.0, counts.1, enough);
    })
  where
    one_small : (b : Bool) → one_if b ≤ 1
    one_small true = omega arith
    one_small false = omega arith

search-Counted :
    (idle : Idle)
    → Counted idle
    → num_searching idle.state < num_working idle.state
    → Counted (transition_worker_to_searching idle).0
unfolding transition_worker_to_searching
search-Counted idle c p =
    let counts = inc_lem idle.state (omega (arith, c.good.counted, c.good.few)) p in
    elim (Bool-cases (leb idle.num_workers (2 * num_searching idle.state))) [
      | inl e ↦ rw e c
      | inr e ↦ rw e (record {
        good = record { counted = omega (arith, counts.0, c.good.counted); few = c.good.few };
        searchers = omega (arith, counts.0, counts.1, p);
      })
    ]

ends-Counted :
    (idle : Idle)
    → Counted idle
    → 0 < num_searching idle.state
    → Counted (transition_worker_from_searching idle).0
unfolding transition_worker_from_searching
ends-Counted idle c p =
    let counts = dec_search_lem idle.state p in
    record {
      good = record { counted = omega (arith, counts.0, c.good.counted); few = c.good.few };
      searchers = omega (arith, counts.0, counts.1, c.searchers);
    }

remove-Counted : (idle : Idle) (worker : ℕ) → Counted idle → Counted (remove idle worker).0
unfolding remove
remove-Counted idle worker c = elim (Bool-cases (contains idle.sleeping_workers worker)) [
  | inr e ↦ rw e c
  | inl e ↦
      let fewer = length-erase idle.sleeping_workers worker e in
      let counts =
        wake_lem idle.state (length idle.sleeping_workers)
          (omega (arith, c.good.counted, c.good.few)) (omega (arith, fewer)) in
      rw e (record {
        good = record {
          counted = omega (arith, counts.0, c.good.counted, fewer);
          few = c.good.few;
        };
        searchers = omega (arith, counts.0, counts.1, c.searchers);
      })
]

-- Each act that the workers are allowed to do, on a state where every worker that does not sleep is
-- counted as working and no more workers search than work, never looks into an empty set and leads to
-- such a state. So neither count ever borrows from the other, or wraps around.
pub act-Counted :
    (idle : Idle) (a : Act)
    → Counted idle
    → IsAllowed idle a
    → (idle' : Idle) × (act idle a ≡ some idle') × Counted idle'
unfolding act
act-Counted idle (falls_asleep worker searching) c h =
    (_, refl, sleep-Counted idle worker searching c h)
act-Counted idle starts_search c h = (_, refl, search-Counted idle c h)
act-Counted idle ends_search c h = (_, refl, ends-Counted idle c h)
act-Counted idle (leaves worker) c h = (_, refl, remove-Counted idle worker c)
act-Counted idle notifies c h = elim (worker_to_notify-NotifyOutcome idle c.good) [
  | quiet off out ↦ (idle, rw (out, act) refl, c)
  | woken idle' worker out good same one num ↦ (
    idle',
    rw (out, act) refl,
    record {
      good = good;
      searchers = omega (arith, one, good.counted, num, c.good.counted, ap length same);
    },
  )
]
