-- ===== src/Timer/Next.antt =====
-- `Timer::next_expiration_time`: the delay until the first entry, on 64 bits.
use zedlibs.Prelude.{
  ℕ, ◌-◌, ◌/◌, ◌^◌, ◌≤◌, ◌<◌, ◌≡◌, refl, sym, ap, ◌∙◌, List, [], ◌∷◌, Option, none, some, arith,
}
use zedlibs.Wheel.{Entry}
use zedlibs.Wheel.Items.{Item, AllFrom}
use zedlibs.Wheel.Next.{next_expiration_time-IsNext}
use zedlibs.Timer.{Timer, Root, no_wheel, wheel, minus, next_expiration_time}
use zedlibs.Timer.Invariant.{held, WellFormed}
use zedlibs.Timer.Insert.{interval_lem}

abbrev timer_of : ℕ → ℕ → Root → Timer
timer_of start num root = record { start = start; num_entries = num; root = root }

-- The first entry of a timer that holds any, and what `next_expiration_time` returns at `now`.
pub record IsFirst (timer : Timer) (now : ℕ) (out : Option (Option ℕ)) : Type 0 where
  pub time : ℕ
  pub first : Entry
  pub others : List Item
  pub held_first : held timer ≡ (time, first) ∷ others
  pub least : AllFrom time others
  pub found : out ≡ some (some (minus time ((now - timer.start) / 1000000)))

pub data NextOutcome (timer : Timer) (now : ℕ) (out : Option (Option ℕ)) : Type 0 where
  idle : held timer ≡ [] → out ≡ some none → NextOutcome timer now out
  waiting : IsFirst timer now out → NextOutcome timer now out

next-root :
    (start num now : ℕ) (root : Root)
    → WellFormed (timer_of start num root)
    → start ≤ now
    → NextOutcome (timer_of start num root) now (next_expiration_time (timer_of start num root) now)
unfolding next_expiration_time
next-root start num now no_wheel good before = idle refl refl
next-root start num now (wheel level w) good before =
    let next = next_expiration_time-IsNext level w good.fits.1.0 good.fits.1.1 in
    waiting (record {
      time = next.time;
      first = next.first;
      others = next.others;
      held_first = next.held;
      least = next.least;
      found =
          rw (next.found_time, next_expiration_time)
            (ap (λ t. some (some (minus next.time t))) (interval_lem start now before));
    })

-- `next_expiration_time` on a well-formed timer, at a time that is not before its start, fails no
-- assertion. It returns nothing if the timer holds no entry; else it returns the difference, on 64
-- bits, of the least interval that the timer holds and the milliseconds since the start.
pub next_expiration_time-NextOutcome :
    (timer : Timer) (now : ℕ)
    → WellFormed timer
    → timer.start ≤ now
    → NextOutcome timer now (next_expiration_time timer now)
next_expiration_time-NextOutcome timer now good before =
    next-root timer.start timer.num_entries now timer.root good before

-- A well-formed timer whose first entry is overdue by a whole millisecond answers with a delay of
-- more than half of the range of 64 bits, provided that fewer than 2^62 milliseconds have passed since
-- its start.
pub next_expiration_time_overdue :
    (timer : Timer) (now time : ℕ) (first : Entry) (others : List Item)
    → WellFormed timer
    → timer.start ≤ now
    → held timer ≡ (time, first) ∷ others
    → time < (now - timer.start) / 1000000
    → (now - timer.start) / 1000000 < 2 ^ 62
    → (delay : ℕ) × (next_expiration_time timer now ≡ some (some delay)) × (2 ^ 63 < delay)
next_expiration_time_overdue timer now time first others good before h late few =
    elim (next_expiration_time-NextOutcome timer now good before) [
      | idle none_held out ↦ absurd (ground (arith, h, none_held))
      | waiting f ↦ (
        minus f.time ((now - timer.start) / 1000000),
        f.found,
        overdue (ap first_time (sym h ∙ f.held_first)),
      )
    ]
  where
    first_time : List Item → ℕ
    first_time [] = 0
    first_time ((t, _) ∷ l) = t

    overdue : {t : ℕ} → time ≡ t → 2 ^ 63 < minus t ((now - timer.start) / 1000000)
    overdue e = ground arith
