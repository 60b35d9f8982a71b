-- ===== src/Interval.antt =====
-- zedio/time/interval.hpp: ticks at regular times. Times are nanoseconds of the steady clock; the time
-- `now()` is an argument.
pub mod Ticks
mod Tests
use zedlibs.Prelude.{ℕ, ◌+◌, ◌-◌, ◌%◌, leb, if◌then◌else◌}

pub data MissedTickBehavior : Type 0 where
  burst delay skip : MissedTickBehavior

pub record Interval : Type 0 where
  pub expired_time : ℕ
  pub period : ℕ
  pub behavior : MissedTickBehavior

-- The remainder of `%` has the sign of the dividend.
unfoldable pub next_timeout : Interval → ℕ → ℕ
next_timeout i now = elim i.behavior [
  | burst ↦ i.expired_time + i.period
  | delay ↦ now + i.period
  | skip ↦
      if leb i.expired_time now
      then now + i.period - (now - i.expired_time) % i.period
      else now + i.period + (i.expired_time - now) % i.period
]

-- The interval afterwards, and when the sleep ends that is returned.
unfoldable pub tick : Interval → ℕ → Interval × ℕ
tick i now = (record i { expired_time = next_timeout i now }, i.expired_time)

unfoldable pub reset : Interval → ℕ → Interval
reset i now = record i { expired_time = now + i.period }

unfoldable pub reset_immediately : Interval → ℕ → Interval
reset_immediately i now = record i { expired_time = now }

unfoldable pub reset_after : Interval → ℕ → ℕ → Interval
reset_after i now after = record i { expired_time = now + after }

unfoldable pub reset_at : Interval → ℕ → Interval
reset_at i deadline = record i { expired_time = deadline }

unfoldable pub set_missed_tick_behavior : Interval → MissedTickBehavior → Interval
set_missed_tick_behavior i behavior = record i { behavior = behavior }

unfoldable pub interval : ℕ → ℕ → Interval
interval now duration = record { expired_time = now; period = duration; behavior = burst }

unfoldable pub interval_at : ℕ → ℕ → Interval
interval_at start duration = record { expired_time = start; period = duration; behavior = burst }
