-- ===== src/Interval/Tests.antt =====
-- Intervals that meet the theorems' hypotheses.
use zedlibs.Prelude.{◌≡◌, refl, arith}
use zedlibs.Interval.{Interval, delay, skip, tick, next_timeout, reset}
use zedlibs.Interval.Ticks.{Skips, tick-Skips}

abbrev skipping : Interval
skipping = record { expired_time = 100; period = 10; behavior = skip }

tick-Skips_example : Skips skipping 127 (tick skipping 127).0.expired_time
tick-Skips_example = tick-Skips skipping 127 refl (omega arith) (omega arith)

abbrev delaying : Interval
delaying = record { expired_time = 100; period = 10; behavior = delay }

-- Three ticks were missed at 127.
next_on_grid : (tick skipping 127).0.expired_time ≡ 130
unfolding tick next_timeout
next_on_grid = refl

-- Asked for at 100, when 110 is expected, the next tick is expected at 110 again.
twice : (tick (reset delaying 100) 100).0.expired_time ≡ (tick (reset delaying 100) 100).1
unfolding tick next_timeout reset
twice = refl
