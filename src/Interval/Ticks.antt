-- ===== src/Interval/Ticks.antt =====
-- When the ticks of an interval come.
use zedlibs.Prelude.{
  ℕ, suc, ◌+◌, ◌-◌, ◌*◌, ◌/◌, ◌≤◌, ◌<◌, ◌≡◌, refl, ◌∙◌, List, [], ◌∷◌, length, leb, true, arith,
}
use native.Mathlib.Nat.{div-add-mod', mod-lt, suc-mul}
use zedlibs.Interval.{Interval, burst, delay, skip, next_timeout, tick}

-- A tick of an interval that skips those that it has missed.
pub record Skips (i : Interval) (now next : ℕ) : Type 0 where
  pub steps : ℕ
  pub on_grid : next ≡ i.expired_time + steps * i.period
  pub later : now < next
  pub soon : next ≤ now + i.period

-- A late tick of an interval that skips is on the grid of the earlier ones, after the present time, and
-- no more than a period after it: it is the first on the grid that is still to come.
pub tick-Skips :
    (i : Interval) (now : ℕ)
    → i.behavior ≡ skip
    → 0 < i.period
    → i.expired_time ≤ now
    → Skips i now (tick i now).0.expired_time
unfolding tick next_timeout
tick-Skips i now e pos due =
    let late : ℕ = now - i.expired_time in
    let parts = div-add-mod' late i.period in
    let small = mod-lt late pos in
    let test : leb i.expired_time now ≡ true = ground (arith, due) in
    rw (e, test)
      (record {
        steps = suc (late / i.period);
        on_grid = omega (arith, parts, small, due, suc-mul (late / i.period) i.period);
        later = omega (arith, small, due);
        soon = omega arith;
      })

-- With Delay, a tick that is asked for before it is due is followed, less than a period after it, by the
-- next one.
pub tick-delay_early :
    (i : Interval) (now : ℕ)
    → i.behavior ≡ delay
    → now < i.expired_time
    → (tick i now).0.expired_time < (tick i now).1 + i.period
unfolding tick next_timeout
tick-delay_early i now e early = rw e (omega (arith, early))

-- With Burst, `n` ticks later the expected time is `n` periods later, whenever the ticks were asked for.
abbrev pub after_ticks : Interval → List ℕ → Interval
after_ticks i [] = i
after_ticks i (now ∷ times) = after_ticks (tick i now).0 times

pub after_ticks_burst :
    (times : List ℕ) (i : Interval)
    → i.behavior ≡ burst
    → (after_ticks i times).expired_time ≡ i.expired_time + length times * i.period
unfolding tick next_timeout
after_ticks_burst [] i e = omega arith
after_ticks_burst (now ∷ times) i e =
    let rest = after_ticks_burst times (tick i now).0 e in
    let one : next_timeout i now ≡ i.expired_time + i.period = rw e refl in
    rest ∙ omega (arith, one, suc-mul (length times) i.period)
