-- ===== src/Timer/Invariant.antt =====
-- What a timer holds, and when it is well formed.
use zedlibs.Prelude.{ℕ, ◌^◌, ◌≤◌, ◌<◌, ◌≡◌, refl, List, [], length, arith}
use zedlibs.Wheel.Items.{Item, items}
use zedlibs.Wheel.Expire.{IsFull}
use zedlibs.Timer.{Timer, Root, no_wheel, wheel, make}

abbrev pub root_items : Root → List Item
root_items no_wheel = []
root_items (wheel level w) = items level w

-- The entries with their intervals, the milliseconds from the timer's start.
abbrev pub held : Timer → List Item
held timer = root_items timer.root

-- A wheel is of one of the levels up to `MAX_LEVEL`, well formed, and not empty.
abbrev pub RootFits : Root → Type 0
RootFits no_wheel = Unit {0}
RootFits (wheel level w) = (level ≤ 6) × IsFull level w

pub record WellFormed (timer : Timer) : Type 0 where
  pub fits : RootFits timer.root
  pub counted : timer.num_entries ≡ length (held timer)
  pub few : timer.num_entries < 2 ^ 64

-- A new timer is well formed.
pub make-WellFormed : (now : ℕ) → WellFormed (make now)
unfolding make
make-WellFormed now = record { fits = tt; counted = refl; few = omega arith }
