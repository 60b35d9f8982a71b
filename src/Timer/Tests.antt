-- ===== src/Timer/Tests.antt =====
-- Timers that meet the hypotheses of the timer's theorems, and runs of its operations.
use zedlibs.Prelude.{ℕ, ◌≡◌, refl, List, [], ◌∷◌, Option, none, some, length, arith}
use zedlibs.Errors.{ok, err, passed_time, too_long_time}
use zedlibs.Wheel.{
  Entry, Wheel, handle, io_data, new_wheel, first_bit, ms_per_slot, max_ms, pow_loop, get_index,
  empty, move_slots, rotate, level_up, level_down, can_level_down, expire_loop, expire_slot,
}
use zedlibs.Wheel
use zedlibs.Wheel.Items.{items, gather}
use zedlibs.Wheel.Insert.{add_entry-Added, new_wheel-IsGood}
use zedlibs.Timer.{
  Timer, wheel, make, add_entry, enter, handle_expired_entries, next_expiration_time, remove_entry,
  time_since_start, level_up_and_add_entry, build_wheel_and_add_entry, maintenance,
  level_down_if_needed, elapsed,
}
use zedlibs.Timer.Invariant.{held, WellFormed}
use zedlibs.Timer.Insert.{AddOutcome, add_entry-AddOutcome}
use zedlibs.Timer.Expire.{Handled, handle_expired_entries-Handled}
use zedlibs.Timer.Next.{NextOutcome, next_expiration_time-NextOutcome}

abbrev timeout : Entry
timeout = record { address = 2; expiration_time = 75000000; target = io_data 20 }

abbrev far : Entry
far = record { address = 3; expiration_time = 9000000000; target = handle 30 }

-- Started at 5 ms, with one entry at 75 ms.
abbrev sleeping : Timer
sleeping = record {
  start = 5000000;
  num_entries = 1;
  root = wheel 1 (Wheel.add_entry 1 (new_wheel 1) timeout 70);
}

sleeping-held : held sleeping ≡ (70, timeout) ∷ []
unfolding items gather Wheel.add_entry new_wheel ms_per_slot pow_loop get_index
sleeping-held = refl

sleeping-WellFormed : WellFormed sleeping
unfolding items gather Wheel.add_entry new_wheel ms_per_slot pow_loop get_index
sleeping-WellFormed = record {
  fits = (omega arith, (add_entry-Added 1 (new_wheel 1) timeout 70 (new_wheel-IsGood 1)).full);
  counted = refl;
  few = omega arith;
}

add_entry-AddOutcome_example : AddOutcome sleeping 6000000 far (add_entry sleeping 6000000 far)
add_entry-AddOutcome_example =
    add_entry-AddOutcome sleeping 6000000 far sleeping-WellFormed (omega arith) (omega arith)

handle_expired_entries-Handled_example :
    Handled sleeping 70000000 (handle_expired_entries sleeping 70000000)
handle_expired_entries-Handled_example =
    handle_expired_entries-Handled sleeping 70000000 sleeping-WellFormed (omega arith)

next_expiration_time-NextOutcome_example :
    NextOutcome sleeping 6000000 (next_expiration_time sleeping 6000000)
next_expiration_time-NextOutcome_example =
    next_expiration_time-NextOutcome sleeping 6000000 sleeping-WellFormed (omega arith)

-- 69 ms remain at 6 ms.
remains : next_expiration_time sleeping 6000000 ≡ some (some 69)
unfolding next_expiration_time Wheel.next_expiration_time time_since_start first_bit Wheel.add_entry
    new_wheel ms_per_slot pow_loop get_index
remains = refl

-- An entry at 3 ms is past at 6 ms.
too_late :
    add_entry sleeping 6000000 (record far { expiration_time = 3000000 })
    ≡ some (sleeping, err passed_time)
unfolding add_entry
too_late = refl

-- The root moves up to level 2 for an entry at 8995 ms.
abbrev level_of : Option (Timer × zedlibs.Errors.Result ℕ) → Option ℕ
level_of none = none
level_of (some (t, r)) = elim t.root [ zedlibs.Timer.no_wheel ↦ none | wheel level w ↦ some level ]

moves_up : level_of (add_entry sleeping 6000000 far) ≡ some 2
unfolding add_entry enter level_up_and_add_entry level_up time_since_start max_ms ms_per_slot
    pow_loop
moves_up = refl

-- At 70 ms nothing has expired, the start has moved on to 69 ms, and the root is down to level 0.
abbrev after_of : Option (Timer × List Entry) → Option (ℕ × ℕ × ℕ)
after_of none = none
after_of (some (t, ran)) = some (t.start, t.num_entries, length ran)

moves_on : after_of (handle_expired_entries sleeping 70000000) ≡ some (69000000, 1, 0)
unfolding handle_expired_entries elapsed Wheel.handle_expired_entries expire_loop expire_slot
    maintenance level_down_if_needed level_down can_level_down rotate move_slots first_bit empty
    Wheel.add_entry new_wheel ms_per_slot pow_loop get_index
moves_on = refl
