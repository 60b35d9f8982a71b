-- ===== src/Wheel/Tests.antt =====
-- Wheels that meet the hypotheses of the timer wheel's theorems, and runs of its operations.
use native.Mathlib.Omega.{arith}
use zedlibs.Prelude.{◌*◌, ◌≡◌, refl, [], ◌∷◌, none, some}
use zedlibs.Wheel.{
  Entry, Wheel, handle, io_data, new_wheel, add_entry, empty, handle_expired_entries,
  next_expiration_time, remove_entry, expire_loop, first_bit, unlink, ms_per_slot, pow_loop,
  get_index, expire_slot,
}
use zedlibs.Wheel.Expire.{Expired, handle_expired_entries-Expired}
use zedlibs.Wheel.Insert.{Added, new_wheel-IsGood, add_entry-Added}
use zedlibs.Wheel.Items.{items, gather, AllFrom}

abbrev sleeper : Entry
sleeper = record { address = 1; expiration_time = 3; target = handle 10 }

abbrev timeout : Entry
timeout = record { address = 2; expiration_time = 70; target = io_data 20 }

-- One entry at 70 ms, and then another at 3 ms.
abbrev one : Wheel 1
one = add_entry 1 (new_wheel 1) timeout 70

abbrev two : Wheel 1
two = add_entry 1 one sleeper 3

one-Added : Added 1 (new_wheel 1) timeout 70 one
one-Added = add_entry-Added 1 (new_wheel 1) timeout 70 (new_wheel-IsGood 1)

two-Added : Added 1 one sleeper 3 two
two-Added = add_entry-Added 1 one sleeper 3 one-Added.full.0

handle_expired_entries-Expired_example : Expired 1 two 69 (handle_expired_entries 1 two 69)
handle_expired_entries-Expired_example = handle_expired_entries-Expired 1 two 69 two-Added.full.0

one-late : AllFrom (1 * ms_per_slot 1) (items 1 one)
unfolding items gather add_entry new_wheel ms_per_slot pow_loop get_index
one-late = (omega arith, tt)

-- At 69 ms only the first has expired, at 70 ms both have, and the wheel is empty.
one_runs : (handle_expired_entries 1 two 69).1 ≡ sleeper ∷ []
unfolding handle_expired_entries expire_loop expire_slot add_entry new_wheel first_bit empty
    ms_per_slot pow_loop get_index
one_runs = refl

both_run : (handle_expired_entries 1 two 70).1 ≡ sleeper ∷ timeout ∷ []
unfolding handle_expired_entries expire_loop expire_slot add_entry new_wheel first_bit empty
    ms_per_slot pow_loop get_index
both_run = refl

first_at_3 : next_expiration_time 1 two ≡ some 3
unfolding next_expiration_time add_entry new_wheel first_bit ms_per_slot pow_loop get_index
first_at_3 = refl

-- Without the sleeper the next time is the other's.
then_at_70 :
    (elim (remove_entry 1 two 1 3) [ none ↦ none | some w ↦ next_expiration_time 1 w ]) ≡ some 70
unfolding next_expiration_time remove_entry unlink empty add_entry new_wheel first_bit ms_per_slot
    pow_loop get_index
then_at_70 = refl
