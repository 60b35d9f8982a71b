-- ===== src/Timer.antt =====
-- zedio/runtime/timer/timer.hpp: the class Timer, which keeps one wheel of the levels 0 to 6 as its
-- root. Points in time are nanoseconds of the steady clock, intervals milliseconds.
pub mod Invariant
pub mod Insert
pub mod Expire
pub mod Next
mod Tests
use zedlibs.Prelude.{
  ℕ, zero, suc, ◌+◌, ◌-◌, ◌*◌, ◌/◌, ◌%◌, ◌^◌, List, [], ◌∷◌, Option, none, some, Bool, true, false,
  ◌==◌, ltb, leb, not, ◌&&◌, ◌||◌, if◌then◌else◌, length,
}
use zedlibs.Errors.{Result, ok, err, passed_time, too_long_time}
use zedlibs.Wheel.{
  Entry, Wheel, ms_per_slot, max_ms, new_wheel, empty, rotate, level_up, level_down, can_level_down,
}
use zedlibs.Wheel

-- `root_wheel_`: `std::monostate`, or a wheel of some level.
pub data Root : Type 0 where
  no_wheel : Root
  wheel : (level : ℕ) → Wheel level → Root

pub record Timer : Type 0 where
  pub start : ℕ
  pub num_entries : ℕ
  pub root : Root

-- A new timer starts at the time `now`.
unfoldable pub make : ℕ → Timer
make now = record { start = now; num_entries = 0; root = no_wheel }

-- `x -= y` on `std::size_t`
abbrev pub minus : ℕ → ℕ → ℕ
minus x y = if ltb x y then x + 2 ^ 64 - y else x - y

-- The duration from `start` in whole milliseconds, rounded towards zero and converted to
-- `std::size_t`.
unfoldable pub time_since_start : ℕ → ℕ → ℕ
time_since_start start time =
    if leb start time then (time - start) / 1000000 else minus 0 ((start - time) / 1000000)

-- `Timer::MAX_MS`
abbrev pub longest : ℕ
longest = 64 ^ 7

-- With the levels `LEVEL` that are left up to `MAX_LEVEL + 1`, where the assertion fails.
unfoldable pub level_up_and_add_entry : ℕ → (level : ℕ) → Wheel level → Entry → ℕ → Option Root
level_up_and_add_entry zero level w entry interval = none
level_up_and_add_entry (suc levels) level w entry interval =
    let higher = level_up_and_add_entry levels (suc level) (level_up level w) entry interval in
    if leb (max_ms level) interval
    then higher
    else some (wheel level (Wheel.add_entry level w entry interval))

unfoldable pub build_wheel_and_add_entry : ℕ → Entry → ℕ → Root
build_wheel_and_add_entry zero entry interval =
    wheel 0 (Wheel.add_entry 0 (new_wheel 0) entry interval)
build_wheel_and_add_entry (suc level) entry interval =
    let lower = build_wheel_and_add_entry level entry interval in
    if not (leb (ms_per_slot (suc level)) interval && ltb interval (max_ms (suc level)))
    then lower
    else wheel (suc level) (Wheel.add_entry (suc level) (new_wheel (suc level)) entry interval)

-- The visit of `root_wheel_` in `add_entry`, at the time `now`.
unfoldable pub enter : Timer → ℕ → Entry → Option Timer
enter timer now entry = elim timer.root [
  | no_wheel ↦ some (record {
    start = now;
    num_entries = (timer.num_entries + 1) % 2 ^ 64;
    root = build_wheel_and_add_entry 6 entry (time_since_start now entry.expiration_time);
  })
  | wheel level w ↦
      elim (level_up_and_add_entry (7 - level) level w entry
        (time_since_start timer.start entry.expiration_time)) [
          | none ↦ none
          | some root ↦
              some (record timer { num_entries = (timer.num_entries + 1) % 2 ^ 64; root = root })
        ]
]

-- `none` is a failed assertion; the result is the address of the entry.
unfoldable pub add_entry : Timer → ℕ → Entry → Option (Timer × Result ℕ)
add_entry timer now entry =
    if leb entry.expiration_time now
    then some (timer, err passed_time)
    else if leb (timer.start + longest * 1000000) entry.expiration_time
    then some (timer, err too_long_time)
    else elim (enter timer now entry) [
      | none ↦ none
      | some timer' ↦ some (timer', ok entry.address)
    ]

-- `none` is a failed assertion, of this function or of the wheel's.
unfoldable pub remove_entry : Timer → Entry → Option Timer
remove_entry timer entry = elim timer.root [
  | no_wheel ↦ none
  | wheel level w ↦
      if timer.num_entries == 0
      then none
      else elim (Wheel.remove_entry level w entry.address
          (time_since_start timer.start entry.expiration_time)) [
            | none ↦ none
            | some w' ↦ some (record timer {
              num_entries = minus timer.num_entries 1;
              root = if minus timer.num_entries 1 == 0 then no_wheel else wheel level w';
            })
          ]
]

-- `none` is a failed assertion of the wheel's, and `some none` is `std::nullopt`.
unfoldable pub next_expiration_time : Timer → ℕ → Option (Option ℕ)
next_expiration_time timer now = elim timer.root [
  | no_wheel ↦ some none
  | wheel level w ↦ elim (Wheel.next_expiration_time level w) [
    | none ↦ none
    | some time ↦ some (some (minus time (time_since_start timer.start now)))
  ]
]

-- A child that is missing does not occur in a well-formed wheel.
unfoldable pub level_down_if_needed : (level : ℕ) → Wheel level → Option Root
level_down_if_needed zero w = some (wheel 0 w)
level_down_if_needed (suc level) w =
    let lower : Option Root = elim (level_down level w) [
      | none ↦ none
      | some child ↦ level_down_if_needed level child
    ] in
    if can_level_down level w then lower else some (wheel (suc level) w)

-- `none` is a failed assertion.
unfoldable pub maintenance : Timer → (level : ℕ) → Wheel level → ℕ → Option Timer
maintenance timer level w interval =
    let n : ℕ = interval / ms_per_slot level in
    if empty level w
    then if timer.num_entries == 0 then some (record timer { root = no_wheel }) else none
    else elim (if ltb 0 n then rotate level w n else some w) [
      | none ↦ none
      | some w' ↦ elim (level_down_if_needed level w') [
        | none ↦ none
        | some root ↦
            some
              (record timer { start = timer.start + ms_per_slot level * n * 1000000; root = root })
      ]
    ]

-- The time since the start in whole milliseconds, and `none` where it is negative.
unfoldable pub elapsed : ℕ → ℕ → Option ℕ
elapsed start now =
    if leb start now
    then some ((now - start) / 1000000)
    else if leb 1000000 (start - now)
    then none
    else some 0

-- The timer afterwards and the entries that were executed, whose number is returned.
unfoldable pub handle_expired_entries : Timer → ℕ → Option (Timer × List Entry)
handle_expired_entries timer now = elim timer.root [
  | no_wheel ↦ some (timer, [])
  | wheel level w ↦
      if timer.num_entries == 0 then some (timer, []) else elim (elapsed timer.start now) [
        | none ↦ none
        | some interval ↦
            let (w', ran) = Wheel.handle_expired_entries level w interval in
            elim (maintenance (record timer { num_entries = minus timer.num_entries (length ran) })
              level w' interval) [ none ↦ none | some timer' ↦ some (timer', ran) ]
      ]
]
