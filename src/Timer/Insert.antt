-- ===== src/Timer/Insert.antt =====
-- `Timer::add_entry`: the choice of the level, and what the timer holds afterwards.
use mathlib.Core.List.{Perm}
use native.Mathlib.Nat.{mod-eq_of_lt}
use zedlibs.Prelude.{
  ℕ, zero, suc, ◌+◌, ◌-◌, ◌*◌, ◌/◌, ◌%◌, ◌^◌, ◌≤◌, ◌<◌, ◌≡◌, refl, sym, subst, List, [], ◌∷◌,
  Option, some, true, false, ltb, leb, not, ◌&&◌, arith, dec_lt, ℕ_discrete,
}
use zedlibs.Prelude.Perms.{length-Perm}
use zedlibs.Errors.{Result, ok, err, passed_time, too_long_time}
use zedlibs.Wheel.{Entry, Wheel, pow_loop, ms_per_slot, max_ms, new_wheel, level_up}
use zedlibs.Wheel
use zedlibs.Wheel.Items.{Item, items}
use zedlibs.Wheel.Expire.{IsGood, IsFull}
use zedlibs.Wheel.Insert.{add_entry-Added, new_wheel-IsGood, items-new_wheel}
use zedlibs.Wheel.Next.{max_ms_child}
use zedlibs.Wheel.Levels.{level_up-SameItems}
use zedlibs.Timer.{
  Timer, Root, no_wheel, wheel, longest, time_since_start, level_up_and_add_entry,
  build_wheel_and_add_entry, enter, add_entry,
}
use zedlibs.Timer.Invariant.{root_items, held, RootFits, WellFormed}

longest_lem : max_ms 6 ≡ longest
unfolding max_ms ms_per_slot pow_loop
longest_lem = refl

-- A root that gained an entry.
pub record Gained (old : List Item) (entry : Entry) (interval : ℕ) (root : Root) : Type 0 where
  pub fits : RootFits root
  pub gained : Perm (root_items root) ((interval, entry) ∷ old)

-- An entry whose interval is below the width of the wheel stands at its interval.
Gained-here :
    (level : ℕ) (w : Wheel level) (entry : Entry) (interval : ℕ)
    → level ≤ 6
    → IsGood level w
    → interval < max_ms level
    → Gained (items level w) entry interval (wheel level (Wheel.add_entry level w entry interval))
Gained-here level w entry interval top good small =
    let added = add_entry-Added level w entry interval good in
    record {
      fits = (top, added.full);
      gained =
          subst
            (λ t.
              Perm (items level (Wheel.add_entry level w entry interval))
                ((t, entry) ∷ items level w))
            (mod-eq_of_lt small) added.gained;
    }

level_above :
    (level interval : ℕ)
    → level ≤ 6
    → ¬ (interval < max_ms level)
    → interval < max_ms 6
    → suc level ≤ 6
level_above level interval top above small = elim (ℕ_discrete level 6) [
  | yes last ↦ absurd (above (subst (λ l. interval < max_ms l) (sym last) small))
  | no ne ↦ omega arith
]

-- What `level_up_and_add_entry` returns.
pub record GainedRoot (old : List Item) (entry : Entry) (interval : ℕ) (out : Option Root)
    : Type 0 where
  pub root : Root
  pub found : out ≡ some root
  pub gain : Gained old entry interval root

-- The assertion on the level does not fail: an interval below that of the highest level is below
-- that of some level on the way.
level_up_and_add_entry-GainedRoot :
    (levels level : ℕ) (w : Wheel level) (entry : Entry) (interval : ℕ)
    → levels + level ≡ 7
    → level ≤ 6
    → IsFull level w
    → interval < max_ms 6
    → GainedRoot
        (items level w)
        entry
        interval
        (level_up_and_add_entry levels level w entry interval)
unfolding level_up_and_add_entry
level_up_and_add_entry-GainedRoot zero level w entry interval sum top full small =
    absurd (omega arith)
level_up_and_add_entry-GainedRoot (suc levels) level w entry interval sum top full small =
    elim (dec_lt interval (max_ms level)) [
      | yes below ↦
          let stay : leb (max_ms level) interval ≡ false = ground arith in
          rw stay (record {
            root = wheel level (Wheel.add_entry level w entry interval);
            found = refl;
            gain = Gained-here level w entry interval top full.0 below;
          })
      | no above ↦
          let go : leb (max_ms level) interval ≡ true = ground arith in
          let same = level_up-SameItems level w full in
          rw (go, sym same.kept)
            (level_up_and_add_entry-GainedRoot levels (suc level) (level_up level w) entry interval
              (omega arith) (level_above level interval top above small) same.full small)
    ]

build_wheel_and_add_entry-Gained :
    (level : ℕ) (entry : Entry) (interval : ℕ)
    → level ≤ 6
    → interval < max_ms level
    → Gained [] entry interval (build_wheel_and_add_entry level entry interval)
unfolding build_wheel_and_add_entry
build_wheel_and_add_entry-Gained zero entry interval top small =
    subst (λ l. Gained l entry interval (wheel 0 (Wheel.add_entry 0 (new_wheel 0) entry interval)))
      (items-new_wheel 0)
      (Gained-here 0 (new_wheel 0) entry interval top (new_wheel-IsGood 0) small)
build_wheel_and_add_entry-Gained (suc level) entry interval top small =
    elim (dec_lt interval (ms_per_slot (suc level))) [
      | yes lower ↦
          let out : not
                (leb (ms_per_slot (suc level)) interval && ltb interval (max_ms (suc level)))
              ≡ true =
            ground arith in
          rw out (
            build_wheel_and_add_entry-Gained level entry interval (omega arith)
              (omega (arith, max_ms_child level)))
      | no here ↦
          let inside : not
                (leb (ms_per_slot (suc level)) interval && ltb interval (max_ms (suc level)))
              ≡ false =
            ground arith in
          rw inside (
            subst
              (λ l. Gained l entry interval (
                wheel (suc level)
                  (Wheel.add_entry (suc level) (new_wheel (suc level)) entry interval)))
              (items-new_wheel (suc level))
              (Gained-here (suc level) (new_wheel (suc level)) entry interval top
                (new_wheel-IsGood (suc level)) small))
    ]

abbrev pub begin : Timer → ℕ → ℕ
begin timer now = elim timer.root [ no_wheel ↦ now | wheel _ _ ↦ timer.start ]

-- What a timer is after an entry has joined it. A timer without a wheel starts anew.
pub record Joined (timer : Timer) (now : ℕ) (entry : Entry) (timer' : Timer) : Type 0 where
  pub good : WellFormed timer'
  pub begun : timer'.start ≡ begin timer now
  pub gained :
      Perm (held timer') (((entry.expiration_time - timer'.start) / 1000000, entry) ∷ held timer)

-- The entry is past, too far away, or accepted.
pub data AddOutcome (timer : Timer) (now : ℕ) (entry : Entry) (out : Option (Timer × Result ℕ))
    : Type 0 where
  past :
      entry.expiration_time ≤ now
      → out ≡ some (timer, err passed_time)
      → AddOutcome timer now entry out
  too_long :
      now < entry.expiration_time
      → timer.start + longest * 1000000 ≤ entry.expiration_time
      → out ≡ some (timer, err too_long_time)
      → AddOutcome timer now entry out
  accepted :
      now < entry.expiration_time
      → entry.expiration_time < timer.start + longest * 1000000
      → (timer' : Timer) → out ≡ some (timer', ok entry.address)
      → Joined timer now entry timer'
      → AddOutcome timer now entry out

pub interval_lem :
    (start time : ℕ) → start ≤ time → time_since_start start time ≡ (time - start) / 1000000
unfolding time_since_start
interval_lem start time h = ground arith

interval_small :
    (start time : ℕ)
    → start ≤ time
    → time < start + longest * 1000000
    → time_since_start start time < max_ms 6
interval_small start time h p =
    subst (λ m. time_since_start start time < m) (sym longest_lem)
      (omega (arith, interval_lem start time h))

-- The number of entries follows what the timer holds.
Joined-root :
    (timer : Timer) (now start : ℕ) (entry : Entry) (root : Root)
    → WellFormed timer
    → timer.num_entries + 1 < 2 ^ 64
    → start ≡ begin timer now
    → start ≤ entry.expiration_time
    → Gained (held timer) entry (time_since_start start entry.expiration_time) root
    → Joined timer now entry
        (record { start = start; num_entries = (timer.num_entries + 1) % 2 ^ 64; root = root })
Joined-root timer now start entry root good room begun before gain = record {
  good = record {
    fits = gain.fits;
    counted = omega (arith, length-Perm gain.gained, good.counted);
    few = omega arith;
  };
  begun = begun;
  gained =
      subst (λ t. Perm (root_items root) ((t, entry) ∷ held timer))
        (interval_lem start entry.expiration_time before) gain.gained;
}

abbrev timer_of : ℕ → ℕ → Root → Timer
timer_of start num root = record { start = start; num_entries = num; root = root }

-- What `enter` returns.
record Entered (timer : Timer) (now : ℕ) (entry : Entry) : Type 0 where
  after : Timer
  found : enter timer now entry ≡ some after
  joined : Joined timer now entry after

enter-Entered :
    (start num now : ℕ) (root : Root) (entry : Entry)
    → WellFormed (timer_of start num root)
    → start ≤ now
    → num + 1 < 2 ^ 64
    → now < entry.expiration_time
    → entry.expiration_time < start + longest * 1000000
    → Entered (timer_of start num root) now entry
unfolding enter
enter-Entered start num now no_wheel entry good before room future near =
    let gain =
      build_wheel_and_add_entry-Gained 6 entry (time_since_start now entry.expiration_time)
        (omega arith) (interval_small now entry.expiration_time (omega arith) (omega arith)) in
    record {
      after = timer_of now ((num + 1) % 2 ^ 64) _;
      found = refl;
      joined =
          Joined-root (timer_of start num no_wheel) now now entry _ good room refl (omega arith)
            gain;
    }
enter-Entered start num now (wheel level w) entry good before room future near =
    let t : ℕ = time_since_start start entry.expiration_time in
    let res =
      level_up_and_add_entry-GainedRoot (7 - level) level w entry t (omega (arith, good.fits.0))
        good.fits.0 good.fits.1 (interval_small start entry.expiration_time (omega arith) near) in
    record {
      after = timer_of start ((num + 1) % 2 ^ 64) res.root;
      found = rw (res.found, enter) refl;
      joined =
          Joined-root (timer_of start num (wheel level w)) now start entry res.root good room refl
            (omega arith) res.gain;
    }

-- `add_entry` on a well-formed timer, at a time that is not before its start and with room for the
-- count, never fails an assertion. An entry whose time has come, or is too far from the start, is
-- refused with the error for it and changes nothing. Any other is accepted: the timer holds it
-- besides the entries it held, at the milliseconds from the timer's start, which is the present
-- time if the timer had no wheel, and it is well formed.
pub add_entry-AddOutcome :
    (timer : Timer) (now : ℕ) (entry : Entry)
    → WellFormed timer
    → timer.start ≤ now
    → timer.num_entries + 1 < 2 ^ 64
    → AddOutcome timer now entry (add_entry timer now entry)
unfolding add_entry
add_entry-AddOutcome timer now entry good before room = elim (dec_lt now entry.expiration_time) [
  | no come ↦ past (omega arith) (ground arith)
  | yes future ↦ elim (dec_lt entry.expiration_time (timer.start + longest * 1000000)) [
    | no far ↦ too_long future (omega arith) (ground arith)
    | yes near ↦
        let res =
          enter-Entered timer.start timer.num_entries now timer.root entry good before room future
            near in
        let later : leb entry.expiration_time now ≡ false = ground arith in
        let inside : leb (timer.start + longest * 1000000) entry.expiration_time ≡ false =
          ground arith in
        accepted future near res.after (rw (later, inside, res.found) refl) res.joined
  ]
]
