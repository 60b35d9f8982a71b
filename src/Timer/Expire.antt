-- ===== src/Timer/Expire.antt =====
-- `Timer::handle_expired_entries` with `maintenance` and `level_down_if_needed`.
use zedlibs.Prelude.{
  ℕ, zero, suc, ◌+◌, ◌-◌, ◌*◌, ◌/◌, ◌^◌, ◌≤◌, ◌<◌, ◌≡◌, ◌⊎◌, refl, sym, ap, ◌∙◌, subst, inl, inr,
  List, [], ◌∷◌, Option, none, some, true, false, ltb, leb, ◌==◌, if◌then◌else◌, length, arith,
  dec_lt, Bool-cases,
}
use zedlibs.Wheel.{Entry, Wheel, ms_per_slot, max_ms, empty, rotate, can_level_down, level_down}
use zedlibs.Wheel
use native.Mathlib.Nat.{div-add-mod, mul_comm}
use zedlibs.Wheel.Power.{ms_per_slot_pos}
use zedlibs.Wheel.Items.{Item, items, delay, due, later, AllFrom, AllFrom-le}
use zedlibs.Wheel.Expire.{IsGood, IsFull, handle_expired_entries-Expired, items-empty}
use zedlibs.Wheel.Rotate.{delay_zero}
use zedlibs.Wheel.Shift.{Shifted, rotate-Shifted}
use zedlibs.Wheel.Next.{next_expiration_time-IsNext}
use zedlibs.Wheel.Levels.{level_down-LevelDown}
use zedlibs.Timer.{
  Timer, Root, no_wheel, wheel, minus, elapsed, level_down_if_needed, maintenance,
  handle_expired_entries,
}
use zedlibs.Timer.Invariant.{root_items, held, RootFits, WellFormed}

-- A root of a lower level that holds the same.
pub record SameRoot (old : List Item) (out : Option Root) : Type 0 where
  pub root : Root
  pub found : out ≡ some root
  pub fits : RootFits root
  pub kept : root_items root ≡ old

level_down_if_needed-SameRoot :
    (level : ℕ) (w : Wheel level)
    → level ≤ 6
    → IsFull level w
    → SameRoot (items level w) (level_down_if_needed level w)
unfolding level_down_if_needed
level_down_if_needed-SameRoot zero w top full = record {
  root = wheel 0 w;
  found = refl;
  fits = (top, full);
  kept = refl;
}
level_down_if_needed-SameRoot (suc level) w top full = elim (Bool-cases (can_level_down level w)) [
  | inl can ↦
      let down = level_down-LevelDown level w full.0 can in
      rw (can, down.found, sym down.same.kept)
        (level_down_if_needed-SameRoot level down.child (omega arith) down.same.full)
  | inr stay ↦
      rw stay (record { root = wheel (suc level) w; found = refl; fits = (top, full); kept = refl })
]

later-AllFrom : (r : ℕ) (l : List Item) → AllFrom (suc r) (later r l)
later-AllFrom r [] = tt
later-AllFrom r ((t, e) ∷ l) = elim (dec_lt r t) [
  | yes h ↦ rw (leb_above r t h) (h, later-AllFrom r l)
  | no h ↦ rw (leb_below r t h) (later-AllFrom r l)
]
  where
    leb_above : (r t : ℕ) → r < t → leb t r ≡ false
    leb_above r t h = ground arith

    leb_below : (r t : ℕ) → ¬ (r < t) → leb t r ≡ true
    leb_below r t h = ground arith

length-due : (r : ℕ) (l : List Item) → length (due r l) + length (later r l) ≡ length l
length-due r [] = refl
length-due r ((t, e) ∷ l) = ground (arith, length-due r l)

length-delay : (k : ℕ) (l : List Item) → length (delay k l) ≡ length l
length-delay k [] = refl
length-delay k ((t, e) ∷ l) = ap (λ n. suc n) (length-delay k l)

slots_below : (r m : ℕ) → 0 < m → r / m * m ≤ r
slots_below r m h = omega (arith, div-add-mod r m)

slots_few : (r m : ℕ) → 0 < m → r < m * 64 → r / m < 64
slots_few r m h p = grind (arith, div-add-mod r m)

-- The rotation of a wheel that is not empty, by the slots that lie before time `r`.
rotated :
    (level : ℕ) (w : Wheel level) (r : ℕ)
    → IsFull level w
    → r < max_ms level
    → AllFrom (suc r) (items level w)
    → Shifted level w
        (r / ms_per_slot level)
        (if ltb 0 (r / ms_per_slot level) then rotate level w (r / ms_per_slot level) else some w)
unfolding max_ms
rotated level w r full small late = elim (dec_lt 0 (r / ms_per_slot level)) [
  | yes some_slots ↦
      let on : ltb 0 (r / ms_per_slot level) ≡ true = ground arith in
      rw on (
        rotate-Shifted level w (r / ms_per_slot level) some_slots
          (slots_few r (ms_per_slot level) (ms_per_slot_pos level) small) full
          (AllFrom-le (suc r) (r / ms_per_slot level * ms_per_slot level) (items level w)
            (omega (arith, slots_below r (ms_per_slot level) (ms_per_slot_pos level))) late))
  | no none_yet ↦
      let off : ltb 0 (r / ms_per_slot level) ≡ false = ground arith in
      let no_slot : r / ms_per_slot level ≡ 0 = omega arith in
      let nought : r / ms_per_slot level * ms_per_slot level ≡ 0 =
        ap (λ k. k * ms_per_slot level) no_slot ∙ omega arith in
      rw off (record {
        wheel = w;
        found = refl;
        full = full;
        kept = ap (λ k. delay k (items level w)) nought ∙ delay_zero (items level w);
      })
]

abbrev timer_of : ℕ → ℕ → Root → Timer
timer_of start num root = record { start = start; num_entries = num; root = root }

-- A timer whose start has moved on by `shift` milliseconds, at most `r`, and which holds `l` as seen
-- from the old start.
pub record Moved (start r : ℕ) (l : List Item) (out : Option Timer) : Type 0 where
  pub after : Timer
  pub found : out ≡ some after
  pub good : WellFormed after
  pub shift : ℕ
  pub small : shift ≤ r
  pub begun : after.start ≡ start + shift * 1000000
  pub kept : delay shift (held after) ≡ l

-- A wheel that is empty is dropped.
maintenance-gone :
    (start num level : ℕ) (root : Root) (w : Wheel level) (r : ℕ)
    → IsGood level w
    → empty level w ≡ true
    → num ≡ length (items level w)
    → Moved start r (items level w) (maintenance (timer_of start num root) level w r)
unfolding maintenance
maintenance-gone start num level root w r good gone count =
    let nothing = items-empty level w good gone in
    let zero_count : num ≡ 0 = count ∙ ap length nothing in
    let counted : (num == 0) ≡ true = ground arith in
    rw gone (
      rw counted (record {
        after = timer_of start num no_wheel;
        found = refl;
        good = record { fits = tt; counted = zero_count; few = omega arith };
        shift = 0;
        small = omega arith;
        begun = omega arith;
        kept = sym nothing;
      }))

-- A wheel that is not empty is rotated to the last slot that has begun, and levelled down.
maintenance-stays :
    (start num level : ℕ) (root : Root) (w : Wheel level) (r : ℕ)
    → level ≤ 6
    → IsFull level w
    → r < max_ms level
    → AllFrom (suc r) (items level w)
    → num ≡ length (items level w)
    → num < 2 ^ 64
    → Moved start r (items level w) (maintenance (timer_of start num root) level w r)
unfolding maintenance
maintenance-stays start num level root w r top full small late count few =
    let ms : ℕ = ms_per_slot level in
    let turn = rotated level w r full small late in
    let down = level_down_if_needed-SameRoot level turn.wheel top turn.full in
    let same : delay (r / ms * ms) (root_items down.root) ≡ items level w =
      ap (delay (r / ms * ms)) down.kept ∙ turn.kept in
    rw full.1 (
      rw (turn.found) (
        rw (down.found) (record {
          after = timer_of (start + ms * (r / ms) * 1000000) num down.root;
          found = refl;
          good = record {
            fits = down.fits;
            counted =
                count ∙ ap length (sym same) ∙ length-delay (r / ms * ms) (root_items down.root);
            few = few;
          };
          shift = r / ms * ms;
          small = slots_below r ms (ms_per_slot_pos level);
          begun = ap (λ k. start + k * 1000000) (mul_comm ms (r / ms));
          kept = same;
        })))

-- What `handle_expired_entries` does at the time `now`.
pub record Handled (timer : Timer) (now : ℕ) (out : Option (Timer × List Entry)) : Type 0 where
  pub after : Timer
  pub ran : List Entry
  pub found : out ≡ some (after, ran)
  pub good : WellFormed after
  pub due_ran : ran ≡ due ((now - timer.start) / 1000000) (held timer)
  pub shift : ℕ
  pub begun : after.start ≡ timer.start + shift * 1000000
  pub in_time : after.start ≤ now
  pub kept : delay shift (held after) ≡ later ((now - timer.start) / 1000000) (held timer)

-- The wheel after the expiry is kept in either case.
maintenance-Moved :
    (start num level : ℕ) (root : Root) (w : Wheel level) (r : ℕ)
    → level ≤ 6
    → IsGood level w
    → (empty level w ≡ true) ⊎ (r < max_ms level)
    → AllFrom (suc r) (items level w)
    → num ≡ length (items level w)
    → num < 2 ^ 64
    → Moved start r (items level w) (maintenance (timer_of start num root) level w r)
maintenance-Moved start num level root w r top good stopped late count few =
    elim (Bool-cases (empty level w)) [
      | inl gone ↦ maintenance-gone start num level root w r good gone count
      | inr stays ↦
          maintenance-stays start num level root w r top (good, stays)
            (ground (arith, stopped, stays)) late count few
    ]

Handled-Moved :
    (timer : Timer) (now : ℕ) (ran : List Entry) (out : Option Timer)
    → timer.start ≤ now
    → ran ≡ due ((now - timer.start) / 1000000) (held timer)
    → Moved timer.start
        ((now - timer.start) / 1000000)
        (later ((now - timer.start) / 1000000) (held timer))
        out
    → Handled timer now (elim out [ none ↦ none | some timer' ↦ some (timer', ran) ])
Handled-Moved timer now ran out before due_ran m = rw m.found (record {
  after = m.after;
  ran = ran;
  found = refl;
  good = m.good;
  due_ran = due_ran;
  shift = m.shift;
  begun = m.begun;
  in_time = omega (arith, m.begun, m.small);
  kept = m.kept;
})

full_some : (level : ℕ) (w : Wheel level) → IsFull level w → 0 < length (items level w)
full_some level w full =
    let next = next_expiration_time-IsNext level w full.0 full.1 in
    omega (arith, ap length next.held)

Handled-wheel :
    (start num now level : ℕ) (w : Wheel level)
    → WellFormed (timer_of start num (wheel level w))
    → start ≤ now
    → Handled
        (timer_of start num (wheel level w))
        now
        (handle_expired_entries (timer_of start num (wheel level w)) now)
unfolding handle_expired_entries elapsed
Handled-wheel start num now level w good before =
    let r : ℕ = (now - start) / 1000000 in
    let out = Wheel.handle_expired_entries level w r in
    let e = handle_expired_entries-Expired level w r good.fits.1.0 in
    let sum : length out.1 + length (items level out.0) ≡ num =
      ap (λ l. length l + length (items level out.0)) e.ran
      ∙ ap (λ l. length (due r (items level w)) + length l) e.left
      ∙ length-due r (items level w)
      ∙ sym good.counted in
    let some_count : (num == 0) ≡ false =
      ground (arith, full_some level w good.fits.1, good.counted) in
    let begun : leb start now ≡ true = ground arith in
    let left : minus num (length out.1) ≡ length (items level out.0) = ground (arith, sum) in
    rw some_count (
      rw begun (
        Handled-Moved (timer_of start num (wheel level w)) now out.1
          (maintenance (timer_of start (minus num (length out.1)) (wheel level w)) level out.0 r)
          before e.ran
          (subst
            (λ l. Moved start r l (
              maintenance (timer_of start (minus num (length out.1)) (wheel level w)) level out.0
                r))
            e.left
            (maintenance-Moved start (minus num (length out.1)) level (wheel level w) out.0 r
              good.fits.0 e.good e.stopped
              (subst (AllFrom (suc r)) (sym e.left) (later-AllFrom r (items level w))) left
              (omega (arith, left, sum, good.few))))))

Handled-root :
    (start num now : ℕ) (root : Root)
    → WellFormed (timer_of start num root)
    → start ≤ now
    → Handled (timer_of start num root) now (handle_expired_entries (timer_of start num root) now)
unfolding handle_expired_entries
Handled-root start num now no_wheel good before = record {
  after = timer_of start num no_wheel;
  ran = [];
  found = refl;
  good = good;
  due_ran = refl;
  shift = 0;
  begun = omega arith;
  in_time = before;
  kept = refl;
}
Handled-root start num now (wheel level w) good before =
    Handled-wheel start num now level w good before

-- `handle_expired_entries` on a well-formed timer, at a time that is not before its start, fails no
-- assertion. It executes the entries whose interval is at most the milliseconds since the start, in
-- the order of the wheel's slots, and keeps exactly the others: the start moves on, not past the
-- present time, and their intervals shrink by as much. The timer stays well formed.
pub handle_expired_entries-Handled :
    (timer : Timer) (now : ℕ)
    → WellFormed timer
    → timer.start ≤ now
    → Handled timer now (handle_expired_entries timer now)
handle_expired_entries-Handled timer now good before =
    Handled-root timer.start timer.num_entries now timer.root good before
