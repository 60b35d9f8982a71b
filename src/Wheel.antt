-- ===== src/Wheel.antt =====
-- zedio/runtime/timer/wheel.hpp and entry.hpp: the hierarchical timer wheel. `Wheel<LEVEL>` is a
-- type by recursion on its level; `SLOT_SIZE` is 64 (zedio/runtime/config.hpp).
pub mod Power
pub mod Bits
pub mod Items
pub mod Loop
pub mod Expire
pub mod Insert
pub mod Next
pub mod Rotate
pub mod Shift
pub mod Levels
mod Tests
use zedlibs.Prelude.{
  ℕ, zero, suc, ◌+◌, ◌-◌, ◌*◌, ◌/◌, ◌%◌, ◌^◌, List, [], ◌∷◌, ◌++◌, Option, none, some, Bool, true,
  false, ◌==◌, ltb, not, ◌&&◌, if◌then◌else◌,
}

-- zedio/common/static_math.hpp: `while (y--) result *= x;`
unfoldable pub pow_loop : ℕ → ℕ → ℕ → ℕ
pow_loop x zero result = result
pow_loop x (suc y) result = pow_loop x y (result * x)

abbrev pub static_pow : ℕ → ℕ → ℕ
static_pow x y = pow_loop x y 1

-- What a timer does when it expires: resume a coroutine, or cancel an I/O request.
pub data Target : Type 0 where
  handle : ℕ → Target
  io_data : ℕ → Target

-- `next_` is the tail of the list in which the entry stands; `address` is where the entry is, by
-- which `remove_entry` finds it.
pub record Entry : Type 0 where
  pub address : ℕ
  pub expiration_time : ℕ
  pub target : Target

-- The bits of a `uint64_t`, from the lowest.
abbrev pub Bitmap : Type 0
Bitmap = ℕ → Bool

abbrev pub no_bits : Bitmap
no_bits i = false

abbrev pub update {ℓ} : {A : Type ℓ} → (ℕ → A) → ℕ → A → ℕ → A
update f i a j = if j == i then a else f j

-- `bitmap_ |= 1uz << index`, `bitmap_ &= ~(1uz << index)` and `bitmap_ >>= start`
abbrev pub set_bit : Bitmap → ℕ → Bitmap
set_bit b i = update b i true

abbrev pub clear_bit : Bitmap → ℕ → Bitmap
clear_bit b i = update b i false

abbrev pub shift_right : Bitmap → ℕ → Bitmap
shift_right b k j = if ltb (j + k) 64 then b (j + k) else false

-- The first bit that is set among `n` from bit `i` on.
unfoldable pub first_bit : ℕ → ℕ → Bitmap → Option ℕ
first_bit zero i b = none
first_bit (suc n) i b = let rest = first_bit n (suc i) b in if b i then some i else rest

-- `std::countr_zero(bitmap_)`, and `none` where `bitmap_` is 0.
abbrev pub countr_zero : Bitmap → Option ℕ
countr_zero b = first_bit 64 0 b

-- The slots of a `Wheel<0>` are lists of entries, those of the others pointers to wheels.
pub record Node (C : Type 0) : Type 0 where
  pub bitmap : Bitmap
  pub slots : ℕ → C

abbrev pub Wheel : ℕ → Type 0
Wheel zero = Node (List Entry)
Wheel (suc level) = Node (Option (Wheel level))

unfoldable pub ms_per_slot : ℕ → ℕ
ms_per_slot level = static_pow 64 level

unfoldable pub max_ms : ℕ → ℕ
max_ms level = ms_per_slot level * 64

-- `(interval & MASK) >> SHIFT`: the six bits of the interval from bit `LEVEL * 6` on.
unfoldable pub get_index : ℕ → ℕ → ℕ
get_index level interval = interval / 2 ^ (level * 6) % 64

unfoldable pub new_wheel : (level : ℕ) → Wheel level
new_wheel zero = record { bitmap = no_bits; slots = λ _. [] }
new_wheel (suc level) = record { bitmap = no_bits; slots = λ _. none }

abbrev pub is_none {ℓ} : {A : Type ℓ} → Option A → Bool
is_none none = true
is_none (some _) = false

unfoldable pub empty : (level : ℕ) → Wheel level → Bool
empty zero w = is_none (countr_zero w.bitmap)
empty (suc level) w = is_none (countr_zero w.bitmap)

-- `Wheel<0>::add_entry`
abbrev pub list_add_entry : Wheel 0 → Entry → ℕ → Wheel 0
list_add_entry w entry interval =
    let index : ℕ = get_index 0 interval in
    record w {
      bitmap = set_bit w.bitmap index;
      slots = update w.slots index (entry ∷ w.slots index);
    }

unfoldable pub add_entry : (level : ℕ) → Wheel level → Entry → ℕ → Wheel level
add_entry zero w entry interval = list_add_entry w entry interval
add_entry (suc level) w entry interval =
    let index : ℕ = get_index (suc level) interval in
    elim (w.slots index) [
      | none ↦ record w {
        bitmap = set_bit w.bitmap index;
        slots = update w.slots index (some (add_entry level (new_wheel level) entry interval));
      }
      | some child ↦ record w {
        slots = update w.slots index (some (add_entry level child entry interval));
      }
    ]

-- What the body of the loop in `handle_expired_entries` does with a slot: its new value, whether
-- it is now null, so that its bit is cleared, and the entries that were executed.
pub record Visited (C : Type 0) : Type 0 where
  pub slot : C
  pub cleared : Bool
  pub ran : List Entry

-- The body of `while (bitmap_) { … }` at the lowest slot: the loop ends if the slot is not due, or
-- keeps entries after the visit; otherwise the slot is null, and `go_on` is the rest of the loop.
unfoldable pub expire_slot :
    {C : Type 0}
    → ℕ
    → (C → ℕ → Visited C)
    → (Node C → Node C × List Entry)
    → Node C
    → ℕ
    → ℕ
    → Node C × List Entry
expire_slot {C} ms visit go_on w remaining index =
    let v = visit (w.slots index) (remaining - index * ms) in
    let kept : Node C = record w { slots = update w.slots index v.slot } in
    let rest = go_on (record kept { bitmap = clear_bit w.bitmap index }) in
    if ltb remaining (index * ms)
    then (w, [])
    else if v.cleared
    then (rest.0, v.ran ++ rest.1)
    else (kept, v.ran)

unfoldable pub expire_loop :
    {C : Type 0} → ℕ → ℕ → (C → ℕ → Visited C) → Node C → ℕ → Node C × List Entry
expire_loop zero ms visit w remaining = (w, [])
expire_loop (suc fuel) ms visit w remaining = elim (countr_zero w.bitmap) [
  | none ↦ (w, [])
  | some index ↦
      expire_slot ms visit (λ next. expire_loop fuel ms visit next remaining) w remaining index
]

-- A `Wheel<0>` executes a due slot from the head of its list to the end.
abbrev pub drain : List Entry → ℕ → Visited (List Entry)
drain entries remaining = record { slot = []; cleared = true; ran = entries }

-- A wheel of a higher level lets the slot's wheel expire, and drops it when it is empty. A null
-- slot under a bit that is set does not occur in a well-formed wheel.
abbrev pub visit_child :
    (level : ℕ)
    → (Wheel level → ℕ → Wheel level × List Entry)
    → Option (Wheel level)
    → ℕ
    → Visited (Option (Wheel level))
visit_child level expire none remaining = record { slot = none; cleared = false; ran = [] }
visit_child level expire (some child) remaining =
    let (child', ran) = expire child remaining in
    record {
      slot = if empty level child' then none else some child';
      cleared = empty level child';
      ran = ran;
    }

-- Each round of the loop clears a bit, so 65 rounds are enough for 64 bits.
unfoldable pub handle_expired_entries : (level : ℕ) → Wheel level → ℕ → Wheel level × List Entry
handle_expired_entries zero w remaining = expire_loop 65 (ms_per_slot 0) drain w remaining
handle_expired_entries (suc level) w remaining =
    expire_loop 65 (ms_per_slot (suc level)) (visit_child level (handle_expired_entries level)) w
      remaining

-- `none` is the failed assertion that the wheel is not empty.
unfoldable pub next_expiration_time : (level : ℕ) → Wheel level → Option ℕ
next_expiration_time zero w = countr_zero w.bitmap
next_expiration_time (suc level) w = elim (countr_zero w.bitmap) [
  | none ↦ none
  | some index ↦ elim (w.slots index) [
    | none ↦ none
    | some child ↦ elim (next_expiration_time level child) [
      | none ↦ none
      | some time ↦ some (index * ms_per_slot (suc level) + time)
    ]
  ]
]

-- The list of a `Wheel<0>` slot without the entry at an address; `none` is the walk past its end.
unfoldable pub unlink : ℕ → List Entry → Option (List Entry)
unlink address [] = none
unlink address (head ∷ next) =
    if head.address == address
    then some next
    else elim (unlink address next) [ none ↦ none | some rest ↦ some (head ∷ rest) ]

abbrev pub is_null : List Entry → Bool
is_null [] = true
is_null (_ ∷ _) = false

-- `Wheel<0>::remove_entry`
abbrev pub list_remove_entry : Wheel 0 → ℕ → ℕ → Option (Wheel 0)
list_remove_entry w address interval =
    let index : ℕ = get_index 0 interval in
    elim (unlink address (w.slots index)) [
      | none ↦ none
      | some rest ↦ some (record {
        bitmap = if is_null rest then clear_bit w.bitmap index else w.bitmap;
        slots = update w.slots index rest;
      })
    ]

-- `none` is the failed assertion that the slot holds a wheel, or a walk past the end of a list.
unfoldable pub remove_entry : (level : ℕ) → Wheel level → ℕ → ℕ → Option (Wheel level)
remove_entry zero w address interval = list_remove_entry w address interval
remove_entry (suc level) w address interval =
    let index : ℕ = get_index (suc level) interval in
    elim (w.slots index) [
      | none ↦ none
      | some child ↦ elim (remove_entry level child address interval) [
        | none ↦ none
        | some child' ↦ some (record {
          bitmap = if empty level child' then clear_bit w.bitmap index else w.bitmap;
          slots = update w.slots index (if empty level child' then none else some child');
        })
      ]
    ]

-- `for (i = start; i < 64; i += 1) slots_[i - start] = std::move(slots_[i]);`, where `n` rounds
-- are left from `i` on, and a slot that is moved from is null. `none` is the failed assertion that
-- the slot before is null.
unfoldable pub move_slots : {C : Type 0} → (C → Bool) → C → ℕ → ℕ → ℕ → (ℕ → C) → Option (ℕ → C)
move_slots is_null null start zero i slots = some slots
move_slots is_null null start (suc n) i slots =
    let rest =
      move_slots is_null null start n (suc i)
        (update (update slots i null) (i - start) (slots i)) in
    if is_null (slots (i - start)) then rest else none

-- `none` is a failed assertion.
abbrev pub rotate_node : {C : Type 0} → (C → Bool) → C → Node C → ℕ → Option (Node C)
rotate_node is_null null w start =
    if ltb start 64
    then elim (move_slots is_null null start (64 - start) start w.slots) [
      | none ↦ none
      | some slots ↦ some (record { bitmap = shift_right w.bitmap start; slots = slots })
    ]
    else none

unfoldable pub rotate : (level : ℕ) → Wheel level → ℕ → Option (Wheel level)
rotate zero w start = rotate_node is_null [] w start
rotate (suc level) w start = rotate_node is_none none w start

-- `Wheel(ChildWheelPtr &&child)`
unfoldable pub level_up : (level : ℕ) → Wheel level → Wheel (suc level)
level_up level me = record { bitmap = set_bit no_bits 0; slots = update (λ _. none) 0 (some me) }

unfoldable pub level_down : (level : ℕ) → Wheel (suc level) → Option (Wheel level)
level_down level w = w.slots 0

-- `bitmap_ == 1uz`
unfoldable pub can_level_down : (level : ℕ) → Wheel (suc level) → Bool
can_level_down level w = w.bitmap 0 && is_none (first_bit 63 1 w.bitmap)
