-- ===== src/Ring.antt =====
-- zedio/common/util/ring_buffer.hpp: `HeapRingBuffer`, a ring in a vector that has one slot more
-- than the capacity. A member that changes the buffer returns it beside its result.
pub mod Index
pub mod Inv
pub mod Contents
pub mod Refine
pub mod Resize
pub mod Stack
mod Tests
use zedlibs.Prelude.{
  ℕ, ◌+◌, ◌-◌, ◌%◌, ◌^◌, List, Option, none, some, Bool, true, false, ◌==◌, ltb, if◌then◌else◌,
  length, get_elem?, set, replicate,
}
use zedlibs.Prelude.Slices.{slice, copy_to}

-- `data_` is `items`. A moved-from element keeps its value: no member reads it again.
pub record HeapRingBuffer {ℓ} (A : Type ℓ) : Type ℓ where
  pub start : ℕ
  pub end : ℕ
  pub items : List A

-- `std::size_t` wraps at 64 bits.
abbrev pub size_t : ℕ → ℕ
size_t n = n % 2 ^ 64

module _ {ℓ} {A : Type ℓ} where
  -- `HeapRingBuffer(size)`, whose vector is filled with the default value
  unfoldable pub make : A → ℕ → HeapRingBuffer A
  make default size = record { start = 0; end = 0; items = replicate (size_t (size + 1)) default }

  unfoldable pub is_empty : HeapRingBuffer A → Bool
  is_empty b = b.start == b.end

  unfoldable pub is_fill : HeapRingBuffer A → Bool
  is_fill b = size_t (b.end + 1) % length b.items == b.start

  -- `data_[end_++] = val; end_ %= data_.size();`
  unfoldable pub store : HeapRingBuffer A → A → HeapRingBuffer A
  store b val = record b {
    end = size_t (b.end + 1) % length b.items;
    items = set b.items b.end val;
  }

  -- `start_++; start_ %= data_.size();`
  unfoldable pub advance : HeapRingBuffer A → HeapRingBuffer A
  advance b = record b { start = size_t (b.start + 1) % length b.items }

  -- `none` is the assertion that fails.
  unfoldable pub safety_push : HeapRingBuffer A → A → Option (HeapRingBuffer A)
  safety_push b val = if is_fill b then none else some (store b val)

  -- `none` is the assertion that fails, or a read out of range.
  unfoldable pub safety_pop : HeapRingBuffer A → Option (A × HeapRingBuffer A)
  safety_pop b =
      if is_empty b
      then none
      else elim (get_elem? b.items b.start) [ none ↦ none | some a ↦ some (a, advance b) ]

  unfoldable pub push : HeapRingBuffer A → A → HeapRingBuffer A × Bool
  push b val = if is_fill b then (b, false) else (store b val, true)

  -- `none` is `std::nullopt`, or a read out of range, which `in_bounds` rules out.
  unfoldable pub pop : HeapRingBuffer A → HeapRingBuffer A × Option A
  pop b = if is_empty b then (b, none) else (advance b, get_elem? b.items b.start)

  unfoldable pub size : HeapRingBuffer A → ℕ
  size b = size_t (size_t (b.end + 2 ^ 64 - b.start) + length b.items) % length b.items

  unfoldable pub capacity : HeapRingBuffer A → ℕ
  capacity b = size_t (length b.items + 2 ^ 64 - 1)

  -- The part of `resize` behind its tests: the vector `data` of the new size replaces `data_`.
  unfoldable pub move_into : A → HeapRingBuffer A → ℕ → HeapRingBuffer A
  move_into default b new_size =
      if ltb b.start b.end
      then record {
        start = 0;
        end = b.end - b.start;
        items = copy_to (slice b.items b.start b.end) (replicate new_size default) 0;
      }
      else if ltb b.end b.start
      then record {
        start = 0;
        end = size_t (b.end + (length b.items - b.start));
        items =
            copy_to (slice b.items 0 b.end)
              (copy_to (slice b.items b.start (length b.items)) (replicate new_size default) 0)
              (length b.items - b.start);
      }
      else record b { items = replicate new_size default }

  unfoldable pub resize : A → HeapRingBuffer A → ℕ → HeapRingBuffer A × Bool
  resize default b size_asked =
      let new_size : ℕ = size_t (size_asked + 1) in
      if new_size == length b.items
      then (b, true)
      else if ltb new_size (size b)
      then (b, false)
      else (move_into default b new_size, true)
