-- ===== src/Ring/Stack.antt =====
-- zedio/common/util/ring_buffer.hpp: `StackRingBuffer`, the ring in a `std::array` of `SIZE + 1`
-- slots. Its `push` and `take` test nothing.
use zedlibs.Prelude.{
  ℕ, ◌+◌, ◌-◌, ◌%◌, ◌^◌, ◌≡◌, sym, ap, ◌∙◌, List, [], ◌∷◌, ◌++◌, Option, some, Bool, true, false,
  arith, ◌==◌, length, length-set, get_elem?, set,
}
use zedlibs.Ring.{HeapRingBuffer, size_t, is_fill, is_empty, store, advance, size}
use zedlibs.Ring.Index.{size_straight}
use zedlibs.Ring.Inv.{IsValid, store-IsValid, advance-IsValid}
use zedlibs.Ring.Contents.{
  contents, contents-store, contents-advance, is_fill-contents, size-contents, capacity_lem,
}

pub record StackRingBuffer {ℓ} (A : Type ℓ) : Type ℓ where
  pub start : ℕ
  pub end : ℕ
  pub items : List A

module _ {ℓ} {A : Type ℓ} (SIZE : ℕ) where
  unfoldable pub stack_is_empty : StackRingBuffer A → Bool
  stack_is_empty b = b.start == b.end

  unfoldable pub stack_is_fill : StackRingBuffer A → Bool
  stack_is_fill b = size_t (b.end + 1) % (SIZE + 1) == b.start

  unfoldable pub stack_push : StackRingBuffer A → A → StackRingBuffer A
  stack_push b val = record b {
    end = size_t (b.end + 1) % (SIZE + 1);
    items = set b.items b.end val;
  }

  -- The element is `none` for a read out of range.
  unfoldable pub stack_take : StackRingBuffer A → Option A × StackRingBuffer A
  stack_take b = (get_elem? b.items b.start, record b { start = size_t (b.start + 1) % (SIZE + 1) })

  unfoldable pub stack_size : StackRingBuffer A → ℕ
  stack_size b = size_t (size_t (b.end + 2 ^ 64 - b.start) + (SIZE + 1)) % (SIZE + 1)

  unfoldable pub stack_capacity : StackRingBuffer A → ℕ
  stack_capacity b = SIZE

-- The same indices and slots, as the buffer whose number of slots is that of its vector.
abbrev pub as_heap {ℓ} : {A : Type ℓ} → StackRingBuffer A → HeapRingBuffer A
as_heap b = record { start = b.start; end = b.end; items = b.items }

pub record FitsStack {ℓ} {A : Type ℓ} (SIZE : ℕ) (b : StackRingBuffer A) : Type 0 where
  pub slots : length b.items ≡ SIZE + 1
  pub valid : IsValid (as_heap b)

module _ {ℓ} {A : Type ℓ} (SIZE : ℕ) (b : StackRingBuffer A) (v : FitsStack SIZE b) where
  stack_push-store : (a : A) → as_heap (stack_push SIZE b a) ≡ store (as_heap b) a
  unfolding store stack_push
  stack_push-store a =
      ap
        (λ (n : ℕ).
          as_heap (record b { end = size_t (b.end + 1) % n; items = set b.items b.end a }))
        (sym v.slots)

  stack_take-advance : as_heap (stack_take SIZE b).1 ≡ advance (as_heap b)
  unfolding advance stack_take
  stack_take-advance =
      ap (λ (n : ℕ). as_heap (record b { start = size_t (b.start + 1) % n })) (sym v.slots)

  stack_is_fill-is_fill : stack_is_fill SIZE b ≡ is_fill (as_heap b)
  unfolding is_fill stack_is_fill
  stack_is_fill-is_fill = ap (λ (n : ℕ). size_t (b.end + 1) % n == b.start) (sym v.slots)

  stack_size-size : stack_size SIZE b ≡ size (as_heap b)
  unfolding size stack_size
  stack_size-size = ap (λ (n : ℕ). size_t (size_t (b.end + 2 ^ 64 - b.start) + n) % n) (sym v.slots)

  -- A `push` into a `StackRingBuffer` that is not full appends the element to what it holds, and
  -- the buffer stays well formed.
  pub stack_push_refines :
      (a : A)
      → stack_is_fill SIZE b ≡ false
      → FitsStack SIZE (stack_push SIZE b a)
        × (contents (as_heap (stack_push SIZE b a)) ≡ contents (as_heap b) ++ a ∷ [])
  stack_push_refines a gap = (
    record {
      slots = unfold stack_push in length-set b.items b.end a ∙ v.slots;
      valid = rw (stack_push-store a) (store-IsValid a v.valid);
    },
    rw (stack_push-store a)
        (contents-store (as_heap b) v.valid a (sym stack_is_fill-is_fill ∙ gap)),
  )

  -- A `take` from a `StackRingBuffer` that is not empty returns the oldest element and leaves the
  -- others in order, and the buffer stays well formed.
  pub stack_take_refines :
      stack_is_empty SIZE b ≡ false
      → let (out, c) = stack_take SIZE b in
        FitsStack SIZE c
        × ((a : A) × (out ≡ some a) × (contents (as_heap b) ≡ a ∷ contents (as_heap c)))
  stack_take_refines full =
      let (a, here, split) =
        contents-advance (as_heap b) v.valid (unfold stack_is_empty is_empty in full) in
      (
        record {
          slots = unfold stack_take in v.slots;
          valid = rw stack_take-advance (advance-IsValid v.valid);
        },
        (a, unfold stack_take in here, rw stack_take-advance split),
      )

  -- `push` tests nothing: into a full `StackRingBuffer` it moves `end_` onto `start_`, and the
  -- buffer reports that it is empty and of size 0, so all `SIZE` elements are lost.
  pub stack_push_overflows :
      (a : A)
      → stack_is_fill SIZE b ≡ true
      → (stack_size SIZE b ≡ SIZE)
        × (stack_is_empty SIZE (stack_push SIZE b a) ≡ true)
        × (stack_size SIZE (stack_push SIZE b a) ≡ 0)
  stack_push_overflows a full = (
    stack_size-size ∙ size-full,
    unfold stack_push stack_is_empty stack_is_fill in ground arith,
    unfold stack_push stack_is_fill stack_size in
        ground
          (arith, size_straight (SIZE + 1) (omega (arith, v.slots, v.valid.small)) b.start b.start),
  )
    where
      size-full : size (as_heap b) ≡ SIZE
      size-full = ground (
        arith,
        is_fill-contents (as_heap b) v.valid,
        size-contents (as_heap b) v.valid,
        capacity_lem (as_heap b) v.valid,
        stack_is_fill-is_fill,
        v.slots,
      )
