-- ===== src/Ring/Inv.antt =====
-- The representation invariant of `HeapRingBuffer`: indices in range, and no wrap of `std::size_t`.
use zedlibs.Prelude.{ℕ, ◌+◌, ◌^◌, ◌≤◌, ◌<◌, ◌≡◌, arith, length, length-set, length-replicate}
use zedlibs.Ring.{HeapRingBuffer, size_t, make, store, advance, push, pop, capacity}

pub record IsValid {ℓ} {A : Type ℓ} (b : HeapRingBuffer A) : Type 0 where
  pub start_in : b.start < length b.items
  pub end_in : b.end < length b.items
  pub small : length b.items ≤ 2 ^ 63

module _ {ℓ} {A : Type ℓ} where
  pub make-IsValid : (default : A) (n : ℕ) → n < 2 ^ 63 → IsValid (make default n)
  unfolding make
  make-IsValid default n h =
      let e = length-replicate (size_t (n + 1)) default in
      record { start_in = omega arith; end_in = omega arith; small = omega arith }

  pub store-IsValid : {b : HeapRingBuffer A} (a : A) → IsValid b → IsValid (store b a)
  unfolding store
  store-IsValid {b} a v = ground (arith, length-set b.items b.end a)

  pub advance-IsValid : {b : HeapRingBuffer A} → IsValid b → IsValid (advance b)
  unfolding advance
  advance-IsValid v = ground arith

  pub push-IsValid : {b : HeapRingBuffer A} (a : A) → IsValid b → IsValid (push b a).0
  unfolding push
  push-IsValid {b} a v = ground (arith, store-IsValid {b = b} a v)

  pub pop-IsValid : {b : HeapRingBuffer A} → IsValid b → IsValid (pop b).0
  unfolding pop
  pop-IsValid {b} v = ground (arith, advance-IsValid {b = b} v)

  pub capacity-store : (b : HeapRingBuffer A) (a : A) → capacity (store b a) ≡ capacity b
  unfolding capacity store
  capacity-store b a = ground (arith, length-set b.items b.end a)

  pub capacity-advance : (b : HeapRingBuffer A) → capacity (advance b) ≡ capacity b
  unfolding capacity advance
  capacity-advance b = ground arith

  pub capacity-push : (b : HeapRingBuffer A) (a : A) → capacity (push b a).0 ≡ capacity b
  unfolding push
  capacity-push b a = ground (arith, capacity-store b a)

  pub capacity-pop : (b : HeapRingBuffer A) → capacity (pop b).0 ≡ capacity b
  unfolding pop
  capacity-pop b = ground (arith, capacity-advance b)
