-- ===== src/Ring/Resize.antt =====
-- `HeapRingBuffer::resize`: which sizes it accepts, and what the buffer holds afterwards.
use zedlibs.Prelude.{
  ℕ, ◌+◌, ◌-◌, ◌^◌, ◌≤◌, ◌<◌, ◌≡◌, ◌≢◌, refl, sym, ap, ap₂, subst, ◌∙◌, List, ◌++◌, true, false,
  arith, length, replicate, length-replicate, inl, inr, ℕ_discrete,
}
use zedlibs.Prelude.Slices.{
  slice, copy_to, slice-copy_to, length-copy_to, length-slice, slice_empty,
}
use zedlibs.Ring.{HeapRingBuffer, size_t, move_into, resize, size, capacity}
use zedlibs.Ring.Index.{size_outside}
use zedlibs.Ring.Inv.{IsValid}
use zedlibs.Ring.Contents.{contents, contents_straight, contents_round, size_cases, capacity_lem}

module _ {ℓ} {A : Type ℓ} (default : A) where
  -- Two copies one after the other fill the front of the new vector.
  slice-two_copies :
      (xs ys : List A) (m : ℕ)
      → length xs + length ys ≤ m
      → slice
          (copy_to ys (copy_to xs (replicate m default) 0) (length xs))
          0
          (length xs + length ys)
        ≡ xs ++ ys
  slice-two_copies xs ys m h =
      slice-copy_to ys (copy_to xs (replicate m default) 0) 0 (length xs) (omega arith)
        (omega (arith, length-copy_to xs (replicate m default) 0, length-replicate m default))
      ∙ ap (λ l. l ++ ys)
          (ap (slice (copy_to xs (replicate m default) 0) 0) {x = length xs} {y = 0 + length xs}
              (omega arith)
            ∙ slice-copy_to xs (replicate m default) 0 0 (omega arith)
                (omega (arith, length-replicate m default))
            ∙ ap (λ l. l ++ xs) (slice_empty (replicate m default) 0 0 (omega arith)))

module _ {ℓ} {A : Type ℓ} where
  -- `c` holds what `b` holds, at the front of a vector of `m` slots.
  record IsMoved (b c : HeapRingBuffer A) (m : ℕ) : Type ℓ where
    at_front : c.start ≡ 0
    past_last : c.end ≡ size b
    slots : length c.items ≡ m
    same : slice c.items 0 (size b) ≡ contents b

module _ {ℓ} {A : Type ℓ} (default : A) (b : HeapRingBuffer A) (m : ℕ) where
  one_copy : HeapRingBuffer A
  one_copy = record {
    start = 0;
    end = b.end - b.start;
    items = copy_to (slice b.items b.start b.end) (replicate m default) 0;
  }

  two_copies : HeapRingBuffer A
  two_copies = record {
    start = 0;
    end = size_t (b.end + (length b.items - b.start));
    items =
        copy_to (slice b.items 0 b.end)
          (copy_to (slice b.items b.start (length b.items)) (replicate m default) 0)
          (length b.items - b.start);
  }

  move_into-one_copy : b.start < b.end → move_into default b m ≡ one_copy
  unfolding move_into one_copy
  move_into-one_copy h = ground arith

  move_into-two_copies : b.end < b.start → move_into default b m ≡ two_copies
  unfolding move_into two_copies
  move_into-two_copies h = ground arith

  one_copy-IsMoved :
      IsValid b → b.start < b.end → size b ≤ m → size b ≡ b.end - b.start → IsMoved b one_copy m
  unfolding one_copy
  one_copy-IsMoved v p h e =
      let xs = slice b.items b.start b.end in
      let n = length-slice b.items b.start b.end (omega (arith, v.end_in)) in
      record {
        at_front = refl;
        past_last = sym e;
        slots = length-copy_to xs (replicate m default) 0 ∙ length-replicate m default;
        same =
            ap (slice (copy_to xs (replicate m default) 0) 0) {x = size b} {y = 0 + length xs}
              (omega (arith, n))
            ∙ slice-copy_to xs (replicate m default) 0 0 (omega arith)
                (omega (arith, n, length-replicate m default))
            ∙ ap (λ l. l ++ xs) (slice_empty (replicate m default) 0 0 (omega arith))
            ∙ sym (contents_straight b (omega arith));
      }

  two_copies-IsMoved :
      IsValid b
      → b.end < b.start
      → size b ≤ m
      → size b ≡ length b.items - b.start + b.end
      → IsMoved b two_copies m
  unfolding two_copies
  two_copies-IsMoved v p h e =
      let xs = slice b.items b.start (length b.items) in
      let ys = slice b.items 0 b.end in
      let nx = length-slice b.items b.start (length b.items) (omega arith) in
      let ny = length-slice b.items 0 b.end (omega (arith, v.end_in)) in
      record {
        at_front = refl;
        past_last = omega (arith, v.small, v.end_in, v.start_in);
        slots =
            length-copy_to ys (copy_to xs (replicate m default) 0) (length b.items - b.start)
            ∙ length-copy_to xs (replicate m default) 0
            ∙ length-replicate m default;
        same =
            ap₂ (λ k j. slice (copy_to ys (copy_to xs (replicate m default) 0) k) 0 j)
              {x = length b.items - b.start} {y = length xs} {u = size b}
              {v = length xs + length ys} (sym nx) (omega (arith, nx, ny))
            ∙ slice-two_copies default xs ys m (omega (arith, nx, ny))
            ∙ sym (contents_round b p);
      }

  move_into-IsMoved : IsValid b → b.start ≢ b.end → size b ≤ m → IsMoved b (move_into default b m) m
  move_into-IsMoved v ne h = elim (size_cases b v) [
    | inl (p, e) ↦
        subst (λ c. IsMoved b c m) (sym (move_into-one_copy (omega arith)))
          (one_copy-IsMoved v (omega arith) h e)
    | inr (p, e) ↦
        subst (λ c. IsMoved b c m) (sym (move_into-two_copies p)) (two_copies-IsMoved v p h e)
  ]

  -- A moved buffer that fits is valid and holds the same elements.
  IsMoved-good :
      {c : HeapRingBuffer A}
      → IsMoved b c m
      → size b < m
      → m ≤ 2 ^ 63
      → IsValid c × (contents c ≡ contents b) × (capacity c ≡ m - 1)
  IsMoved-good {c} moved h small =
      let open_end = moved.past_last in
      let valid : IsValid c = record {
        start_in = omega (arith, moved.at_front, moved.slots);
        end_in = omega (arith, moved.past_last, moved.slots);
        small = omega (arith, moved.slots);
      } in
      (
        valid,
        contents_straight c (omega (arith, moved.at_front))
            ∙ ap₂ (slice c.items) moved.at_front moved.past_last
            ∙ moved.same,
        capacity_lem c valid ∙ omega (arith, moved.slots),
      )

  none_counted : {c : HeapRingBuffer A} → IsMoved b c m → size b ≡ m → m < 2 ^ 63 → size c ≡ 0
  unfolding size
  none_counted {c} moved e small =
      size_outside (length c.items) (omega (arith, moved.slots)) c.start c.end moved.at_front
        (omega (arith, moved.past_last, moved.slots)) (omega (arith, moved.slots))

  resize_moves :
      IsValid b
      → m < 2 ^ 63
      → m + 1 ≢ length b.items
      → size b ≤ m + 1
      → resize default b m ≡ (move_into default b (m + 1), true)
  unfolding resize
  resize_moves v small other fits = ground (arith, size_small)
    where
      size_small : size_t (m + 1) ≡ m + 1
      size_small = omega arith

  resize_same : m + 1 ≡ length b.items → length b.items ≤ 2 ^ 63 → resize default b m ≡ (b, true)
  unfolding resize
  resize_same e small = ground arith

module _ {ℓ} {A : Type ℓ} (default : A) (b : HeapRingBuffer A) (n : ℕ) where
  -- Asked for a capacity that can hold the elements of a buffer that is not empty, `resize`
  -- returns true, and the buffer is valid, holds the same elements in the same order and has that capacity.
  pub resize_keeps :
      IsValid b
      → b.start ≢ b.end
      → n < 2 ^ 63
      → size b ≤ n
      → let (c, done) = resize default b n in
        (done ≡ true) × IsValid c × (contents c ≡ contents b) × (capacity c ≡ n)
  resize_keeps v ne small fits = elim (ℕ_discrete (n + 1) (length b.items)) [
    | yes e ↦
        rw (resize_same default b n e v.small) (refl, v, refl, omega (arith, capacity_lem b v))
    | no ne' ↦
        let (valid, same, cap) =
          IsMoved-good default b (n + 1) (move_into-IsMoved default b (n + 1) v ne (omega arith))
            (omega arith) (omega arith) in
        rw (resize_moves default b n v small ne' (omega arith))
          (refl, valid, same, omega (arith, cap))
  ]

  -- Asked for a capacity more than one below the number of elements, `resize` returns false and changes nothing.
  pub resize_refuses : IsValid b → n + 1 < size b → resize default b n ≡ (b, false)
  unfolding resize
  resize_refuses v h = ground (arith, size_cases b v)

  -- Asked for a capacity one below the number of elements, `resize` returns true on a buffer that is not full: it leaves `end_` outside the vector, and the buffer reports that it holds nothing.
  pub resize_one_short :
      IsValid b
      → size b ≡ n + 1
      → n + 1 ≢ length b.items
      → let (c, done) = resize default b n in
        (done ≡ true) × (c.end ≡ length c.items) × (size c ≡ 0)
  resize_one_short v e other =
      let moved =
        move_into-IsMoved default b (n + 1) v (ground (arith, size_cases b v)) (omega arith) in
      rw (resize_moves default b n v (omega (arith, size_cases b v)) other (omega arith)) (
        refl,
        omega (arith, moved.past_last, moved.slots),
        none_counted default b (n + 1) moved e (omega (arith, v.small, v.end_in, size_cases b v)),
      )

  -- An empty buffer accepts every capacity, and one that does not exceed `start_` leaves both indices outside the vector.
  pub resize_empty_breaks :
      IsValid b
      → b.start ≡ b.end
      → n < b.start
      → let (c, done) = resize default b n in
        (done ≡ true) × (length c.items ≤ c.start) × (length c.items ≤ c.end)
  unfolding resize move_into
  resize_empty_breaks v e h = ground (arith, size_cases b v, length-replicate (n + 1) default)
