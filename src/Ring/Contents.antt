-- ===== src/Ring/Contents.antt =====
-- What a `HeapRingBuffer` holds, oldest first, and what its two index moves do to it.
use zedlibs.Prelude.{
  ℕ, suc, ◌+◌, ◌-◌, ◌%◌, ◌^◌, ◌≤◌, ◌<◌, ◌≡◌, sym, ap, ap₂, ◌∙◌, ◌⊎◌, List, [], ◌∷◌, ◌++◌, some,
  false, arith, length, get_elem?, set, ◌==◌, leb, length-set, length-append, inl, inr,
  if◌then◌else◌, append_assoc, append-nil, dec_lt,
}
use zedlibs.Prelude.Slices.{
  slice, slice_empty, length-slice, slice-set_below, slice-set_end, slice_first,
}
use zedlibs.Ring.{HeapRingBuffer, make, is_fill, is_empty, store, advance, size, capacity}
use zedlibs.Ring.Inv.{IsValid}
use zedlibs.Ring.Index.{next_inside, next_wraps, size_straight, size_round}

-- From `start_` up to `end_`, round the end of the vector where `end_` stands below.
unfoldable pub contents {ℓ} : {A : Type ℓ} → HeapRingBuffer A → List A
contents b =
    if leb b.start b.end
    then slice b.items b.start b.end
    else slice b.items b.start (length b.items) ++ slice b.items 0 b.end

module _ {ℓ} {A : Type ℓ} (b : HeapRingBuffer A) where
  pub contents_straight : b.start ≤ b.end → contents b ≡ slice b.items b.start b.end
  unfolding contents
  contents_straight h = ground arith

  pub contents_round :
      b.end < b.start → contents b ≡ slice b.items b.start (length b.items) ++ slice b.items 0 b.end
  unfolding contents
  contents_round h = ground arith

module _ {ℓ} {A : Type ℓ} (b : HeapRingBuffer A) (v : IsValid b) where
  -- The number of elements, by the order of the two indices.
  pub size_cases :
      ((b.start ≤ b.end) × (size b ≡ b.end - b.start))
      ⊎ ((b.end < b.start) × (size b ≡ length b.items - b.start + b.end))
  unfolding size
  size_cases = elim (dec_lt b.end b.start) [
    | yes h ↦ inr (h, size_round (length b.items) v.small b.start b.end h v.start_in)
    | no h ↦
        inl
          (omega arith, size_straight (length b.items) v.small b.start b.end (omega arith) v.end_in)
  ]

  -- Where the index moves: to the next slot, or from the last to the first.
  pub next_cases :
      (i : ℕ)
      → i < length b.items
      → ((i + 1 < length b.items) × ((i + 1) % 2 ^ 64 % length b.items ≡ i + 1))
        ⊎ ((i + 1 ≡ length b.items) × ((i + 1) % 2 ^ 64 % length b.items ≡ 0))
  next_cases i h = elim (dec_lt (i + 1) (length b.items)) [
    | yes p ↦ inl (p, next_inside (length b.items) v.small i p)
    | no p ↦ inr (omega arith, next_wraps (length b.items) v.small i (omega arith))
  ]

  -- `size()` counts what the buffer holds.
  pub size-contents : size b ≡ length (contents b)
  size-contents = elim size_cases [
    | inl (h, e) ↦
        rw (e, contents_straight b h) (omega (arith, v.end_in, length-slice b.items b.start b.end))
    | inr (h, e) ↦
        rw (e, contents_round b h)
          (omega (
            arith,
            v.end_in,
            v.start_in,
            length-append (slice b.items b.start (length b.items)) (slice b.items 0 b.end),
            length-slice b.items b.start (length b.items),
            length-slice b.items 0 b.end,
          ))
  ]

  pub capacity_lem : capacity b ≡ length b.items - 1
  unfolding capacity
  capacity_lem = omega arith

  pub is_empty-contents : is_empty b ≡ (length (contents b) == 0)
  unfolding is_empty
  is_empty-contents = rw (← size-contents) (ground (arith, size_cases))

  pub is_fill-contents : is_fill b ≡ (length (contents b) == capacity b)
  unfolding is_fill
  is_fill-contents =
      rw (← size-contents, capacity_lem) (ground (arith, size_cases, next_cases b.end))

  module _ (a : A) where
    abbrev stored : ℕ → HeapRingBuffer A
    stored k = record b { end = k; items = set b.items b.end a }

    store_at : (k : ℕ) → (b.end + 1) % 2 ^ 64 % length b.items ≡ k → store b a ≡ stored k
    unfolding store
    store_at k e = ap stored e

    stored_straight :
        b.start ≤ b.end → contents (stored (suc b.end)) ≡ slice b.items b.start b.end ++ a ∷ []
    stored_straight h =
        contents_straight (stored (suc b.end)) (omega arith)
        ∙ slice-set_end b.items b.start b.end a h v.end_in

    stored_last :
        b.start ≤ b.end
        → 0 < b.start
        → suc b.end ≡ length b.items
        → contents (stored 0) ≡ slice b.items b.start b.end ++ a ∷ []
    stored_last h pos last =
        contents_round (stored 0) pos
        ∙ ap₂ ◌++◌
            (ap (slice (set b.items b.end a) b.start) (omega (arith, length-set b.items b.end a))
              ∙ slice-set_end b.items b.start b.end a h v.end_in)
            (slice_empty (set b.items b.end a) 0 0 (omega arith))
        ∙ append-nil (slice b.items b.start b.end ++ a ∷ [])

    stored_round :
        suc b.end < b.start
        → contents (stored (suc b.end))
          ≡ (slice b.items b.start (length b.items) ++ slice b.items 0 b.end) ++ a ∷ []
    stored_round h =
        contents_round (stored (suc b.end)) h
        ∙ ap₂ ◌++◌
            (ap (slice (set b.items b.end a) b.start) (length-set b.items b.end a)
              ∙ slice-set_below b.items b.start (length b.items) b.end a (omega arith))
            (slice-set_end b.items 0 b.end a (omega arith) v.end_in)
        ∙ sym
            (append_assoc (slice b.items b.start (length b.items)) (slice b.items 0 b.end) (a ∷ []))

    -- A store into a buffer that is not full appends the element.
    pub contents-store : is_fill b ≡ false → contents (store b a) ≡ contents b ++ a ∷ []
    unfolding is_fill
    contents-store gap = elim size_cases [
      | inl (h, _) ↦ elim (next_cases b.end v.end_in) [
        | inl (inside, e) ↦
            rw (store_at (suc b.end) (omega (arith, e)), contents_straight b h) (stored_straight h)
        | inr (last, e) ↦
            rw (store_at 0 e, contents_straight b h)
              (stored_last h (ground (arith, e)) (omega arith))
      ]
      | inr (h, _) ↦ elim (next_cases b.end v.end_in) [
        | inl (inside, e) ↦
            rw (store_at (suc b.end) (omega (arith, e)), contents_round b h)
              (stored_round (ground (arith, e)))
        | inr (last, e) ↦ absurd (omega (arith, v.start_in))
      ]
    ]

  abbrev advanced : ℕ → HeapRingBuffer A
  advanced k = record b { start = k }

  advance_at : (k : ℕ) → (b.start + 1) % 2 ^ 64 % length b.items ≡ k → advance b ≡ advanced k
  unfolding advance
  advance_at k e = ap advanced e

  advanced_round :
      b.end < b.start
      → suc b.start < length b.items
      → contents (advanced (suc b.start))
        ≡ slice b.items (suc b.start) (length b.items) ++ slice b.items 0 b.end
  advanced_round h inside = contents_round (advanced (suc b.start)) (omega arith)

  advanced_last :
      suc b.start ≡ length b.items
      → contents (advanced 0)
        ≡ slice b.items (suc b.start) (length b.items) ++ slice b.items 0 b.end
  advanced_last last =
      contents_straight (advanced 0) (omega arith)
      ∙ ap (λ l. l ++ slice b.items 0 b.end)
          (sym (slice_empty b.items (suc b.start) (length b.items) (omega arith)))

  after_straight : b.start < b.end → contents (advance b) ≡ slice b.items (suc b.start) b.end
  after_straight h =
      ap contents
        (advance_at (suc b.start) (omega (arith, next_cases b.start v.start_in, v.end_in)))
      ∙ contents_straight (advanced (suc b.start)) h

  after_round :
      b.end < b.start
      → contents (advance b) ≡ slice b.items (suc b.start) (length b.items) ++ slice b.items 0 b.end
  after_round h = elim (next_cases b.start v.start_in) [
    | inl (inside, e) ↦
        ap contents (advance_at (suc b.start) (omega (arith, e))) ∙ advanced_round h (omega arith)
    | inr (last, e) ↦ ap contents (advance_at 0 e) ∙ advanced_last (omega arith)
  ]

  -- What a buffer that is not empty holds: the element at `start_`, then what `advance` leaves.
  pub contents-advance :
      is_empty b ≡ false
      → (a : A) × (get_elem? b.items b.start ≡ some a) × (contents b ≡ a ∷ contents (advance b))
  unfolding is_empty
  contents-advance full = elim size_cases [
    | inl (h, _) ↦
        let (a, here, split) =
          slice_first b.items b.start b.end (ground arith) (omega (arith, v.end_in)) in
        (a, here, contents_straight b h ∙ split ∙ ap (◌∷◌ a) (sym (after_straight (ground arith))))
    | inr (h, _) ↦
        let (a, here, split) =
          slice_first b.items b.start (length b.items) v.start_in (omega arith) in
        (
          a,
          here,
          contents_round b h
              ∙ ap (λ l. l ++ slice b.items 0 b.end) split
              ∙ ap (◌∷◌ a) (sym (after_round h)),
        )
  ]

module _ {ℓ} {A : Type ℓ} where
  -- A new buffer holds nothing.
  pub contents-make : (default : A) (n : ℕ) → contents (make default n) ≡ []
  unfolding make
  contents-make default n =
      contents_straight (make default n) (omega arith)
      ∙ slice_empty (make default n).items 0 0 (omega arith)
