-- ===== src/Queue/Batch.antt =====
-- `push_batch` and `remaining_slots`: a batch that fits waits behind the other tasks.
use zedlibs.Prelude.{
  ℕ, ◌+◌, ◌-◌, ◌≤◌, ◌<◌, ◌≡◌, refl, sym, ap, ap₂, ◌∙◌, List, [], ◌∷◌, ◌++◌, append-nil,
  append_assoc, length, length-append, some, true, false, not, ◌&&◌, ltb, leb, arith,
}
use zedlibs.Queue.Local.{LocalQueue, minus32, put_all, capacity, push_batch, remaining_slots}
use zedlibs.Queue.Words.{unpack_steal, unpack_real, minus32-span, length-read}
use zedlibs.Queue.Owner.{steal_of, real_of, waiting, marked, IsValid}
use zedlibs.Queue.Push.{m, n, put, put-IsValid, put-waiting, put-marked}

module _ {ℓ} {A : Type ℓ} where
  -- The queue with other slots and another tail.
  abbrev pub with_slots : LocalQueue A → (ℕ → A) × ℕ → LocalQueue A
  with_slots q out = record q { buffer = out.0; tail = out.1 }

  -- The tasks that are in the queue, with those that a thief has marked.
  abbrev pub held : LocalQueue A → ℕ
  held q = length (marked q) + length (waiting q)

  pub record Batched (q : LocalQueue A) (tasks : List A) (q' : LocalQueue A) : Type ℓ where
    pub good : IsValid q'
    pub order : waiting q' ≡ waiting q ++ tasks
    pub mark : marked q' ≡ marked q

  pub span_held : (q : LocalQueue A) → IsValid q → minus32 q.tail (steal_of q) ≡ held q
  span_held q good =
      minus32-span q.tail (real_of q) (steal_of q) good.tail_small (unpack_real q.head)
        (unpack_steal q.head) good.room
      ∙ sym (
          ap₂ (λ i j. i + j) (length-read q.buffer (steal_of q) (minus32 (real_of q) (steal_of q)))
            (length-read q.buffer (real_of q) (minus32 q.tail (real_of q))))

  span_parts :
      (q : LocalQueue A) (task : A) (good : IsValid q) → held q ≡ m q task good + n q task good
  span_parts q task good =
      ap₂ (λ i j. i + j) (length-read q.buffer (steal_of q) (minus32 (real_of q) (steal_of q)))
        (length-read q.buffer (real_of q) (minus32 q.tail (real_of q)))

  held-put :
      (q : LocalQueue A) (task : A) (good : IsValid q)
      → m q task good + n q task good < capacity
      → held (put q task good) ≡ held q + 1
  held-put q task good free =
      ap₂ (λ i j. i + j) (ap length (put-marked q task good free))
        (ap length (put-waiting q task good free) ∙ length-append (waiting q) (task ∷ []))
      ∙ omega arith

  put_all-Batched :
      (tasks : List A) (q : LocalQueue A)
      → IsValid q
      → held q + length tasks ≤ capacity
      → Batched q tasks (with_slots q (put_all tasks q.buffer q.tail))
  unfolding put_all
  put_all-Batched [] q good fits = record {
    good = good;
    order = sym (append-nil (waiting q));
    mark = refl;
  }
  put_all-Batched (task ∷ tasks) q good fits =
      let free : m q task good + n q task good < capacity =
        omega (arith, span_parts q task good, fits) in
      let one = put-IsValid q task good free in
      let order = put-waiting q task good free in
      let mark = put-marked q task good free in
      let rest =
        put_all-Batched tasks (put q task good) one
          (omega (arith, held-put q task good free, fits)) in
      record {
        good = rest.good;
        order =
            rest.order ∙ ap (λ l. l ++ tasks) order ∙ append_assoc (waiting q) (task ∷ []) tasks;
        mark = rest.mark ∙ mark;
      }

  -- `push_batch` of a valid queue, with as many tasks as it is told, at least one, and all of which
  -- fit beside those in the buffer, marked ones included: no assertion fails and nothing is thrown. The
  -- tasks wait behind those that waited, in order, the marked tasks stay, and the queue stays valid.
  pub push_batch-Batched :
      (q : LocalQueue A) (tasks : List A) (len : ℕ)
      → IsValid q
      → length tasks ≡ len
      → 0 < len
      → held q + len ≤ capacity
      → (q' : LocalQueue A) × (push_batch q tasks len ≡ some q') × Batched q tasks q'
  unfolding push_batch
  push_batch-Batched q tasks len good e some_task fits =
      let asserted : not (ltb 0 len && leb len capacity) ≡ false =
        ground (arith, some_task, fits) in
      let room : ltb (capacity - len) (minus32 q.tail (steal_of q)) ≡ false =
        ground (arith, span_held q good, fits) in
      (
        with_slots q (put_all tasks q.buffer q.tail),
        rw (asserted, room) refl,
        put_all-Batched tasks q good (omega (arith, e, fits)),
      )

  -- The assertion of `remaining_slots` holds in a valid queue; what it returns is the number of tasks
  -- that fit beside those in the buffer, marked ones included.
  pub remaining_slots-held :
      (q : LocalQueue A) → IsValid q → remaining_slots q ≡ some (capacity - held q)
  unfolding remaining_slots
  remaining_slots-held q good =
      let across = span_held q good in
      let test : leb (minus32 q.tail (steal_of q)) capacity ≡ true =
        ground (arith, good.room, across, held_small q good) in
      rw test (ap (λ k. some (capacity - k)) across)
    where
      held_small : (q : LocalQueue A) → IsValid q → held q ≤ capacity
      held_small q good = omega (
        arith,
        good.room,
        length-read q.buffer (steal_of q) (minus32 (real_of q) (steal_of q)),
        length-read q.buffer (real_of q) (minus32 q.tail (real_of q)),
      )
