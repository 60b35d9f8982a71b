-- ===== src/Ring/Refine.antt =====
-- A valid `HeapRingBuffer` behaves as a queue of at most `capacity()` elements.
use zedlibs.Prelude.{
  ℕ, ◌≡◌, refl, List, [], ◌∷◌, Option, Bool, arith, eq-nil_of_length, inl, inr, Bool-cases,
}
use zedlibs.BoundedQueue
use zedlibs.Ring.{HeapRingBuffer, is_empty, capacity, push, pop}
use zedlibs.Ring.Inv.{IsValid, push-IsValid, pop-IsValid, capacity-push, capacity-pop}
use zedlibs.Ring.Contents.{
  contents, is_empty-contents, is_fill-contents, contents-store, contents-advance,
}

pub data Op {ℓ} (A : Type ℓ) : Type ℓ where
  put : A → Op A
  get : Op A

pub data Reply {ℓ} (A : Type ℓ) : Type ℓ where
  pushed : Bool → Reply A
  popped : Option A → Reply A

module _ {ℓ} {A : Type ℓ} where
  -- What a client of the buffer sees of a sequence of calls.
  unfoldable pub run : HeapRingBuffer A → List (Op A) → List (Reply A)
  run b [] = []
  run b (put a ∷ ops) = let (b', done) = push b a in pushed done ∷ run b' ops
  run b (get ∷ ops) = let (b', out) = pop b in popped out ∷ run b' ops

  unfoldable pub run_queue : ℕ → List A → List (Op A) → List (Reply A)
  run_queue cap q [] = []
  run_queue cap q (put a ∷ ops) =
      let (q', done) = BoundedQueue.push cap q a in pushed done ∷ run_queue cap q' ops
  run_queue cap q (get ∷ ops) =
      let (q', out) = BoundedQueue.pop q in popped out ∷ run_queue cap q' ops

module _ {ℓ} {A : Type ℓ} where
  -- On a valid buffer `push` succeeds unless the buffer holds `capacity()` elements, and then
  -- appends its argument to what the buffer holds; a refused `push` changes nothing.
  pub push_refines :
      (b : HeapRingBuffer A) (a : A)
      → IsValid b
      → let (b', done) = push b a in
        (contents b', done) ≡ BoundedQueue.push (capacity b) (contents b) a
  unfolding push BoundedQueue.push
  push_refines b a v = ground (arith, is_fill-contents b v, contents-store b v a)

  -- On a valid buffer `pop` returns the oldest element and leaves the others in order, and returns
  -- `std::nullopt` exactly when the buffer is empty.
  pub pop_refines :
      (b : HeapRingBuffer A)
      → IsValid b
      → let (b', out) = pop b in (contents b', out) ≡ BoundedQueue.pop (contents b)
  unfolding pop BoundedQueue.pop
  pop_refines b v = elim (Bool-cases (is_empty b)) [
    | inl e ↦ rw (e, eq-nil_of_length (contents b) (ground (arith, is_empty-contents b v)))
    | inr e ↦ let (a, here, split) = contents-advance b v e in rw (e, here, split)
  ]

  -- No sequence of `push` and `pop` calls tells a valid buffer from the bounded queue.
  pub run_refines :
      (b : HeapRingBuffer A) (ops : List (Op A))
      → IsValid b
      → run b ops ≡ run_queue (capacity b) (contents b) ops
  unfolding run run_queue
  run_refines b [] v = refl
  run_refines b (put a ∷ ops) v =
      rw (run_refines (push b a).0 ops (push-IsValid a v), capacity-push b a, ← push_refines b a v)
  run_refines b (get ∷ ops) v =
      rw (run_refines (pop b).0 ops (pop-IsValid v), capacity-pop b, ← pop_refines b v)
