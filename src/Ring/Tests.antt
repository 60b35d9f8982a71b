-- ===== src/Ring/Tests.antt =====
-- Inputs that meet the hypotheses of the ring buffers' theorems, and runs of their functions.
use zedlibs.Prelude.{ℕ, ◌≡◌, refl, List, [], ◌∷◌, none, some, true, false, arith}
use zedlibs.Prelude.Slices.{slice, copy_to}
use zedlibs.Ring.{
  HeapRingBuffer, is_fill, is_empty, store, advance, push, pop, size, capacity, resize, move_into,
}
use zedlibs.Ring.Inv.{IsValid}
use zedlibs.Ring.Contents.{contents}
use zedlibs.Ring.Refine.{Op, put, get, pushed, popped, run, run_queue, run_refines}
use zedlibs.Ring.Resize.{resize_refuses}
use zedlibs.Ring.Stack.{StackRingBuffer, FitsStack}

-- Room for three: 8, then 9, round the end of the vector.
abbrev wrapped : HeapRingBuffer ℕ
wrapped = record { start = 3; end = 1; items = 9 ∷ 0 ∷ 0 ∷ 8 ∷ [] }

wrapped-IsValid : IsValid wrapped
wrapped-IsValid = omega arith

contents-wrapped : contents wrapped ≡ 8 ∷ 9 ∷ []
unfolding contents slice
contents-wrapped = refl

abbrev script : List (Op ℕ)
script = put 1 ∷ put 2 ∷ get ∷ get ∷ get ∷ get ∷ []

run-wrapped :
    run wrapped script
    ≡ pushed true
      ∷ pushed false
      ∷ popped (some 8)
      ∷ popped (some 9)
      ∷ popped (some 1)
      ∷ popped none
      ∷ []
unfolding run push pop is_fill is_empty store advance
run-wrapped = refl

run_refines_example : run wrapped script ≡ run_queue (capacity wrapped) (contents wrapped) script
run_refines_example = run_refines wrapped script wrapped-IsValid

size-wrapped : size wrapped ≡ 2
unfolding size
size-wrapped = refl

resized-wrapped : resize 0 wrapped 2 ≡ (record { start = 0; end = 2; items = 8 ∷ 9 ∷ 0 ∷ [] }, true)
unfolding resize move_into size slice copy_to
resized-wrapped = refl

resize_refuses_example : resize 0 wrapped 0 ≡ (wrapped, false)
resize_refuses_example = resize_refuses 0 wrapped 0 wrapped-IsValid (omega (arith, size-wrapped))

abbrev moved_on : HeapRingBuffer ℕ
moved_on = record { start = 3; end = 3; items = 0 ∷ 0 ∷ 0 ∷ 0 ∷ [] }

-- The same two elements in an array for three.
abbrev on_stack : StackRingBuffer ℕ
on_stack = record { start = 3; end = 1; items = 9 ∷ 0 ∷ 0 ∷ 8 ∷ [] }

on_stack-FitsStack : FitsStack 3 on_stack
on_stack-FitsStack = record { slots = refl; valid = wrapped-IsValid }

abbrev full_stack : StackRingBuffer ℕ
full_stack = record { start = 3; end = 2; items = 9 ∷ 7 ∷ 0 ∷ 8 ∷ [] }
