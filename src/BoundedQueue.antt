-- ===== src/BoundedQueue.antt =====
-- The specification of the ring buffers of zedio/common/util/ring_buffer.hpp: a list, oldest
-- first, that refuses to grow past `cap`.
use zedlibs.Prelude.{
  ℕ, List, [], ◌∷◌, ◌++◌, Option, none, some, Bool, true, false, ◌==◌, if◌then◌else◌, length,
}

module _ {ℓ} {A : Type ℓ} where
  unfoldable pub push : ℕ → List A → A → List A × Bool
  push cap q a = if length q == cap then (q, false) else (q ++ a ∷ [], true)

  unfoldable pub pop : List A → List A × Option A
  pop [] = ([], none)
  pop (a ∷ q) = (q, some a)
