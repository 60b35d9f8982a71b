-- ===== src/Queue/Shared.antt =====
-- The shared queue: its count is the number of its tasks, and `pop_n` takes the oldest.
use zedlibs.Prelude.{
  ℕ, ◌^◌, ◌≤◌, ◌<◌, ◌≡◌, ap, min, List, ◌++◌, length, length-take, length-drop, take-append-drop,
  arith,
}
use zedlibs.Queue.Global.{GlobalQueue, pop_n}

module _ {ℓ} {A : Type ℓ} where
  pub record IsCounted (q : GlobalQueue A) : Type ℓ where
    pub counted : q.num ≡ length q.tasks
    pub few : q.num < 2 ^ 64

  -- What `pop_n` returns.
  pub record TakesOldest (q : GlobalQueue A) (n : ℕ) (out : GlobalQueue A × ℕ × List A)
      : Type ℓ where
    pub good : IsCounted out.0
    pub number : out.1 ≡ min (length q.tasks) n
    pub taken : length out.2 ≡ out.1
    pub in_order : out.2 ++ out.0.tasks ≡ q.tasks

  -- `pop_n` of a queue whose count is right takes as many tasks as are asked for, or all of them if
  -- there are fewer: the oldest, in order; the others stay in order, and the count stays right.
  pub pop_n-TakesOldest : (q : GlobalQueue A) (n : ℕ) → IsCounted q → TakesOldest q n (pop_n q n)
  unfolding pop_n
  pop_n-TakesOldest q n good =
      let few : min q.num n ≤ length q.tasks = omega (arith, good.counted) in
      let rest = length-drop (min q.num n) q.tasks in
      record {
        good = record {
          counted = ground (arith, good.counted, rest);
          few = ground (arith, good.few);
        };
        number = ap (λ k. min k n) good.counted;
        taken = omega (arith, length-take (min q.num n) q.tasks, few);
        in_order = take-append-drop (min q.num n) q.tasks;
      }
