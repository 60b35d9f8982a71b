-- ===== src/Semaphore/Tests.antt =====
-- A semaphore with waiting coroutines, and a run of its operations.
use zedlibs.Prelude.{◌≡◌, refl, [], ◌∷◌, some, true, false}
use zedlibs.Prelude.Ints.{pos, negsuc}
use zedlibs.Prelude.Runs.{answers}
use zedlibs.Semaphore.{Semaphore, make, acquire, release, wake}
use zedlibs.Semaphore.Permits.{
  acquires, releases, suspended, scheduled, step, spec, view, answers-Permits,
}

-- 4 and 5 wait.
abbrev short : Semaphore
short = record { count = negsuc 1; awaiters = 4 ∷ 5 ∷ [] }

answers-Permits_example :
    answers step short (releases 3 ∷ acquires 6 ∷ acquires 7 ∷ [])
    ≡ answers spec (view short) (releases 3 ∷ acquires 6 ∷ acquires 7 ∷ [])
answers-Permits_example = answers-Permits short (releases 3 ∷ acquires 6 ∷ acquires 7 ∷ []) refl

abbrev one_left : Semaphore
one_left = record { count = pos 1; awaiters = [] }

made : make 2 1 ≡ some one_left
unfolding make
made = refl

-- One of two permits is left, is taken, and the next coroutine waits until the release.
in_order :
    answers step one_left (acquires 1 ∷ acquires 2 ∷ acquires 3 ∷ releases 1 ∷ releases 2 ∷ [])
    ≡ suspended false
      ∷ suspended true
      ∷ suspended true
      ∷ scheduled (2 ∷ [])
      ∷ scheduled (3 ∷ [])
      ∷ []
unfolding answers step acquire release wake
in_order = refl
