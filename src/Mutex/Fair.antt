-- ===== src/Mutex/Fair.antt =====
-- The specification of the mutex: a lock that is handed on in the order in which it was asked for.
use zedlibs.Prelude.{ℕ, List, [], ◌∷◌, ◌++◌, Option, none, some, Bool, true, false, if◌then◌else◌}

pub record FairLock : Type 0 where
  pub held : Bool
  pub waiting : List ℕ

-- Whether the coroutine has to wait.
abbrev pub lock : FairLock → ℕ → FairLock × Bool
lock l handle =
    if l.held
    then (record l { waiting = l.waiting ++ handle ∷ [] }, true)
    else (record l { held = true }, false)

-- Who gets the lock; `none` where nobody holds it.
abbrev pub unlock : FairLock → Option (FairLock × Option ℕ)
unlock l =
    if l.held
    then elim l.waiting [
      | [] ↦ some (record { held = false; waiting = [] }, none)
      | next ∷ rest ↦ some (record { held = true; waiting = rest }, some next)
    ]
    else none
