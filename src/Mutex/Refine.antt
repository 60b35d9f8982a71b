-- ===== src/Mutex/Refine.antt =====
-- The mutex implements the fair lock, and what `try_lock` does to it.
use zedlibs.Prelude.{
  ℕ, ◌≡◌, ◌≢◌, refl, sym, ap, ◌∙◌, List, [], ◌∷◌, ◌++◌, append_assoc, append-nil, Option, none,
  some, Bool, true, false, arith,
}
use mathlib.Core.List.{cons≢nil}
use zedlibs.Mutex.{
  Mutex, State, unlocking, queued, await_suspend, try_lock, reverse_lists, resume, unlock,
}
use zedlibs.Mutex.Fair.{FairLock}
use zedlibs.Mutex.Fair

-- The awaiters in the order in which they came.
abbrev pub waiting : Mutex → List ℕ
waiting mutex = elim mutex.state [
  | unlocking ↦ []
  | queued awaiters ↦ mutex.fifo ++ reverse_lists [] awaiters
]

abbrev pub held : Mutex → Bool
held mutex = elim mutex.state [ unlocking ↦ false | queued _ ↦ true ]

abbrev pub view : Mutex → FairLock
view mutex = record { held = held mutex; waiting = waiting mutex }

-- Nobody waits in a free mutex.
abbrev pub IsSound : Mutex → Type 0
IsSound mutex = elim mutex.state [ unlocking ↦ mutex.fifo ≡ [] | queued _ ↦ Unit {0} ]

reverse_lists-append :
    (fifo lifo : List ℕ) → reverse_lists fifo lifo ≡ reverse_lists [] lifo ++ fifo
unfolding reverse_lists
reverse_lists-append fifo [] = refl
reverse_lists-append fifo (x ∷ lifo) =
    reverse_lists-append (x ∷ fifo) lifo
    ∙ sym (append_assoc (reverse_lists [] lifo) (x ∷ []) fifo)
    ∙ ap (λ l. l ++ fifo) (sym (reverse_lists-append (x ∷ []) lifo))

abbrev mutex_of : State → List ℕ → Mutex
mutex_of state fifo = record { state = state; fifo = fifo }

-- What an operation does, seen from the fair lock.
pub record LockRefines (mutex : Mutex) (handle : ℕ) (out : Mutex × Bool) : Type 0 where
  pub sound : IsSound out.0
  pub same : (view out.0, out.1) ≡ Fair.lock (view mutex) handle

lock-refines :
    (state : State) (fifo : List ℕ) (handle : ℕ)
    → IsSound (mutex_of state fifo)
    → LockRefines (mutex_of state fifo) handle (await_suspend (mutex_of state fifo) handle)
unfolding await_suspend reverse_lists
lock-refines unlocking fifo handle s = record {
  sound = tt;
  same = ap (λ l. (record { held = true; waiting = l }, false)) (append-nil fifo ∙ s);
}
lock-refines (queued l) fifo handle s = record {
  sound = tt;
  same =
      ap (λ w. (record { held = true; waiting = w }, true))
        (ap (λ r. fifo ++ r) (reverse_lists-append (handle ∷ []) l)
          ∙ sym (append_assoc fifo (reverse_lists [] l) (handle ∷ [])));
}

-- A coroutine that locks a sound mutex gets it at once if it is free, and otherwise waits behind all
-- who wait; the mutex stays sound.
pub await_suspend_refines :
    (mutex : Mutex) (handle : ℕ)
    → IsSound mutex
    → LockRefines mutex handle (await_suspend mutex handle)
await_suspend_refines mutex handle s = lock-refines mutex.state mutex.fifo handle s

-- The same of unlocking, where a failed assertion answers a lock that nobody holds.
pub data UnlockRefines (mutex : Mutex) (out : Option (Mutex × Option ℕ)) : Type 0 where
  refused : out ≡ none → Fair.unlock (view mutex) ≡ none → UnlockRefines mutex out
  done :
      (mutex' : Mutex) (wake : Option ℕ)
      → out ≡ some (mutex', wake)
      → IsSound mutex'
      → Fair.unlock (view mutex) ≡ some (view mutex', wake)
      → UnlockRefines mutex out

resume-drained :
    (last : ℕ) (others order : List ℕ)
    → reverse_lists [] (last ∷ others) ≡ order
    → order ≢ []
    → UnlockRefines (mutex_of (queued (last ∷ others)) []) (resume (queued []) order)
unfolding resume reverse_lists
resume-drained last others [] e ne = absurd (ne refl)
resume-drained last others (first ∷ order) e ne =
    done (mutex_of (queued []) order) (some first) refl tt (
      ap (λ w. Fair.unlock (record { held = true; waiting = w })) e
      ∙ ap (λ w. some (record { held = true; waiting = w }, some first)) (sym (append-nil order)))

reverse_lists-cons : (fifo lifo : List ℕ) (x : ℕ) → reverse_lists (x ∷ fifo) lifo ≢ []
unfolding reverse_lists
reverse_lists-cons fifo [] x e = cons≢nil e
reverse_lists-cons fifo (y ∷ lifo) x e = reverse_lists-cons (x ∷ fifo) lifo y e

unlock-refines :
    (state : State) (fifo : List ℕ)
    → IsSound (mutex_of state fifo)
    → UnlockRefines (mutex_of state fifo) (unlock (mutex_of state fifo))
unfolding unlock
unlock-refines unlocking fifo s = refused refl refl
unlock-refines (queued []) [] s =
    unfold reverse_lists in done (mutex_of unlocking []) none refl refl refl
unlock-refines (queued (last ∷ others)) [] s =
    resume-drained last others (reverse_lists [] (last ∷ others)) refl
      (unfold reverse_lists in reverse_lists-cons [] others last)
unlock-refines (queued l) (first ∷ fifo) s =
    unfold resume in done (mutex_of (queued l) fifo) (some first) refl tt refl

-- Unlocking a sound mutex fails an assertion exactly when nobody holds it. Else it hands the mutex to
-- the coroutine that has waited longest, and frees it if nobody waits; the mutex stays sound.
pub unlock_refines : (mutex : Mutex) → IsSound mutex → UnlockRefines mutex (unlock mutex)
unlock_refines mutex s = unlock-refines mutex.state mutex.fifo s

-- The calls of `lock` and `unlock`.
pub data Op : Type 0 where
  ask : ℕ → Op
  give_back : Op

-- What a caller sees: whether it was suspended, or who was resumed, or a failed assertion.
pub data Answer : Type 0 where
  suspended : Bool → Answer
  resumed : Option ℕ → Answer
  failed : Answer

-- The answers to a sequence of calls, up to the first failed assertion.
unfoldable pub run : Mutex → List Op → List Answer
run mutex [] = []
run mutex (ask handle ∷ ops) =
    suspended (await_suspend mutex handle).1 ∷ run (await_suspend mutex handle).0 ops
run mutex (give_back ∷ ops) = elim (unlock mutex) [
  | none ↦ failed ∷ []
  | some (mutex', wake) ↦ resumed wake ∷ run mutex' ops
]

unfoldable pub run_fair : FairLock → List Op → List Answer
run_fair l [] = []
run_fair l (ask handle ∷ ops) =
    suspended (Fair.lock l handle).1 ∷ run_fair (Fair.lock l handle).0 ops
run_fair l (give_back ∷ ops) = elim (Fair.unlock l) [
  | none ↦ failed ∷ []
  | some (l', wake) ↦ resumed wake ∷ run_fair l' ops
]

-- No sequence of calls of `lock` and `unlock` tells a sound mutex from the fair lock.
pub mutex_run_refines :
    (mutex : Mutex) (ops : List Op) → IsSound mutex → run mutex ops ≡ run_fair (view mutex) ops
unfolding run run_fair
mutex_run_refines mutex [] s = refl
mutex_run_refines mutex (ask handle ∷ ops) s =
    let step = await_suspend_refines mutex handle s in
    ap (λ l. suspended (await_suspend mutex handle).1 ∷ l)
      (mutex_run_refines (await_suspend mutex handle).0 ops step.sound)
    ∙ ap (λ p. suspended p.1 ∷ run_fair p.0 ops) step.same
mutex_run_refines mutex (give_back ∷ ops) s = elim (unlock_refines mutex s) [
  | refused out spec ↦ ap (after ops) out ∙ sym (ap (after_fair ops) spec)
  | done mutex' wake out sound spec ↦
      ap (after ops) out
      ∙ ap (λ l. resumed wake ∷ l) (mutex_run_refines mutex' ops sound)
      ∙ sym (ap (after_fair ops) spec)
]
  where
    after : List Op → Option (Mutex × Option ℕ) → List Answer
    after ops none = failed ∷ []
    after ops (some (mutex', wake)) = resumed wake ∷ run mutex' ops

    after_fair : List Op → Option (FairLock × Option ℕ) → List Answer
    after_fair ops none = failed ∷ []
    after_fair ops (some (l', wake)) = resumed wake ∷ run_fair l' ops

-- The awaiters that unlock has not yet put into order.
abbrev pub newcomers : Mutex → List ℕ
newcomers mutex = elim mutex.state [ unlocking ↦ [] | queued awaiters ↦ reverse_lists [] awaiters ]

-- `try_lock` of a mutex that a coroutine holds says that it got it, and the awaiters that unlock has
-- not yet put into order wait no longer.
pub try_lock_breaks :
    (mutex : Mutex)
    → held mutex ≡ true
    → ((try_lock mutex).1 ≡ true) × (waiting mutex ≡ waiting (try_lock mutex).0 ++ newcomers mutex)
unfolding try_lock reverse_lists
try_lock_breaks mutex h = (refl, forgets mutex.state mutex.fifo h)
  where
    forgets :
        (state : State) (fifo : List ℕ)
        → held (mutex_of state fifo) ≡ true
        → waiting (mutex_of state fifo)
          ≡ waiting (try_lock (mutex_of state fifo)).0 ++ newcomers (mutex_of state fifo)
    forgets unlocking fifo h' = absurd (ground (arith, h'))
    forgets (queued l) fifo h' = ap (λ m. m ++ reverse_lists [] l) (sym (append-nil fifo))
