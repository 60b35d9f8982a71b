-- ===== src/Worker/Sleep.antt =====
-- `transition_to_sleeping`: the last worker that searches does not leave work behind.
use zedlibs.Prelude.{
  ℕ, ◌≡◌, refl, sym, ap, ◌∙◌, [], ◌∷◌, ◌++◌, Option, some, Bool, true, false, not, ◌&&◌, ◌||◌, ◌==◌,
  if◌then◌else◌, arith, Bool-cases, inl, inr,
}
use zedlibs.Idle.{
  Idle, num_searching, notify_should_wakeup, transition_worker_to_sleeping, dec_num_working,
}
use zedlibs.Idle.Notify.{WellFormed}
use zedlibs.Idle.Counts.{Counted, IsAllowed, falls_asleep, one_if, dec_lem, sleep-Counted}
use zedlibs.Queue.Global.{empty}
use zedlibs.Worker.Shared.{Shared, any_local, wake_up_one, wake_up_if_work_pending}
use zedlibs.Worker.Thread.{Worker, has_tasks, transition_to_sleeping}
use zedlibs.Worker.Wake.{nobody, one, wake_up_one-Wakes}

module _ {ℓ} {A : Type ℓ} where
  -- Some worker's queue or the global queue has a task.
  abbrev pub work_pending : Shared A → Bool
  work_pending shared = any_local shared.queues 0 shared.workers || not (empty shared.global_queue)

  wake_up_if_work_pending-if :
      (shared : Shared A)
      → wake_up_if_work_pending shared
        ≡ (if work_pending shared then wake_up_one shared else some shared)
  unfolding wake_up_if_work_pending
  wake_up_if_work_pending-if shared = elim (Bool-cases (any_local shared.queues 0 shared.workers)) [
    | inl e ↦ rw e refl
    | inr e ↦ rw e (by_global (empty shared.global_queue))
  ]
    where
      by_global :
          (b : Bool)
          → (if not b then wake_up_one shared else some shared)
            ≡ (if not b then wake_up_one shared else some shared)
      by_global b = refl

  abbrev last_searcher : Worker A → Bool
  last_searcher w = w.is_searching && (num_searching w.shared.idle.state == 1)

  -- The worker that has fallen asleep, before it wakes up another.
  abbrev pub asleep_worker : Worker A → Worker A
  asleep_worker w = record w {
    is_searching = false;
    shared = record w.shared {
      idle = (transition_worker_to_sleeping w.shared.idle w.index w.is_searching).0;
    };
  }

  pub data Sleeps (w : Worker A) (out : Option (Worker A × Bool)) : Type ℓ where
    stays : has_tasks w ≡ true → out ≡ some (w, false) → Sleeps w out
    sleeps :
        has_tasks w ≡ false
        → (last_searcher w && work_pending w.shared) ≡ false
        → out ≡ some (asleep_worker w, true)
        → Sleeps w out
    passes_on :
        has_tasks w ≡ false
        → (last_searcher w && work_pending w.shared) ≡ true
        → (idle : Idle) (index : ℕ)
        → out
          ≡ some (
            record (asleep_worker w) {
              shared = record (asleep_worker w).shared {
                idle = idle;
                woken = w.shared.woken ++ index ∷ [];
              };
            },
            true,
          )
        → index ∷ idle.sleeping_workers ≡ w.index ∷ w.shared.idle.sleeping_workers
        → num_searching idle.state ≡ 1
        → WellFormed idle
        → Sleeps w out

  module _ (w : Worker A) (c : Counted w.shared.idle)
      (allowed : IsAllowed w.shared.idle (falls_asleep w.index w.is_searching)) where
    abbrev idle1 : Idle
    idle1 = (asleep_worker w).shared.idle

    falls :
        transition_worker_to_sleeping w.shared.idle w.index w.is_searching
        ≡ (idle1, last_searcher w)
    unfolding transition_worker_to_sleeping dec_num_working
    falls = refl

    falls_sleeping : idle1.sleeping_workers ≡ w.index ∷ w.shared.idle.sleeping_workers
    unfolding transition_worker_to_sleeping
    falls_sleeping = rw (allowed.0) refl

    -- After the last searcher a worker should wake up.
    should_wake : last_searcher w ≡ true → notify_should_wakeup idle1 ≡ true
    unfolding notify_should_wakeup transition_worker_to_sleeping
    should_wake last =
        let searches : w.is_searching ≡ true = ground (arith, last) in
        let alone : num_searching w.shared.idle.state ≡ 1 = ground (arith, last) in
        let counts =
          dec_lem w.shared.idle.state w.is_searching (omega (arith, alone, c.searchers))
            allowed.1 in
        let flag : one_if w.is_searching ≡ 1 = ap one_if searches in
        ground (arith, counts.0, counts.1, flag, alone, c.good.counted)

    none_pending :
        has_tasks w ≡ false
        → last_searcher w ≡ true
        → work_pending w.shared ≡ false
        → transition_to_sleeping w ≡ some (asleep_worker w, true)
    unfolding transition_to_sleeping
    none_pending idle_now last nothing =
        let same : wake_up_if_work_pending (asleep_worker w).shared
            ≡ some (asleep_worker w).shared =
          wake_up_if_work_pending-if (asleep_worker w).shared ∙ rw nothing refl in
        rw idle_now (rw falls (rw last (rw same refl)))

    not_last :
        has_tasks w ≡ false
        → last_searcher w ≡ false
        → transition_to_sleeping w ≡ some (asleep_worker w, true)
    unfolding transition_to_sleeping
    not_last idle_now last = rw idle_now (rw falls (rw last refl))

    abbrev with_shared1 : Shared A → Worker A
    with_shared1 shared = record (asleep_worker w) { shared = shared }

    pending_wakes :
        has_tasks w ≡ false
        → last_searcher w ≡ true
        → work_pending w.shared ≡ true
        → (shared : Shared A) → wake_up_one (asleep_worker w).shared ≡ some shared
        → transition_to_sleeping w ≡ some (with_shared1 shared, true)
    unfolding transition_to_sleeping
    pending_wakes idle_now last some_work shared woken =
        let same : wake_up_if_work_pending (asleep_worker w).shared ≡ some shared =
          wake_up_if_work_pending-if (asleep_worker w).shared ∙ rw some_work woken in
        rw idle_now (rw falls (rw last (rw same refl)))

  -- `transition_to_sleeping` where the counts of the idle workers are right and this worker's flag is:
  -- a worker with tasks stays awake and changes nothing. Else it sleeps; and if it was the last that
  -- searched while some queue, a worker's or the global one, has a task, then the driver of exactly one
  -- sleeping worker is woken up, and this worker is awake again and searches. In every other case
  -- nobody is woken up.
  pub transition_to_sleeping-Sleeps :
      (w : Worker A)
      → Counted w.shared.idle
      → IsAllowed w.shared.idle (falls_asleep w.index w.is_searching)
      → Sleeps w (transition_to_sleeping w)
  transition_to_sleeping-Sleeps w c allowed = elim (Bool-cases (has_tasks w)) [
    | inl e ↦ stays e (unfold transition_to_sleeping in (rw e refl))
    | inr e ↦ elim (Bool-cases (last_searcher w)) [
      | inr last ↦ sleeps e (rw last refl) (not_last w c allowed e last)
      | inl last ↦ elim (Bool-cases (work_pending w.shared)) [
        | inr nothing ↦ sleeps e (rw last nothing) (none_pending w c allowed e last nothing)
        | inl some_work ↦
            elim (wake_up_one-Wakes (asleep_worker w).shared
              (sleep-Counted w.shared.idle w.index w.is_searching c allowed).good) [
                | nobody off out ↦ absurd (wakes_somebody (sym off ∙ should_wake w c allowed last))
                | one idle index out good sleeping searches ↦
                    passes_on e (rw last some_work) idle index
                      (pending_wakes w c allowed e last some_work _ out)
                      (sym sleeping ∙ falls_sleeping w c allowed) searches good
              ]
      ]
    ]
  ]
    where
      wakes_somebody : false ≡ true → ⊥
      wakes_somebody h = cc
