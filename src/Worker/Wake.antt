-- ===== src/Worker/Wake.antt =====
-- `wake_up_one`: whose driver is woken up.
use zedlibs.Prelude.{ℕ, ◌≡◌, refl, [], ◌∷◌, ◌++◌, Option, some, false}
use zedlibs.Idle.{Idle, num_searching, notify_should_wakeup}
use zedlibs.Idle.Notify.{WellFormed, quiet, woken, worker_to_notify-NotifyOutcome}
use zedlibs.Worker.Shared.{Shared, wake_up_one}

module _ {ℓ} {A : Type ℓ} where
  -- What else is shared stays as it is.
  pub data Wakes (shared : Shared A) (out : Option (Shared A)) : Type ℓ where
    nobody : notify_should_wakeup shared.idle ≡ false → out ≡ some shared → Wakes shared out
    one :
        (idle : Idle) (index : ℕ)
        → out ≡ some (record shared { idle = idle; woken = shared.woken ++ index ∷ [] })
        → WellFormed idle
        → shared.idle.sleeping_workers ≡ index ∷ idle.sleeping_workers
        → num_searching idle.state ≡ 1
        → Wakes shared out

  -- `wake_up_one` with well-formed idle workers never looks into an empty set. If a worker should wake
  -- up, the driver of one that sleeps is woken up, once, and this worker is then the only one that
  -- searches; else nothing changes.
  pub wake_up_one-Wakes :
      (shared : Shared A) → WellFormed shared.idle → Wakes shared (wake_up_one shared)
  unfolding wake_up_one
  wake_up_one-Wakes shared good = elim (worker_to_notify-NotifyOutcome shared.idle good) [
    | quiet off out ↦ nobody off (rw (out, wake_up_one) refl)
    | woken idle index out good' sleeping searches num ↦
        one idle index (rw (out, wake_up_one) refl) good' sleeping searches
  ]

  pub record Woken (shared : Shared A) (out : Option (Shared A)) : Type ℓ where
    pub shared' : Shared A
    pub returns : out ≡ some shared'
    pub good : WellFormed shared'.idle
    pub same_global : shared'.global_queue ≡ shared.global_queue
    pub same_queues : shared'.queues ≡ shared.queues

  pub wake_up_one-Woken :
      (shared : Shared A) → WellFormed shared.idle → Woken shared (wake_up_one shared)
  wake_up_one-Woken shared good = elim (wake_up_one-Wakes shared good) [
    | nobody off out ↦ record {
      shared' = shared;
      returns = out;
      good = good;
      same_global = refl;
      same_queues = refl;
    }
    | one idle index out good' sleeping searches ↦ record {
      shared' = record shared { idle = idle; woken = shared.woken ++ index ∷ [] };
      returns = out;
      good = good';
      same_global = refl;
      same_queues = refl;
    }
  ]
