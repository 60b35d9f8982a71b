-- ===== src/Worker/Driver.antt =====
-- zedio/runtime/driver.hpp: how `poll` hands completed operations, and the expired entries of the
-- timer, to the queues.
use zedlibs.Prelude.{◌+◌, List, [], ◌∷◌, Option, none, some, length, Bool, ltb}
use zedlibs.Queue.Global.{GlobalQueue}
use zedlibs.Queue.Local.{LocalQueue, push_back_or_overflow}

-- What one poll finds: the handles of the completions, `none` for one without `io_data`, and the
-- `handle_` of each of the timer's expired entries, `none` for the time-out of an operation, which has
-- `data_` instead.
pub record Events {ℓ} (A : Type ℓ) : Type ℓ where
  pub completions : List (Option A)
  pub expired : List (Option A)

module _ {ℓ} {A : Type ℓ} where
  -- The loop over the completions, with one round of each `push_back_or_overflow`, which is enough.
  unfoldable pub push_completions :
      List (Option A) → LocalQueue A → GlobalQueue A → Option (LocalQueue A × GlobalQueue A)
  push_completions [] local global = some (local, global)
  push_completions (none ∷ completions) local global = push_completions completions local global
  push_completions (some handle ∷ completions) local global =
      elim (push_back_or_overflow 1 local handle global) [
        | none ↦ none
        | some (local', global') ↦ push_completions completions local' global'
      ]

  -- `Entry::execute`, as far as the queues go: for an entry with `data_` the code asks the ring to cancel
  -- the operation, and pushes nothing.
  unfoldable pub execute :
      Option A → LocalQueue A → GlobalQueue A → Option (LocalQueue A × GlobalQueue A)
  execute none local global = some (local, global)
  execute (some handle) local global = push_back_or_overflow 1 local handle global

  -- `handle_expired_entries`, which executes each entry.
  unfoldable pub push_expired :
      List (Option A) → LocalQueue A → GlobalQueue A → Option (LocalQueue A × GlobalQueue A)
  push_expired [] local global = some (local, global)
  push_expired (entry ∷ expired) local global = elim (execute entry local global) [
    | none ↦ none
    | some (local', global') ↦ push_expired expired local' global'
  ]

  -- Whether anything happened, each expired entry counted; `none` is a failed assertion.
  unfoldable pub poll :
      Events A → LocalQueue A → GlobalQueue A → Option (LocalQueue A × GlobalQueue A × Bool)
  poll events local global = elim (push_completions events.completions local global) [
    | none ↦ none
    | some (local', global') ↦ elim (push_expired events.expired local' global') [
      | none ↦ none
      | some (local'', global'') ↦
          some (local'', global'', ltb 0 (length events.completions + length events.expired))
    ]
  ]
