-- ===== src/Channel.antt =====
-- zedio/sync/channel/channel.hpp. `await_suspend` of an awaiter runs from the moment at which the
-- coroutine holds the channel's mutex up to the release of the mutex, as one step.
pub mod Cases
pub mod Invariant
pub mod Order
pub mod Close
pub mod History
mod Tests
use zedlibs.Prelude.{
  ℕ, ◌+◌, ◌-◌, ◌%◌, ◌^◌, List, [], ◌∷◌, ◌++◌, map, Option, none, some, Bool, true, false, ◌==◌,
  if◌then◌else◌,
}
use zedlibs.Errors.{Result, ok, err, closed_channel}
use zedlibs.Ring
use zedlibs.Ring.{HeapRingBuffer, size_t, make, is_fill, is_empty, safety_push, safety_pop}

-- A coroutine handle is only stored and handed to `schedule_local`, so it is any number.
abbrev pub Handle : Type 0
Handle = ℕ

-- `result_` of a waiting awaiter is the error that it is built with.
pub record SendAwaiter {ℓ} (A : Type ℓ) : Type ℓ where
  pub value : A
  pub handle : Handle

pub record Channel {ℓ} (A : Type ℓ) : Type ℓ where
  pub num_senders : ℕ
  pub num_receivers : ℕ
  pub buf : HeapRingBuffer A
  pub waiting_senders : List (SendAwaiter A)
  pub waiting_receivers : List Handle
  pub is_closed : Bool

-- A call of `schedule_local`, with the `result_` that the coroutine finds when it resumes.
pub data Wake {ℓ} (A : Type ℓ) : Type ℓ where
  wake_sender : Handle → Result (Unit {0}) → Wake A
  wake_receiver : Handle → Result A → Wake A

-- What `await_suspend` returns: true, or false with the `result_` that `await_resume` returns.
pub data Suspend {ℓ} (R : Type ℓ) : Type ℓ where
  suspended : Suspend R
  resumes : Result R → Suspend R

pub record Outcome {ℓ κ} (R : Type κ) (A : Type ℓ) : Type (ℓ ⊔ κ) where
  pub reply : Suspend R
  pub channel : Channel A
  pub wakes : List (Wake A)

module _ {ℓ} {A : Type ℓ} where
  unfoldable pub init : A → ℕ → ℕ → ℕ → Channel A
  init default num_senders num_receivers cap = record {
    num_senders = num_senders;
    num_receivers = num_receivers;
    buf = make default cap;
    waiting_senders = [];
    waiting_receivers = [];
    is_closed = false;
  }

  -- `SendAwaiter::await_suspend`; `none` is the failed assertion of `safety_push`.
  unfoldable pub send_suspend : Channel A → Handle → A → Option (Outcome (Unit {0}) A)
  send_suspend c handle value = elim c.waiting_receivers [
    | receiver ∷ rest ↦ some (record {
      reply = resumes (ok tt);
      channel = record c { waiting_receivers = rest };
      wakes = wake_receiver receiver (ok value) ∷ [];
    })
    | [] ↦
        if is_fill c.buf
        then (if c.is_closed
            then some (record { reply = resumes (err closed_channel); channel = c; wakes = [] })
            else some (record {
              reply = suspended;
              channel = record c {
                waiting_senders =
                    c.waiting_senders ++ record { value = value; handle = handle } ∷ [];
              };
              wakes = [];
            }))
        else elim (safety_push c.buf value) [
          | none ↦ none
          | some buf ↦
              some
                (record { reply = resumes (ok tt); channel = record c { buf = buf }; wakes = [] })
        ]
  ]

  -- `RecvAwaiter::await_suspend`; `none` is the failed assertion of `safety_pop`.
  unfoldable pub recv_suspend : Channel A → Handle → Option (Outcome A A)
  recv_suspend c handle = elim c.waiting_senders [
    | sender ∷ rest ↦ some (record {
      reply = resumes (ok sender.value);
      channel = record c { waiting_senders = rest };
      wakes = wake_sender sender.handle (ok tt) ∷ [];
    })
    | [] ↦
        if is_empty c.buf
        then (if c.is_closed
            then some (record { reply = resumes (err closed_channel); channel = c; wakes = [] })
            else some (record {
              reply = suspended;
              channel = record c { waiting_receivers = c.waiting_receivers ++ handle ∷ [] };
              wakes = [];
            }))
        else elim (safety_pop c.buf) [
          | none ↦ none
          | some (value, buf) ↦
              some (record {
                reply = resumes (ok value);
                channel = record c { buf = buf };
                wakes = [];
              })
        ]
  ]

  abbrev pub close_sender : SendAwaiter A → Wake A
  close_sender sender = wake_sender sender.handle (err closed_channel)

  abbrev pub close_receiver : Handle → Wake A
  close_receiver receiver = wake_receiver receiver (err closed_channel)

  unfoldable pub destroy : Channel A → Channel A × List (Wake A)
  destroy c = if c.is_closed then (c, []) else (
    record c { waiting_senders = []; waiting_receivers = []; is_closed = true },
    map close_sender c.waiting_senders ++ map close_receiver c.waiting_receivers,
  )

  unfoldable pub add_sender : Channel A → Channel A
  add_sender c = record c { num_senders = size_t (c.num_senders + 1) }

  unfoldable pub sub_sender : Channel A → Channel A × List (Wake A)
  sub_sender c =
      let less : Channel A = record c { num_senders = size_t (c.num_senders + 2 ^ 64 - 1) } in
      if c.num_senders == 1 then destroy less else (less, [])

  unfoldable pub add_receiver : Channel A → Channel A
  add_receiver c = record c { num_receivers = size_t (c.num_receivers + 1) }

  unfoldable pub sub_receiver : Channel A → Channel A × List (Wake A)
  sub_receiver c =
      let less : Channel A = record c { num_receivers = size_t (c.num_receivers + 2 ^ 64 - 1) } in
      if c.num_receivers == 1 then destroy less else (less, [])
