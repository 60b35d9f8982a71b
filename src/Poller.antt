-- ===== src/Poller.antt =====
-- zedio/runtime/io/linux/poller.hpp: when the requests are submitted. The ring and the call of
-- `io_uring_submit` are parameters, and so is what it does to the ring.
pub mod Submits
mod Tests
use zedlibs.Prelude.{
  ℕ, zero, suc, ◌+◌, ◌*◌, ◌/◌, ◌%◌, ◌^◌, Option, none, some, Bool, ◌==◌, if◌then◌else◌,
}

pub record Poller {ℓ} (R : Type ℓ) : Type ℓ where
  pub ring : R
  pub submit_tick : ℕ
  pub submit_interval : ℕ

-- The time that `wait` gives to the ring, in seconds and nanoseconds, for a time in milliseconds.
unfoldable pub timespec : ℕ → ℕ × ℕ
timespec timeout = (timeout / 1000, timeout % 1000 * 1000000)

module _ {ℓ} {R : Type ℓ} (io_uring_submit : R → R) where
  unfoldable pub force_submit : Poller R → Poller R
  force_submit p = record p { ring = io_uring_submit p.ring; submit_tick = 0 }

  -- `submit_tick_` is a uint32_t.
  unfoldable pub submit : Poller R → Poller R
  submit p =
      let p' : Poller R = record p { submit_tick = (p.submit_tick + 1) % 2 ^ 32 } in
      if (p.submit_tick + 1) % 2 ^ 32 == p.submit_interval then force_submit p' else p'

  -- So many coroutines suspend on a request.
  unfoldable pub submit_times : ℕ → Poller R → Poller R
  submit_times zero p = p
  submit_times (suc n) p = submit_times n (submit p)
