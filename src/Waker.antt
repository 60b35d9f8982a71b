-- ===== src/Waker.antt =====
-- zedio/runtime/io/linux/waker.hpp: how another thread wakes a driver that waits. The eventfd and the
-- read of it that the ring has are the kernel's; a step is a system call, an act of the kernel, or
-- what a driver does between two of them.
pub mod Wakes
mod Tests
use zedlibs.Prelude.{ℕ, zero, suc, ◌+◌, ◌<◌, ◌≡◌, Bool, true, false, ◌==◌, if◌then◌else◌}

-- `counter` is the eventfd's, `armed` that the ring has the read, and `completions` are the answers
-- that the driver has not consumed. `woken` counts the calls of `wake_up`, `taken` what the reads got.
pub record Waker : Type 0 where
  pub flag : ℕ
  pub counter : ℕ
  pub armed : Bool
  pub completions : ℕ
  pub woken : ℕ
  pub taken : ℕ

abbrev pub constructed : Waker
constructed = record { flag = 1; counter = 0; armed = false; completions = 0; woken = 0; taken = 0 }

-- The eventfd's counter, which the write adds one to, is far from its limit.
unfoldable pub wake_up : Waker → Waker
wake_up w = record w { counter = w.counter + 1; woken = w.woken + 1 }

-- The read is submitted by the `force_submit` that follows in `Driver::poll`.
unfoldable pub turn_on : Waker → Waker
turn_on w = if w.flag == 0 then w else record w { flag = 0; armed = true }

-- `Driver::poll` peeks and consumes all completions that are there.
unfoldable pub consume : Waker → Waker
consume w = record w { completions = 0 }

-- The kernel's read of an eventfd: it takes the counter when that is not zero.
unfoldable pub kernel_read : Waker → Waker
kernel_read w = record w {
  flag = w.counter;
  counter = 0;
  armed = false;
  completions = w.completions + 1;
  taken = w.taken + w.counter;
}

pub data Steps : Waker → Waker → Type 0 where
  wakes : (w : Waker) → Steps w (wake_up w)
  turns_on : (w : Waker) → Steps w (turn_on w)
  consumes : (w : Waker) → Steps w (consume w)
  reads : (w : Waker) → w.armed ≡ true → 0 < w.counter → Steps w (kernel_read w)

pub data Reaches : Waker → Waker → Type 0 where
  here : (w : Waker) → Reaches w w
  later : (w w' w'' : Waker) → Reaches w w' → Steps w' w'' → Reaches w w''

-- While the driver waits for a completion, only the others act.
pub data Waits : Waker → Waker → Type 0 where
  waits : (w : Waker) → Waits w w
  woken_up : (w w' : Waker) → Waits w w' → Waits w (wake_up w')
  read_done :
      (w w' : Waker) → Waits w w' → w'.armed ≡ true → 0 < w'.counter → Waits w (kernel_read w')
