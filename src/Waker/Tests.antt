-- ===== src/Waker/Tests.antt =====
-- A driver that was woken once before, and is woken again while it waits.
use zedlibs.Prelude.{◌<◌, refl, ◌⊎◌, true, arith}
use zedlibs.Waker.{
  Waker, constructed, wake_up, turn_on, consume, kernel_read, Steps, wakes, turns_on, consumes,
  reads, Reaches, here, later, waits, woken_up,
}
use zedlibs.Waker.Wakes.{turn_on-Wakes}

abbrev first_poll : Waker
first_poll = record { flag = 0; counter = 1; armed = true; completions = 0; woken = 1; taken = 0 }

polled : Reaches constructed first_poll
unfolding turn_on wake_up
polled =
    later constructed (turn_on constructed) first_poll
      (later constructed constructed (turn_on constructed) (here constructed)
        (turns_on constructed))
      (wakes (turn_on constructed))

abbrev consumed : Waker
consumed = consume (kernel_read first_poll)

again : Reaches constructed consumed
again =
    later constructed (kernel_read first_poll) consumed
      (later constructed first_poll (kernel_read first_poll) polled
        (reads first_poll refl (omega arith)))
      (consumes (kernel_read first_poll))

open_wake : (wake_up (turn_on consumed)).taken < (wake_up (turn_on consumed)).woken
unfolding turn_on wake_up consume kernel_read
open_wake = omega arith

turn_on-Wakes_example :
    (0 < (wake_up (turn_on consumed)).completions)
    ⊎ ((w : Waker) × Steps (wake_up (turn_on consumed)) w × (0 < w.completions))
turn_on-Wakes_example =
    turn_on-Wakes consumed (wake_up (turn_on consumed)) again
      (woken_up (turn_on consumed) (turn_on consumed) (waits (turn_on consumed))) open_wake
