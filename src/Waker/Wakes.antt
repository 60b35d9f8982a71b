-- ===== src/Waker/Wakes.antt =====
-- No wake-up is lost.
use zedlibs.Prelude.{◌+◌, ◌<◌, ◌≡◌, refl, true, false, ◌==◌, ◌⊎◌, inl, inr, Bool-cases, arith}
use zedlibs.Waker.{
  Waker, constructed, wake_up, turn_on, consume, kernel_read, Steps, wakes, turns_on, consumes,
  reads, Reaches, here, later, Waits, waits, woken_up, read_done,
}

-- The read is with the ring, or the driver can see that it is not; each wake-up is in the eventfd or
-- was taken by a read.
pub record IsSound (w : Waker) : Type 0 where
  pub on : w.armed ≡ true → w.flag ≡ 0
  pub off : w.armed ≡ false → 0 < w.flag
  pub counts : w.woken ≡ w.counter + w.taken

wake_up-IsSound : (w : Waker) → IsSound w → IsSound (wake_up w)
unfolding wake_up
wake_up-IsSound w v = record { on = v.on; off = v.off; counts = omega (arith, v.counts) }

kernel_read-IsSound : (w : Waker) → IsSound w → 0 < w.counter → IsSound (kernel_read w)
unfolding kernel_read
kernel_read-IsSound w v some_there = record {
  on = λ e. absurd (grind (arith, e));
  off = λ e. some_there;
  counts = omega (arith, v.counts);
}

-- `turn_on` leaves the read with the ring.
turn_on-armed : (w : Waker) → IsSound w → IsSound (turn_on w) × ((turn_on w).armed ≡ true)
unfolding turn_on
turn_on-armed w v = elim (Bool-cases (w.flag == 0)) [
  | inl zero_flag ↦ rw zero_flag (
    v,
    elim (Bool-cases w.armed) [
      | inl on ↦ on
      | inr off ↦ let some_flag = v.off off in absurd (ground (arith, zero_flag, some_flag))
    ],
  )
  | inr taken ↦
      rw taken
        (record { on = λ e. refl; off = λ e. absurd (grind (arith, e)); counts = v.counts }, refl)
]

Steps-IsSound : (w w' : Waker) → Steps w w' → IsSound w → IsSound w'
unfolding consume
Steps-IsSound w w' (wakes _) v = wake_up-IsSound w v
Steps-IsSound w w' (turns_on _) v = (turn_on-armed w v).0
Steps-IsSound w w' (consumes _) v = record { on = v.on; off = v.off; counts = v.counts }
Steps-IsSound w w' (reads _ armed there) v = kernel_read-IsSound w v there

-- In whatever order the threads, the driver and the kernel act, the driver's flag tells whether the
-- ring has the read, and no wake-up gets lost: each is in the eventfd or was taken.
pub Reaches-IsSound : (w w' : Waker) → IsSound w → Reaches w w' → IsSound w'
Reaches-IsSound w w' v (here _) = v
Reaches-IsSound w w'' v (later _ w' _ r s) = Steps-IsSound w' w'' s (Reaches-IsSound w w' v r)

constructed-IsSound : IsSound constructed
constructed-IsSound = record {
  on = λ e. absurd (grind (arith, e));
  off = λ e. omega arith;
  counts = omega arith;
}

Waits-IsSound :
    (w w' : Waker)
    → IsSound w
    → w.armed ≡ true
    → Waits w w'
    → IsSound w' × ((0 < w'.completions) ⊎ (w'.armed ≡ true))
unfolding wake_up kernel_read
Waits-IsSound w w' v on (waits _) = (v, inr on)
Waits-IsSound w w' v on (woken_up _ u r) =
    let (v', end) = Waits-IsSound w u v on r in (wake_up-IsSound u v', end)
Waits-IsSound w w' v on (read_done _ u r armed there) =
    let (v', end) = Waits-IsSound w u v on r in (kernel_read-IsSound u v' there, inl (omega arith))

-- A driver that has turned the waker on waits, and meanwhile other threads wake it up and the kernel
-- reads. As long as a wake-up has not been taken, a completion is there, which ends the wait, or the
-- kernel can read, and a completion is there then.
pub turn_on-Wakes :
    (w w' : Waker)
    → Reaches constructed w
    → Waits (turn_on w) w'
    → w'.taken < w'.woken
    → (0 < w'.completions) ⊎ ((w'' : Waker) × Steps w' w'' × (0 < w''.completions))
unfolding kernel_read
turn_on-Wakes w w' reached wait open_wake =
    let (v, on) = turn_on-armed w (Reaches-IsSound constructed w constructed-IsSound reached) in
    let (v', end) = Waits-IsSound (turn_on w) w' v on wait in
    elim end [
      | inl there ↦ inl there
      | inr armed ↦
          inr (kernel_read w', reads w' armed (omega (arith, v'.counts, open_wake)), omega arith)
    ]
