-- ===== src/Channel/Invariant.antt =====
-- What every operation of a channel keeps, so that no assertion of the buffer fails.
use zedlibs.Prelude.{
  ℕ, ◌+◌, ◌-◌, ◌<◌, ◌^◌, ◌≡◌, ◌⊎◌, inl, inr, refl, [], some, true, false, ◌==◌, if◌then◌else◌,
  arith, Bool-cases,
}
use zedlibs.Ring.{size_t, is_fill, is_empty}
use zedlibs.Ring.Inv.{IsValid, make-IsValid, store-IsValid, advance-IsValid}
use zedlibs.Channel.Cases.{
  SendCase, RecvCase, send_suspend-cases, recv_suspend-cases, deliver, enqueue, take_over, dequeue,
}
use zedlibs.Channel.{
  Channel, Handle, Outcome, send_suspend, recv_suspend, destroy, init, add_sender, sub_sender,
  add_receiver, sub_receiver,
}

pub record WellFormed {ℓ} {A : Type ℓ} (c : Channel A) : Type ℓ where
  pub valid : IsValid c.buf
  -- A receiver waits only while there is nothing to receive.
  pub starving : (c.waiting_receivers ≡ []) ⊎ ((is_empty c.buf ≡ true) × (c.waiting_senders ≡ []))
  -- A sender waits only while the buffer is full.
  pub blocked : (c.waiting_senders ≡ []) ⊎ (is_fill c.buf ≡ true)
  -- Nobody waits on a closed channel.
  pub released : (c.is_closed ≡ false) ⊎ ((c.waiting_senders ≡ []) × (c.waiting_receivers ≡ []))

module _ {ℓ} {A : Type ℓ} where
  pub init-WellFormed :
      (default : A) (s r cap : ℕ) → cap < 2 ^ 63 → WellFormed (init default s r cap)
  unfolding init
  init-WellFormed default s r cap h = record {
    valid = make-IsValid default cap h;
    starving = inl refl;
    blocked = inl refl;
    released = inl refl;
  }

  pub send-WellFormed :
      {c : Channel A} {handle : Handle} {value : A} {out : Outcome (Unit {0}) A}
      → SendCase c handle value out
      → WellFormed c
      → WellFormed out.channel
  send-WellFormed (deliver receiver rest e q) w = rw q (record {
    valid = w.valid;
    starving = ground arith;
    blocked = ground arith;
    released = ground arith;
  })
  send-WellFormed (SendCase.park e full live q) w =
      rw q (record { valid = w.valid; starving = inl e; blocked = inr full; released = inl live })
  send-WellFormed (SendCase.refuse e full shut q) w = rw q w
  send-WellFormed {c} {value} (enqueue e gap q) w = rw q (record {
    valid = store-IsValid value w.valid;
    starving = inl e;
    blocked = ground arith;
    released = ground arith;
  })

  pub recv-WellFormed :
      {c : Channel A} {handle : Handle} {out : Outcome A A}
      → RecvCase c handle out
      → WellFormed c
      → WellFormed out.channel
  recv-WellFormed (take_over sender rest e q) w = rw q (record {
    valid = w.valid;
    starving = ground arith;
    blocked = ground arith;
    released = ground arith;
  })
  recv-WellFormed (RecvCase.park e none_left live q) w = rw q (record {
    valid = w.valid;
    starving = inr (none_left, e);
    blocked = inl e;
    released = inl live;
  })
  recv-WellFormed (RecvCase.refuse e none_left shut q) w = rw q w
  recv-WellFormed (dequeue value e some_left split q) w = rw q (record {
    valid = advance-IsValid w.valid;
    starving = ground arith;
    blocked = inl e;
    released = w.released;
  })

  -- The sender's `await_suspend` on a well-formed channel never fails the assertion of
  -- `safety_push`, and it leaves the channel well formed.
  pub send_suspend-WellFormed :
      (c : Channel A) (handle : Handle) (value : A)
      → WellFormed c
      → (out : Outcome (Unit {0}) A) × (send_suspend c handle value ≡ some out)
        × WellFormed out.channel
  send_suspend-WellFormed c handle value w =
      let (out, e, branch) = send_suspend-cases c handle value in (out, e, send-WellFormed branch w)

  -- The receiver's `await_suspend` on a well-formed channel never fails the assertion of
  -- `safety_pop`, and it leaves the channel well formed.
  pub recv_suspend-WellFormed :
      (c : Channel A) (handle : Handle)
      → WellFormed c
      → (out : Outcome A A) × (recv_suspend c handle ≡ some out) × WellFormed out.channel
  recv_suspend-WellFormed c handle w =
      let (out, e, branch) = recv_suspend-cases c handle w.valid in
      (out, e, recv-WellFormed branch w)

  destroy-WellFormed : (c : Channel A) → WellFormed c → WellFormed (destroy c).0
  unfolding destroy
  destroy-WellFormed c w = ground arith

  -- The last handle of a side closes the channel.
  drop_side-WellFormed :
      (n : ℕ) (c : Channel A) → WellFormed c → WellFormed (if n == 1 then destroy c else (c, [])).0
  drop_side-WellFormed n c w = elim (Bool-cases (n == 1)) [
    | inl last ↦ rw last (destroy-WellFormed c w)
    | inr more ↦ rw more w
  ]

  pub sub_sender-WellFormed : (c : Channel A) → WellFormed c → WellFormed (sub_sender c).0
  unfolding sub_sender
  sub_sender-WellFormed c w = drop_side-WellFormed c.num_senders _ keep
    where
      keep : WellFormed (record c { num_senders = size_t (c.num_senders + 2 ^ 64 - 1) })
      keep = record {
        valid = w.valid;
        starving = w.starving;
        blocked = w.blocked;
        released = w.released;
      }

  pub sub_receiver-WellFormed : (c : Channel A) → WellFormed c → WellFormed (sub_receiver c).0
  unfolding sub_receiver
  sub_receiver-WellFormed c w = drop_side-WellFormed c.num_receivers _ keep
    where
      keep : WellFormed (record c { num_receivers = size_t (c.num_receivers + 2 ^ 64 - 1) })
      keep = record {
        valid = w.valid;
        starving = w.starving;
        blocked = w.blocked;
        released = w.released;
      }

  pub add_sender-WellFormed : (c : Channel A) → WellFormed c → WellFormed (add_sender c)
  unfolding add_sender
  add_sender-WellFormed c w = record {
    valid = w.valid;
    starving = w.starving;
    blocked = w.blocked;
    released = w.released;
  }

  pub add_receiver-WellFormed : (c : Channel A) → WellFormed c → WellFormed (add_receiver c)
  unfolding add_receiver
  add_receiver-WellFormed c w = record {
    valid = w.valid;
    starving = w.starving;
    blocked = w.blocked;
    released = w.released;
  }
