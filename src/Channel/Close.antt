-- ===== src/Channel/Close.antt =====
-- Closing a channel: the last `Sender` or `Receiver` that goes resumes everyone who waits.
use zedlibs.Prelude.{
  ◌+◌, ◌-◌, ◌^◌, ◌<◌, ◌≡◌, ◌≢◌, ◌⊎◌, refl, sym, ap, ◌∙◌, List, [], ◌∷◌, ◌++◌, map, some, true,
  false, arith,
}
use zedlibs.Errors.{ok}
use zedlibs.Ring.{is_fill, store}
use zedlibs.Ring.Contents.{contents, is_empty-contents}
use zedlibs.Channel.{
  Channel, Handle, Outcome, Wake, resumes, send_suspend, recv_suspend, close_sender, close_receiver,
  destroy, sub_sender, sub_receiver, add_sender,
}
use zedlibs.Channel.Invariant.{WellFormed}
use zedlibs.Channel.Cases.{
  send_suspend-cases, recv_suspend-cases, deliver, enqueue, SendCase, RecvCase, take_over, dequeue,
  turned_away,
}

module _ {ℓ} {A : Type ℓ} (c : Channel A) where
  -- The close notices for all who wait, senders first, each in the order of arrival.
  abbrev pub notices : List (Wake A)
  notices = map close_sender c.waiting_senders ++ map close_receiver c.waiting_receivers

  -- When the last sender goes from a channel that is open, everyone who waits is resumed exactly
  -- once, with the error, nobody waits any longer, the channel is closed, and the buffer keeps its values.
  pub sub_sender_closes :
      c.num_senders ≡ 1
      → c.is_closed ≡ false
      → let (d, wakes) = sub_sender c in
        (wakes ≡ notices)
        × (d ≡ record c {
          num_senders = 0;
          waiting_senders = [];
          waiting_receivers = [];
          is_closed = true;
        })
  unfolding sub_sender destroy
  sub_sender_closes last live = ground arith

  -- While other senders are left, or when the channel is closed, the count alone changes.
  pub sub_sender_counts :
      (c.num_senders ≢ 1) ⊎ (c.is_closed ≡ true)
      → 0 < c.num_senders
      → c.num_senders < 2 ^ 64
      → sub_sender c ≡ (record c { num_senders = c.num_senders - 1 }, [])
  unfolding sub_sender destroy
  sub_sender_counts h pos small = ground arith

  -- A sender that is added and goes again leaves an open channel as it was.
  pub sub_sender-add_sender :
      0 < c.num_senders → c.num_senders + 1 < 2 ^ 64 → sub_sender (add_sender c) ≡ (c, [])
  unfolding sub_sender add_sender
  sub_sender-add_sender pos small = ground arith

  -- The last receiver closes the channel in the same way.
  pub sub_receiver_closes :
      c.num_receivers ≡ 1
      → c.is_closed ≡ false
      → let (d, wakes) = sub_receiver c in
        (wakes ≡ notices)
        × (d ≡ record c {
          num_receivers = 0;
          waiting_senders = [];
          waiting_receivers = [];
          is_closed = true;
        })
  unfolding sub_receiver destroy
  sub_receiver_closes last live = ground arith

module _ {ℓ} {A : Type ℓ} (c : Channel A) (handle : Handle) where
  -- What a receive on a closed channel returns for a buffer that holds `held`.
  abbrev pub Drains : List A → Outcome A A → Type ℓ
  Drains [] out = out ≡ turned_away c handle
  Drains (a ∷ rest) out =
      (out.reply ≡ resumes (ok a)) × (contents out.channel.buf ≡ rest) × (out.wakes ≡ [])

  recv-Drains :
      {out : Outcome A A}
      → RecvCase c handle out
      → WellFormed c
      → c.is_closed ≡ true
      → (held : List A) → contents c.buf ≡ held
      → Drains held out
  recv-Drains (take_over sender rest e q) w shut held h = absurd (ground arith)
  recv-Drains (RecvCase.park e none_left live q) w shut held h = cc
  recv-Drains (RecvCase.refuse e none_left _ q) w shut [] h = q
  recv-Drains (RecvCase.refuse e none_left _ q) w shut (a ∷ rest) h =
      absurd (ground (arith, is_empty-contents c.buf w.valid))
  recv-Drains (dequeue value e some_left split q) w shut [] h = cc
  recv-Drains (dequeue value e some_left split q) w shut (a ∷ rest) h =
      rw q (cc (sym split ∙ h), cc (sym split ∙ h), refl)

  -- A receive on a closed channel never waits: it takes the oldest value of the buffer while there
  -- is one, and returns the error, changing nothing, once there is none.
  pub recv_suspend-Drains :
      WellFormed c
      → c.is_closed ≡ true
      → (out : Outcome A A) × (recv_suspend c handle ≡ some out) × Drains (contents c.buf) out
  recv_suspend-Drains w shut =
      let (out, e, branch) = recv_suspend-cases c handle w.valid in
      (out, e, recv-Drains branch w shut (contents c.buf) refl)

  -- A send on a closed channel is refused only when the buffer is full: with room left the value
  -- goes into the buffer and the sender is told that it was sent.
  pub send_suspend_after_close :
      (value : A)
      → WellFormed c
      → c.is_closed ≡ true
      → is_fill c.buf ≡ false
      → send_suspend c handle value
        ≡ some (record {
          reply = resumes (ok tt);
          channel = record c { buf = store c.buf value };
          wakes = [];
        })
  send_suspend_after_close value w shut gap =
      let (out, e, branch) = send_suspend-cases c handle value in e ∙ ap some (stored_out branch)
    where
      stored_out :
          {out : Outcome (Unit {0}) A}
          → SendCase c handle value out
          → out ≡ record {
            reply = resumes (ok tt);
            channel = record c { buf = store c.buf value };
            wakes = [];
          }
      stored_out (deliver receiver rest e q) = absurd (ground arith)
      stored_out (SendCase.park e full live q) = cc
      stored_out (SendCase.refuse e full _ q) = cc
      stored_out (enqueue e _ q) = q
