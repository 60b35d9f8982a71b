-- ===== src/Channel/Order.antt =====
-- In which order values leave a channel: first in, first out on the sending side, and on the
-- receiving side except where a waiting sender's value overtakes the buffer.
use mathlib.Core.List.{Perm, perm_middle, map-append}
use mathlib.Core.List.Perm
use zedlibs.Prelude.{
  ◌<◌, ◌≡◌, ◌⊎◌, inl, inr, refl, sym, ap, ◌∙◌, List, [], ◌∷◌, ◌++◌, map, some, true, append-nil,
  append_assoc, arith, eq-nil_of_length, cons_of_length_pos,
}
use zedlibs.Errors.{ok, err, closed_channel}
use zedlibs.Ring.{is_empty, store, capacity}
use zedlibs.Ring.Contents.{contents, contents-store, is_empty-contents, is_fill-contents}
use zedlibs.Channel.{
  Channel, SendAwaiter, Handle, Outcome, Wake, wake_sender, wake_receiver, Suspend, suspended,
  resumes, send_suspend, recv_suspend,
}
use zedlibs.Channel.Cases.{
  SendCase, RecvCase, send_suspend-cases, recv_suspend-cases, deliver, enqueue, take_over, dequeue,
  taken_from,
}
use zedlibs.Channel.Invariant.{WellFormed}

module _ {ℓ} {A : Type ℓ} where
  abbrev pub values : List (SendAwaiter A) → List A
  values = map (λ s. s.value)

  -- What is in the channel: the buffer, then the senders that wait.
  abbrev pub pending : Channel A → List A
  pending c = contents c.buf ++ values c.waiting_senders

  -- What the resumed receivers find.
  abbrev pub handed_over : List (Wake A) → List A
  handed_over [] = []
  handed_over (wake_sender _ _ ∷ ws) = handed_over ws
  handed_over (wake_receiver _ (ok v) ∷ ws) = v ∷ handed_over ws
  handed_over (wake_receiver _ (err _) ∷ ws) = handed_over ws

  -- What a receiver that goes on at once takes with it.
  abbrev pub taken : Suspend A → List A
  taken suspended = []
  taken (resumes (ok v)) = v ∷ []
  taken (resumes (err _)) = []

  no_contents : (c : Channel A) → WellFormed c → is_empty c.buf ≡ true → contents c.buf ≡ []
  no_contents c w e =
      eq-nil_of_length (contents c.buf) (ground (arith, is_empty-contents c.buf w.valid))

  -- While a receiver waits, or a sender that takes its turn first, nothing is in the channel.
  pending_nil :
      (c : Channel A)
      → WellFormed c
      → is_empty c.buf ≡ true
      → c.waiting_senders ≡ []
      → pending c ≡ []
  pending_nil c w e ws = rw (no_contents c w e, ws)

  pending-contents : (c : Channel A) → c.waiting_senders ≡ [] → pending c ≡ contents c.buf
  pending-contents c ws = rw ws (append-nil (contents c.buf))

  -- What a send that is not refused does to the values in the channel.
  abbrev pub Appends : Channel A → A → Outcome (Unit {0}) A → Type ℓ
  Appends c value out =
      (((out.reply ≡ suspended) ⊎ (out.reply ≡ resumes (ok tt)))
        × (handed_over out.wakes ++ pending out.channel ≡ pending c ++ value ∷ []))
      ⊎ ((c.is_closed ≡ true)
          × (out ≡ record { reply = resumes (err closed_channel); channel = c; wakes = [] }))

  pub send-Appends :
      {c : Channel A} {handle : Handle} {value : A} {out : Outcome (Unit {0}) A}
      → SendCase c handle value out
      → WellFormed c
      → Appends c value out
  send-Appends {c} {value} (deliver receiver rest e q) w =
      rw q (inl (inr refl, ap (◌∷◌ value) nothing ∙ sym (ap (λ l. l ++ value ∷ []) nothing)))
    where
      nothing : pending c ≡ []
      nothing = ground (arith, pending_nil c w, e)
  send-Appends {c} {value} (SendCase.park e full live q) w = rw q (
      inl (
        inl refl,
        rw map-append (sym (append_assoc (contents c.buf) (values c.waiting_senders) (value ∷ []))),
      ))
  send-Appends (SendCase.refuse e full shut q) w = inr (shut, q)
  send-Appends {c} {value} (enqueue e gap q) w = rw q (
      inl (
        inr refl,
        pending-contents (record c { buf = store c.buf value }) no_senders
            ∙ contents-store c.buf w.valid value gap
            ∙ ap (λ l. l ++ value ∷ []) (sym (pending-contents c no_senders)),
      ))
    where
      no_senders : c.waiting_senders ≡ []
      no_senders = ground arith

  -- Unless the channel is closed, a send on a well-formed channel puts its value behind all those
  -- that are in the channel, or hands it to a waiting receiver when there are none; a send that is refused changes nothing.
  pub send_suspend-Appends :
      (c : Channel A) (handle : Handle) (value : A)
      → WellFormed c
      → (out : Outcome (Unit {0}) A) × (send_suspend c handle value ≡ some out)
        × Appends c value out
  send_suspend-Appends c handle value w =
      let (out, e, branch) = send_suspend-cases c handle value in (out, e, send-Appends branch w)

  pub recv-perm :
      {c : Channel A} {handle : Handle} {out : Outcome A A}
      → RecvCase c handle out
      → WellFormed c
      → Perm (pending c) (taken out.reply ++ pending out.channel)
  recv-perm {c} (take_over sender rest e q) w =
      rw q (rw e (perm_middle (contents c.buf) (values rest)))
  recv-perm (RecvCase.park e none_left live q) w = rw q (Perm.refl _)
  recv-perm (RecvCase.refuse e none_left shut q) w = rw q (Perm.refl _)
  recv-perm {c} (dequeue value e some_left split q) w = rw q (rw split (Perm.refl _))

  -- What a receive takes at once was in the channel, and it leaves all the rest there.
  pub recv_suspend-perm :
      (c : Channel A) (handle : Handle)
      → WellFormed c
      → (out : Outcome A A) × (recv_suspend c handle ≡ some out)
        × Perm (pending c) (taken out.reply ++ pending out.channel)
  recv_suspend-perm c handle w =
      let (out, e, branch) = recv_suspend-cases c handle w.valid in (out, e, recv-perm branch w)

  recv-fifo :
      {c : Channel A} {handle : Handle} {out : Outcome A A}
      → RecvCase c handle out
      → (contents c.buf ≡ []) ⊎ (c.waiting_senders ≡ [])
      → taken out.reply ++ pending out.channel ≡ pending c
  recv-fifo (take_over sender rest e q) h = elim h [
    | inl nothing ↦ rw q (rw (nothing, e))
    | inr nobody ↦ cc
  ]
  recv-fifo (RecvCase.park e none_left live q) h = rw q
  recv-fifo (RecvCase.refuse e none_left shut q) h = rw q
  recv-fifo (dequeue value e some_left split q) h = rw (q, split)

  -- Where no sender waits, or the buffer is empty, a receive takes the oldest value.
  pub recv_suspend-fifo :
      (c : Channel A) (handle : Handle)
      → WellFormed c
      → (contents c.buf ≡ []) ⊎ (c.waiting_senders ≡ [])
      → (out : Outcome A A) × (recv_suspend c handle ≡ some out)
        × (taken out.reply ++ pending out.channel ≡ pending c)
  recv_suspend-fifo c handle w h =
      let (out, e, branch) = recv_suspend-cases c handle w.valid in (out, e, recv-fifo branch h)

  -- A channel with a buffer is not first in, first out: while a sender waits, the buffer holds
  -- values that were sent earlier, and a receive takes the waiting sender's value past them.
  pub recv_suspend_overtakes :
      (c : Channel A) (handle : Handle) (sender : SendAwaiter A) (rest : List (SendAwaiter A))
      → WellFormed c
      → c.waiting_senders ≡ sender ∷ rest
      → 0 < capacity c.buf
      → (oldest : A) × (younger : List A) × (contents c.buf ≡ oldest ∷ younger)
        × (recv_suspend c handle ≡ some (taken_from c handle rest sender))
  unfolding recv_suspend
  recv_suspend_overtakes c handle sender rest w e room =
      let (oldest, younger, split) =
        cons_of_length_pos (contents c.buf) (ground (arith, is_fill-contents c.buf w.valid)) in
      (oldest, younger, split, ground arith)
