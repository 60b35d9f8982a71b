-- ===== src/Channel/Cases.antt =====
-- The branches of the two `await_suspend`s, as relations between the channel and the outcome.
use native.Mathlib.Omega.{arith}
use zedlibs.Prelude.{◌≡◌, inl, inr, refl, List, [], ◌∷◌, ◌++◌, some, true, false, Bool-cases}
use zedlibs.Errors.{ok, err, closed_channel}
use zedlibs.Ring.{HeapRingBuffer, is_fill, is_empty, safety_push, safety_pop, store, advance}
use zedlibs.Ring.Inv.{IsValid}
use zedlibs.Ring.Contents.{contents, contents-advance}
use zedlibs.Channel.{
  Channel, SendAwaiter, Handle, Outcome, wake_receiver, wake_sender, suspended, resumes,
  send_suspend, recv_suspend,
}

module _ {ℓ} {A : Type ℓ} where
  safety_push-store :
      (b : HeapRingBuffer A) (a : A) → is_fill b ≡ false → safety_push b a ≡ some (store b a)
  unfolding safety_push
  safety_push-store b a e = rw e

  safety_pop-advance :
      (b : HeapRingBuffer A) (v : IsValid b) (e : is_empty b ≡ false)
      → safety_pop b ≡ some ((contents-advance b v e).0, advance b)
  unfolding safety_pop
  safety_pop-advance b v e = rw (e, (contents-advance b v e).1)

module _ {ℓ} {A : Type ℓ} (c : Channel A) (handle : Handle) where
  abbrev pub delivered_to : List Handle → Handle → A → Outcome (Unit {0}) A
  delivered_to rest receiver value = record {
    reply = resumes (ok tt);
    channel = record c { waiting_receivers = rest };
    wakes = wake_receiver receiver (ok value) ∷ [];
  }

  abbrev pub parked_sender : A → Outcome (Unit {0}) A
  parked_sender value = record {
    reply = suspended;
    channel = record c {
      waiting_senders = c.waiting_senders ++ record { value = value; handle = handle } ∷ [];
    };
    wakes = [];
  }

  abbrev pub stored : A → Outcome (Unit {0}) A
  stored value = record {
    reply = resumes (ok tt);
    channel = record c { buf = store c.buf value };
    wakes = [];
  }

  abbrev pub turned_away {κ} : {R : Type κ} → Outcome R A
  turned_away = record { reply = resumes (err closed_channel); channel = c; wakes = [] }

  pub data SendCase (value : A) (out : Outcome (Unit {0}) A) : Type ℓ where
    deliver :
        (receiver : Handle) (rest : List Handle)
        → c.waiting_receivers ≡ receiver ∷ rest
        → out ≡ delivered_to rest receiver value
        → SendCase value out
    park :
        c.waiting_receivers ≡ []
        → is_fill c.buf ≡ true
        → c.is_closed ≡ false
        → out ≡ parked_sender value
        → SendCase value out
    refuse :
        c.waiting_receivers ≡ []
        → is_fill c.buf ≡ true
        → c.is_closed ≡ true
        → out ≡ turned_away
        → SendCase value out
    enqueue :
        c.waiting_receivers ≡ [] → is_fill c.buf ≡ false → out ≡ stored value → SendCase value out

  -- The sender's `await_suspend` takes one of these branches.
  pub send_suspend-cases :
      (value : A)
      → (out : Outcome (Unit {0}) A) × (send_suspend c handle value ≡ some out) × SendCase value out
  unfolding send_suspend
  send_suspend-cases value = by_receivers c.waiting_receivers refl
    where
      by_receivers :
          (wr : List Handle)
          → c.waiting_receivers ≡ wr
          → (out : Outcome (Unit {0}) A) × (send_suspend c handle value ≡ some out)
            × SendCase value out
      by_receivers (receiver ∷ rest) e =
          (delivered_to rest receiver value, ground arith, deliver receiver rest e refl)
      by_receivers [] e = elim (Bool-cases (is_fill c.buf)) [
        | inr gap ↦
            (stored value, ground (arith, safety_push-store c.buf value gap), enqueue e gap refl)
        | inl full ↦ elim (Bool-cases c.is_closed) [
          | inl shut ↦ (turned_away, ground arith, refuse e full shut refl)
          | inr live ↦ (parked_sender value, ground arith, park e full live refl)
        ]
      ]

  abbrev pub taken_from : List (SendAwaiter A) → SendAwaiter A → Outcome A A
  taken_from rest sender = record {
    reply = resumes (ok sender.value);
    channel = record c { waiting_senders = rest };
    wakes = wake_sender sender.handle (ok tt) ∷ [];
  }

  abbrev pub parked_receiver : Outcome A A
  parked_receiver = record {
    reply = suspended;
    channel = record c { waiting_receivers = c.waiting_receivers ++ handle ∷ [] };
    wakes = [];
  }

  abbrev pub popped : A → Outcome A A
  popped value = record {
    reply = resumes (ok value);
    channel = record c { buf = advance c.buf };
    wakes = [];
  }

  pub data RecvCase (out : Outcome A A) : Type ℓ where
    take_over :
        (sender : SendAwaiter A) (rest : List (SendAwaiter A))
        → c.waiting_senders ≡ sender ∷ rest
        → out ≡ taken_from rest sender
        → RecvCase out
    park :
        c.waiting_senders ≡ []
        → is_empty c.buf ≡ true
        → c.is_closed ≡ false
        → out ≡ parked_receiver
        → RecvCase out
    refuse :
        c.waiting_senders ≡ []
        → is_empty c.buf ≡ true
        → c.is_closed ≡ true
        → out ≡ turned_away
        → RecvCase out
    dequeue :
        (value : A)
        → c.waiting_senders ≡ []
        → is_empty c.buf ≡ false
        → contents c.buf ≡ value ∷ contents (advance c.buf)
        → out ≡ popped value
        → RecvCase out

  -- So does the receiver's, on a channel whose buffer is valid.
  pub recv_suspend-cases :
      IsValid c.buf → (out : Outcome A A) × (recv_suspend c handle ≡ some out) × RecvCase out
  unfolding recv_suspend
  recv_suspend-cases v = by_senders c.waiting_senders refl
    where
      by_senders :
          (ws : List (SendAwaiter A))
          → c.waiting_senders ≡ ws
          → (out : Outcome A A) × (recv_suspend c handle ≡ some out) × RecvCase out
      by_senders (sender ∷ rest) e =
          (taken_from rest sender, ground arith, take_over sender rest e refl)
      by_senders [] e = elim (Bool-cases (is_empty c.buf)) [
        | inr some_left ↦ (
          popped (contents-advance c.buf v some_left).0,
          ground (arith, safety_pop-advance c.buf v some_left),
          dequeue _ e some_left (contents-advance c.buf v some_left).2 refl,
        )
        | inl none_left ↦ elim (Bool-cases c.is_closed) [
          | inl shut ↦ (turned_away, ground arith, refuse e none_left shut refl)
          | inr live ↦ (parked_receiver, ground arith, park e none_left live refl)
        ]
      ]
