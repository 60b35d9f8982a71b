-- ===== src/Channel/Tests.antt =====
-- Inputs that meet the hypotheses of the channel's theorems, and runs of its operations.
use mathlib.Core.List.{Perm}
use zedlibs.Prelude.{ℕ, ◌≡◌, inl, inr, refl, List, [], ◌∷◌, ◌++◌, some, true, false, arith}
use zedlibs.Ring.{make, is_fill, is_empty, store, advance, safety_push, safety_pop}
use zedlibs.Ring.Contents.{contents}
use zedlibs.Channel.{
  Channel, SendAwaiter, Outcome, init, send_suspend, recv_suspend, sub_sender, destroy,
}
use zedlibs.Channel.Invariant.{WellFormed}
use zedlibs.Channel.Order.{Appends, pending, send_suspend-Appends}
use zedlibs.Channel.Close.{Drains, recv_suspend-Drains}
use zedlibs.Channel.History.{Op, sends, recvs, subs_sender, Trace, begin, run, step, run_accounts}

abbrev waiter : SendAwaiter ℕ
waiter = record { value = 6; handle = 20 }

-- Room for one; 5 is in the buffer and the sender of 6 waits.
abbrev crowded : Channel ℕ
crowded = record {
  num_senders = 1;
  num_receivers = 1;
  buf = record { start = 0; end = 1; items = 5 ∷ 0 ∷ [] };
  waiting_senders = waiter ∷ [];
  waiting_receivers = [];
  is_closed = false;
}

crowded-WellFormed : WellFormed crowded
unfolding is_fill
crowded-WellFormed = record {
  valid = omega arith;
  starving = inl refl;
  blocked = inr refl;
  released = inl refl;
}

-- The same with nobody waiting and room for one more.
abbrev quiet : Channel ℕ
quiet = record crowded {
  waiting_senders = [];
  buf = record { start = 0; end = 1; items = 5 ∷ 0 ∷ 0 ∷ [] };
}

quiet-WellFormed : WellFormed quiet
quiet-WellFormed = record {
  valid = omega arith;
  starving = inl refl;
  blocked = inl refl;
  released = inl refl;
}

abbrev shut : Channel ℕ
shut = record quiet { is_closed = true }

shut-WellFormed : WellFormed shut
shut-WellFormed = record {
  valid = omega arith;
  starving = inl refl;
  blocked = inl refl;
  released = inr (refl, refl);
}

send_suspend-Appends_example :
    (out : Outcome (Unit {0}) ℕ) × (send_suspend crowded 21 7 ≡ some out) × Appends crowded 7 out
send_suspend-Appends_example = send_suspend-Appends crowded 21 7 crowded-WellFormed

recv_suspend-Drains_example :
    (out : Outcome ℕ ℕ) × (recv_suspend shut 21 ≡ some out) × Drains shut 21 (contents shut.buf) out
recv_suspend-Drains_example = recv_suspend-Drains shut 21 shut-WellFormed refl

abbrev history : List (Op ℕ)
history = sends 1 10 ∷ sends 2 11 ∷ recvs 3 ∷ subs_sender ∷ recvs 4 ∷ recvs 5 ∷ []

run_accounts_example :
    (t : Trace ℕ) × (run (begin (init 0 1 1 1)) history ≡ some t)
    × Perm t.accepted (t.received ++ (t.kept ++ pending t.channel))
run_accounts_example = run_accounts 0 1 1 1 history (omega arith)

-- With room for one, 11 is received before 10.
received-history :
    (t : Trace ℕ) × (run (begin (init 0 1 1 1)) history ≡ some t) × (t.received ≡ 11 ∷ 10 ∷ [])
unfolding run step init make send_suspend recv_suspend sub_sender destroy is_fill is_empty
    safety_push safety_pop store advance
received-history = (_, refl, refl)
