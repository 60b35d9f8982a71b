-- ===== src/ChannelHandles/Tests.antt =====
-- A channel with one handle of each side.
use zedlibs.Prelude.{
  ℕ, ◌+◌, ◌^◌, ◌<◌, ◌≡◌, refl, List, [], ◌∷◌, length, Option, none, some, Bool, true, false, arith,
}
use Prim.{tt}
use zedlibs.Channel.{Wake, add_sender, sub_sender, destroy}
use zedlibs.ChannelHandles.{
  Side, sender, receiver, handles, Handles, Act, copies, assigns, closes, copy_from, close, assign,
  act, run,
}
use zedlibs.ChannelHandles.Counts.{live, num, bit, IsCounted}
use zedlibs.ChannelHandles.Closing.{IsPlain, ArePlain, HasRoom, run-IsCounted}

abbrev made : Handles ℕ
made = record {
  channel = record {
    num_senders = 1;
    num_receivers = 1;
    buf = record { start = 0; end = 0; items = 0 ∷ 0 ∷ [] };
    waiting_senders = [];
    waiting_receivers = [];
    is_closed = false;
  };
  senders = true ∷ [];
  receivers = true ∷ [];
}

made-IsCounted : IsCounted made
unfolding live bit
made-IsCounted = record { counts = each; closed = refl }
  where
    each : (side : Side) → num side made.channel ≡ live (handles side made)
    each sender = refl
    each receiver = refl

-- The sender is copied and closed, and then the copy is closed.
abbrev ends : List Act
ends = copies sender 0 ∷ closes sender 0 ∷ closes sender 1 ∷ []

ends-ArePlain : ArePlain ends
unfolding ArePlain IsPlain
ends-ArePlain = (tt, (tt, (tt, tt)))

made-HasRoom : HasRoom (length ends) made
made-HasRoom = record { room = each }
  where
    each : (side : Side) → length (handles side made) + length ends < 2 ^ 64
    each sender = omega arith
    each receiver = omega arith

abbrev closed : Handles ℕ
closed = record {
  channel = record {
    num_senders = 0;
    num_receivers = 1;
    buf = record { start = 0; end = 0; items = 0 ∷ 0 ∷ [] };
    waiting_senders = [];
    waiting_receivers = [];
    is_closed = true;
  };
  senders = false ∷ false ∷ [];
  receivers = true ∷ [];
}

after_ends : run ends made ≡ some (closed, [])
unfolding run act copy_from close add_sender sub_sender destroy
after_ends = refl

run-IsCounted_example : IsCounted closed
run-IsCounted_example =
    run-IsCounted ends made closed [] ends-ArePlain made-IsCounted made-HasRoom after_ends

-- The only sender is assigned to itself: it still has the channel, which is closed.
abbrev shut : Option (Handles ℕ × List (Wake ℕ)) → Option (Bool × List Bool)
shut none = none
shut (some (s, wakes)) = some (s.channel.is_closed, s.senders)

self_assigned : shut (act (assigns sender 0 0) made) ≡ some (true, true ∷ [])
unfolding act assign add_sender sub_sender destroy
self_assigned = refl
