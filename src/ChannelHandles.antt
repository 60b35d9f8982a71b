-- ===== src/ChannelHandles.antt =====
-- zedio/sync/channel/sender.hpp and receiver.hpp: the handles of one channel. A handle is true if it
-- has the channel, and false if it was closed, moved from or destructed.
pub mod Counts
pub mod Closing
mod Tests
use zedlibs.Prelude.{
  ℕ, List, [], ◌∷◌, ◌++◌, get_elem?, set, Option, none, some, Bool, true, false, ◌==◌,
  if◌then◌else◌,
}
use zedlibs.Channel.{Channel, Wake, add_sender, sub_sender, add_receiver, sub_receiver}

-- The classes Sender and Receiver.
pub data Side : Type 0 where
  sender : Side
  receiver : Side

pub record Handles {ℓ} (A : Type ℓ) : Type ℓ where
  pub channel : Channel A
  pub senders : List Bool
  pub receivers : List Bool

-- The members that change a handle, by its position, and what they are called on: a copy, a copy
-- assignment to the first handle from the second, a move, and `close`, which is also the destructor.
pub data Act : Type 0 where
  copies : Side → ℕ → Act
  assigns : Side → ℕ → ℕ → Act
  moves : Side → ℕ → Act
  closes : Side → ℕ → Act

module _ {ℓ} {A : Type ℓ} where
  abbrev pub handles : Side → Handles A → List Bool
  handles sender s = s.senders
  handles receiver s = s.receivers

  abbrev pub put : Side → Channel A → List Bool → Handles A → Handles A
  put sender c l s = record s { channel = c; senders = l }
  put receiver c l s = record s { channel = c; receivers = l }

  abbrev pub add : Side → Channel A → Channel A
  add sender c = add_sender c
  add receiver c = add_receiver c

  abbrev pub sub : Side → Channel A → Channel A × List (Wake A)
  sub sender c = sub_sender c
  sub receiver c = sub_receiver c

  -- In each of these `none` is the use of a null pointer, or that there is no such handle.
  unfoldable pub copy_from : Side → Option Bool → Handles A → Option (Handles A × List (Wake A))
  copy_from side none s = none
  copy_from side (some false) s = none
  copy_from side (some true) s =
      some (put side (add side s.channel) (handles side s ++ true ∷ []) s, [])

  unfoldable pub move_from : Side → ℕ → Option Bool → Handles A → Option (Handles A × List (Wake A))
  move_from side i none s = none
  move_from side i (some b) s =
      some (put side s.channel (set (handles side s) i false ++ b ∷ []) s, [])

  unfoldable pub close : Side → ℕ → Option Bool → Handles A → Option (Handles A × List (Wake A))
  close side i none s = none
  close side i (some false) s = some (s, [])
  close side i (some true) s =
      let (c, wakes) = sub side s.channel in
      some (put side c (set (handles side s) i false) s, wakes)

  unfoldable pub assign :
      Side → Option Bool → Option Bool → Handles A → Option (Handles A × List (Wake A))
  assign side (some true) (some true) s =
      let (c, wakes) = sub side s.channel in some (put side (add side c) (handles side s) s, wakes)
  assign side (some true) (some false) s = none
  assign side (some true) none s = none
  assign side (some false) other s = none
  assign side none other s = none

  unfoldable pub act : Act → Handles A → Option (Handles A × List (Wake A))
  act (copies side i) s = copy_from side (get_elem? (handles side s) i) s
  act (assigns side i j) s =
      assign side (get_elem? (handles side s) i) (get_elem? (handles side s) j) s
  act (moves side i) s = move_from side i (get_elem? (handles side s) i) s
  act (closes side i) s = close side i (get_elem? (handles side s) i) s

  -- The wake-ups are those of all the acts, in their order.
  abbrev pub then_wakes :
      List (Wake A) → Option (Handles A × List (Wake A)) → Option (Handles A × List (Wake A))
  then_wakes wakes none = none
  then_wakes wakes (some (s, more)) = some (s, wakes ++ more)

  unfoldable pub run : List Act → Handles A → Option (Handles A × List (Wake A))
  run [] s = some (s, [])
  run (x ∷ acts) s = elim (act x s) [
    | none ↦ none
    | some (s', wakes) ↦ then_wakes wakes (run acts s')
  ]
