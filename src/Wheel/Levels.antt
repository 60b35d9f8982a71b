-- ===== src/Wheel/Levels.antt =====
-- `level_up`, `can_level_down` and `level_down`: a wheel as the first slot of the next one.
use zedlibs.Prelude.{
  ℕ, suc, ◌*◌, ◌≤◌, ◌<◌, ◌≡◌, refl, sym, ap, ap₂, ◌∙◌, subst, [], ◌++◌, Option, none, some, Bool,
  true, false, arith, append-nil,
}
use zedlibs.Wheel.{
  Wheel, ms_per_slot, level_up, level_down, can_level_down, first_bit, no_bits, set_bit, update,
}
use zedlibs.Wheel.Bits.{first_bit-none}
use zedlibs.Wheel.Items.{items, child_items, gather, delay, update_ne}
use zedlibs.Wheel.Loop.{Agrees-update}
use zedlibs.Wheel.Expire.{IsGood, IsFull, ChildFits, child_nothing}
use zedlibs.Wheel.Insert.{suc-not-empty}
use zedlibs.Wheel.Rotate.{gather-nothing, delay_zero}

-- Only the first slot holds anything.
first_slot_only :
    (level : ℕ) (slots : ℕ → Option (Wheel level)) (child : Wheel level)
    → slots 0 ≡ some child
    → ((j : ℕ) → 1 ≤ j → j < 64 → child_items (items level) (slots j) ≡ [])
    → gather (child_items (items level)) (ms_per_slot (suc level)) slots 0 64 ≡ items level child
unfolding gather
first_slot_only level slots child h rest =
    let start : 0 * ms_per_slot (suc level) ≡ 0 = omega arith in
    ap₂
      (λ k l. delay k l ++ gather (child_items (items level)) (ms_per_slot (suc level)) slots 1 63)
      start (ap (child_items (items level)) h)
    ∙ ap (λ m. delay 0 (items level child) ++ m)
        (gather-nothing (child_items (items level)) (ms_per_slot (suc level)) slots 1 63 rest)
    ∙ append-nil (delay 0 (items level child))
    ∙ delay_zero (items level child)

-- A wheel that stands for another one level above or below: it holds the same.
pub record SameItems (level level' : ℕ) (w : Wheel level) (w' : Wheel level') : Type 0 where
  pub full : IsFull level' w'
  pub kept : items level' w' ≡ items level w

-- `level_up` of a well-formed wheel that is not empty returns a well-formed wheel that is not empty,
-- with the same entries at the same intervals.
pub level_up-SameItems :
    (level : ℕ) (w : Wheel level)
    → IsFull level w
    → SameItems level (suc level) w (level_up level w)
unfolding items level_up
level_up-SameItems level w full = record {
  full = (
    Agrees-update (ChildFits (IsFull level)) (record { bitmap = no_bits; slots = λ _. none }) 0
        (set_bit no_bits 0) (some w) (λ i p. tt) (λ i ne. update_ne no_bits 0 i true ne) full,
    suc-not-empty level _ 0 (omega arith) refl,
  );
  kept = first_slot_only level (update (λ _. none) 0 (some w)) w refl (λ j p q.
      ap (child_items (items level))
        (update_ne (λ _. none) 0 j (some w) (λ e. absurd (omega (arith, e)))));
}

-- What `level_down` returns.
pub record LevelDown (level : ℕ) (w : Wheel (suc level)) (out : Option (Wheel level)) : Type 0 where
  pub child : Wheel level
  pub found : out ≡ some child
  pub same : SameItems (suc level) level w child

child_set :
    {C : Type 0} (P : C → Type 0) (b : Bool) (c : Option C)
    → b ≡ true
    → ChildFits P b c
    → (child : C) × (c ≡ some child) × P child
child_set P false c e fit = absurd (ground (arith, e))
child_set P true none e fit = elim fit [ ]
child_set P true (some c) e fit = (c, refl, fit)

-- When `can_level_down` says so, `level_down` of a well-formed wheel returns a well-formed wheel
-- that is not empty, with the same entries at the same intervals.
pub level_down-LevelDown :
    (level : ℕ) (w : Wheel (suc level))
    → IsGood (suc level) w
    → can_level_down level w ≡ true
    → LevelDown level w (level_down level w)
unfolding can_level_down level_down items
level_down-LevelDown level w g can =
    let (child, here, full) =
      child_set (IsFull level) (w.bitmap 0) (w.slots 0) (ground (arith, can)) (g 0 (omega arith)) in
    let only : first_bit 63 1 w.bitmap ≡ none = ground (arith, can) in
    record {
      child = child;
      found = here;
      same = record {
        full = full;
        kept = sym (
            first_slot_only level w.slots child here (λ j p q.
              child_nothing (IsFull level) (items level) (w.slots j) (
                subst (λ b. ChildFits (IsFull level) b (w.slots j))
                  (first_bit-none 63 1 j w.bitmap only p (omega arith)) (g j q))));
      };
    }
