-- ===== src/Wheel/Rotate.antt =====
-- `rotate` at every level: the wheel's start moves on by whole slots.
use zedlibs.Prelude.{
  ℕ, zero, suc, ◌+◌, ◌-◌, ◌*◌, ◌≤◌, ◌<◌, ◌≡◌, refl, sym, ap, ap₂, ◌∙◌, subst, List, [], ◌∷◌, ◌++◌,
  Option, some, Bool, true, false, ltb, ◌==◌, if◌then◌else◌, arith, append_assoc, append-nil,
  dec_lt,
}
use zedlibs.Wheel.{Node, shift_right, move_slots, rotate_node}
use zedlibs.Wheel.Items.{Item, gather, delay}
use zedlibs.Wheel.Loop.{Agrees}

pub delay-append : (k : ℕ) (l m : List Item) → delay k (l ++ m) ≡ delay k l ++ delay k m
delay-append k [] m = refl
delay-append k ((t, e) ∷ l) m = ap (◌∷◌ (k + t, e)) (delay-append k l m)

pub delay-delay : (j k : ℕ) (l : List Item) → delay j (delay k l) ≡ delay (k + j) l
delay-delay j k [] = refl
delay-delay j k ((t, e) ∷ l) =
    let time : j + (k + t) ≡ k + j + t = omega arith in
    ap₂ (λ u m. (u, e) ∷ m) time (delay-delay j k l)

pub delay_zero : (l : List Item) → delay 0 l ≡ l
delay_zero [] = refl
delay_zero ((t, e) ∷ l) =
    let time : 0 + t ≡ t = omega arith in ap₂ (λ u m. (u, e) ∷ m) time (delay_zero l)

module _ {C : Type 0} (items_of : C → List Item) (ms : ℕ) where
  -- Slots that hold nothing.
  pub gather-nothing :
      (slots : ℕ → C) (k n : ℕ)
      → ((j : ℕ) → k ≤ j → j < k + n → items_of (slots j) ≡ [])
      → gather items_of ms slots k n ≡ []
  unfolding gather
  gather-nothing slots k zero h = refl
  gather-nothing slots k (suc n) h =
      ap₂ (λ l m. delay (k * ms) l ++ m) (h k (omega arith) (omega arith))
        (gather-nothing slots (suc k) n (λ j p q. h j (omega arith) (omega arith)))

  pub gather-split :
      (slots : ℕ → C) (k m n all : ℕ)
      → all ≡ m + n
      → gather items_of ms slots k all
        ≡ gather items_of ms slots k m ++ gather items_of ms slots (k + m) n
  unfolding gather
  gather-split slots k zero n all h =
      ap₂ (gather items_of ms slots) {x = k} (omega arith) (omega arith)
  gather-split slots k (suc m) n zero h = absurd (omega arith)
  gather-split slots k (suc m) n (suc all) h =
      let next : suc k + m ≡ k + suc m = omega arith in
      ap (λ l. delay (k * ms) (items_of (slots k)) ++ l)
        (gather-split slots (suc k) m n all (omega arith))
      ∙ sym (
          append_assoc (delay (k * ms) (items_of (slots k))) (gather items_of ms slots (suc k) m)
            (gather items_of ms slots (suc k + m) n))
      ∙ ap
          (λ i.
            (delay (k * ms) (items_of (slots k)) ++ gather items_of ms slots (suc k) m)
            ++ gather items_of ms slots i n)
          next

  -- Slots that stand `s` places lower hold the same, earlier by the width of `s` slots.
  pub gather-shift :
      (before after : ℕ → C) (s k n : ℕ)
      → ((j : ℕ) → k ≤ j → j < k + n → after j ≡ before (j + s))
      → delay (s * ms) (gather items_of ms after k n) ≡ gather items_of ms before (k + s) n
  unfolding gather
  gather-shift before after s k zero h = refl
  gather-shift before after s k (suc n) h =
      let next : suc k + s ≡ suc (k + s) = omega arith in
      let start : k * ms + s * ms ≡ (k + s) * ms = grind arith in
      delay-append (s * ms) (delay (k * ms) (items_of (after k)))
        (gather items_of ms after (suc k) n)
      ∙ ap₂ (λ l m. l ++ m)
          (delay-delay (s * ms) (k * ms) (items_of (after k))
            ∙ ap₂ (λ i c. delay i (items_of c)) start (h k (omega arith) (omega arith)))
          (gather-shift before after s (suc k) n (λ j p q. h j (omega arith) (omega arith)))
      ∙ ap (λ i. delay ((k + s) * ms) (items_of (before (k + s))) ++ gather items_of ms before i n)
          next

-- The slots when those from `s` up to `i` have moved `s` places down.
abbrev moved : {C : Type 0} → C → (ℕ → C) → ℕ → ℕ → ℕ → C
moved null before s i j =
    if ltb (j + s) i then before (j + s) else if ltb j i then null else before j

-- What the loop of `rotate` leaves.
record Moved {C : Type 0} (null : C) (before : ℕ → C) (s : ℕ) (out : Option (ℕ → C)) : Type 0 where
  slots : ℕ → C
  found : out ≡ some slots
  place : (j : ℕ) → j < 64 → slots j ≡ moved null before s 64 j

module _ {C : Type 0} (is_null : C → Bool) (null : C) (null-IsNull : is_null null ≡ true)
    (before : ℕ → C) (s : ℕ) (pos : 0 < s) where
  move_step :
      (i : ℕ) (now : ℕ → C)
      → s ≤ i
      → i < 64
      → ((j : ℕ) → j < 64 → now j ≡ moved null before s i j)
      → (j : ℕ) → j < 64
      → (if j == i - s then now i else if j == i then null else now j)
        ≡ moved null before s (suc i) j
  move_step i now h b e j p = ground (arith, e i b, e j p)

  move_slots-Moved :
      (n i : ℕ) (now : ℕ → C)
      → s ≤ i
      → i + n ≡ 64
      → ((j : ℕ) → j < 64 → now j ≡ moved null before s i j)
      → Moved null before s (move_slots is_null null s n i now)
  unfolding move_slots
  move_slots-Moved zero i now h b e = record {
    slots = now;
    found = refl;
    place = λ j p. e j p ∙ ap (λ k. moved null before s k j) {x = i} {y = 64} (omega arith);
  }
  move_slots-Moved (suc n) i now h b e =
      let free : is_null (now (i - s)) ≡ true =
        ap is_null (e (i - s) (omega arith) ∙ ground arith) ∙ null-IsNull in
      rw free (
        move_slots-Moved n (suc i) _ (omega arith) (omega arith)
          (move_step i now h (omega arith) e))

-- What `rotate` by `n` slots returns: the wheel whose start has moved on by the width of `n` slots.
pub record Rotated {C : Type 0} (items_of : C → List Item) (Fits : Bool → C → Type 0) (ms : ℕ)
    (w : Node C) (n : ℕ) (out : Option (Node C)) : Type 0 where
  pub node : Node C
  pub found : out ≡ some node
  pub agrees : Agrees Fits node
  pub kept : delay (n * ms) (gather items_of ms node.slots 0 64) ≡ gather items_of ms w.slots 0 64

module _ {C : Type 0} (items_of : C → List Item) (Fits : Bool → C → Type 0) (ms : ℕ) (null : C)
    (free : Fits false null) (only : (c : C) → Fits false c → c ≡ null)
    (nothing : items_of null ≡ []) (w : Node C) (n : ℕ) (pos : 0 < n) (small : n < 64)
    (a : Agrees Fits w) (low : (j : ℕ) → j < n → w.bitmap j ≡ false) where
  low_null : (j : ℕ) → j < n → w.slots j ≡ null
  low_null j h = only (w.slots j) (subst (λ b. Fits b (w.slots j)) (low j h) (a j (omega arith)))

  moved_first : (j : ℕ) → j < 64 → w.slots j ≡ moved null w.slots n n j
  moved_first j p = elim (dec_lt j n) [ yes h ↦ low_null j h ∙ ground arith | no h ↦ ground arith ]

  module _ (slots : ℕ → C) (place : (j : ℕ) → j < 64 → slots j ≡ moved null w.slots n 64 j) where
    moved_in : (j : ℕ) → j + n < 64 → slots j ≡ w.slots (j + n)
    moved_in j h = place j (omega arith) ∙ ground arith

    moved_out : (j : ℕ) → j < 64 → 64 ≤ j + n → slots j ≡ null
    moved_out j p h = place j p ∙ ground arith

    Agrees-moved : Agrees Fits (record { bitmap = shift_right w.bitmap n; slots = slots })
    Agrees-moved j p = elim (dec_lt (j + n) 64) [
      | yes h ↦ rw (moved_in j h) (ground (arith, a (j + n) h))
      | no h ↦ rw (moved_out j p (omega arith)) (ground (arith, free))
    ]

    gather-moved : delay (n * ms) (gather items_of ms slots 0 64) ≡ gather items_of ms w.slots 0 64
    gather-moved =
        let rest : ℕ = 64 - n in
        ap (delay (n * ms)) (
          gather-split items_of ms slots 0 rest n 64 (omega arith)
          ∙ ap (λ l. gather items_of ms slots 0 rest ++ l)
              (gather-nothing items_of ms slots (0 + rest) n
                (λ j p q. ap items_of (moved_out j (omega arith) (omega arith)) ∙ nothing))
          ∙ append-nil (gather items_of ms slots 0 rest))
        ∙ gather-shift items_of ms w.slots slots n 0 rest (λ j p q. moved_in j (omega arith))
        ∙ sym (
            gather-split items_of ms w.slots 0 n rest 64 (omega arith)
            ∙ ap (λ l. l ++ gather items_of ms w.slots (0 + n) rest)
                (gather-nothing items_of ms w.slots 0 n
                  (λ j p q. ap items_of (low_null j (omega arith)) ∙ nothing)))

  -- No assertion fails in a rotation by `n` slots when the first `n` slots are free.
  pub rotate_node-Rotated :
      (is_null : C → Bool)
      → is_null null ≡ true
      → Rotated items_of Fits ms w n (rotate_node is_null null w n)
  rotate_node-Rotated is_null null-IsNull =
      let m =
        move_slots-Moved is_null null null-IsNull w.slots n pos (64 - n) n w.slots (omega arith)
          (omega arith) moved_first in
      let inside : ltb n 64 ≡ true = ground arith in
      rw (inside, m.found)
        (record {
          node = record { bitmap = shift_right w.bitmap n; slots = m.slots };
          found = refl;
          agrees = Agrees-moved m.slots m.place;
          kept = gather-moved m.slots m.place;
        })
