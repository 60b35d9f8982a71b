-- ===== src/Wheel/Insert.antt =====
-- `add_entry` at every level: the entry joins those of the wheel, at its interval.
use mathlib.Core.List.{Perm, perm_middle}
use mathlib.Core.List.Perm
use native.Mathlib.Nat.{mod-lt, mod-eq_of_lt, div-add-mod, add-mul-mod_self_left}
use zedlibs.Prelude.{
  ℕ, zero, suc, ◌+◌, ◌*◌, ◌/◌, ◌%◌, ◌≤◌, ◌<◌, ◌≡◌, ◌≢◌, refl, sym, ap, ap₂, ◌∙◌, subst, List, [],
  ◌∷◌, ◌++◌, map, Option, none, some, Bool, true, false, arith, ℕ_discrete,
}
use zedlibs.Wheel.{
  Entry, Wheel, pow_loop, add_entry, empty, new_wheel, ms_per_slot, max_ms, get_index, update,
  set_bit,
}
use zedlibs.Wheel.Power.{ms_per_slot-suc, ms_per_slot_pos, get_index_lem}
use zedlibs.Wheel.Bits.{countr_zero_some}
use zedlibs.Wheel.Items.{
  Item, items, list_items, child_items, gather, delay, update_self, update_ne, gather-update_below,
}
use zedlibs.Wheel.Loop.{Agrees-update}
use zedlibs.Wheel.Expire.{IsGood, IsFull, ListFits, ChildFits}

-- An index and the time within a slot make up the time modulo the width of the wheel.
index_and_rest : (t m : ℕ) → 0 < m → t / m % 64 * m + t % m ≡ t % (m * 64)
index_and_rest t m h =
    let q : ℕ = t / m in
    let inside : ℕ = q % 64 * m + t % m in
    let split : t ≡ inside + m * 64 * (q / 64) =
      omega (arith, div-add-mod t m, ap (λ k. m * k) (div-add-mod q 64)) in
    let fits : q % 64 * m ≤ 63 * m = digit_le (q % 64) m (omega arith) in
    sym (
      ap (λ k. k % (m * 64)) split
      ∙ add-mul-mod_self_left inside (m * 64) (q / 64)
      ∙ mod-eq_of_lt (omega (arith, fits, mod-lt t h)))
  where
    digit_le : (d n : ℕ) → d < 64 → d * n ≤ 63 * n
    digit_le d n p = grind arith

delay-map : (k : ℕ) (l : List Item) → delay k l ≡ map (λ p. (k + p.0, p.1)) l
delay-map k [] = refl
delay-map k ((t, e) ∷ l) = ap (◌∷◌ (k + t, e)) (delay-map k l)

delay-perm : (k : ℕ) {l m : List Item} → Perm l m → Perm (delay k l) (delay k m)
delay-perm k {l} {m} p = rw (delay-map k l, delay-map k m) (Perm.map (λ p. (k + p.0, p.1)) p)

module _ {C : Type 0} (items_of : C → List Item) (ms : ℕ) where
  gains_here :
      (slots : ℕ → C) (k n : ℕ) (c : C) (t : ℕ) (e : Entry)
      → Perm (items_of c) ((t, e) ∷ items_of (slots k))
      → Perm
          (delay (k * ms) (items_of (update slots k c k))
            ++ gather items_of ms (update slots k c) (suc k) n)
          ((k * ms + t, e)
            ∷ (delay (k * ms) (items_of (slots k)) ++ gather items_of ms slots (suc k) n))
  gains_here slots k n c t e p =
      rw (update_self slots k c, gather-update_below items_of ms slots (suc k) n k c (omega arith))
        (Perm.append_right (gather items_of ms slots (suc k) n) (delay-perm (k * ms) p))

  -- A slot that gains an item at time `t` gains it for the wheel at that time after the slot's start.
  gather-gains :
      (slots : ℕ → C) (k n i : ℕ) (c : C) (t : ℕ) (e : Entry)
      → k ≤ i
      → i < k + n
      → Perm (items_of c) ((t, e) ∷ items_of (slots i))
      → Perm
          (gather items_of ms (update slots i c) k n)
          ((i * ms + t, e) ∷ gather items_of ms slots k n)
  unfolding gather
  gather-gains slots k zero i c t e h b p = absurd (omega arith)
  gather-gains slots k (suc n) i c t e h b p = elim (ℕ_discrete i k) [
    | yes here ↦
        subst
          (λ j.
            Perm (items_of c) ((t, e) ∷ items_of (slots j))
            → Perm
                (delay (k * ms) (items_of (update slots j c k))
                  ++ gather items_of ms (update slots j c) (suc k) n)
                ((j * ms + t, e)
                  ∷ (delay (k * ms) (items_of (slots k)) ++ gather items_of ms slots (suc k) n)))
          (sym here) (gains_here slots k n c t e) p
    | no above ↦ rw (update_ne slots i k c (λ e'. above (sym e'))) (
        Perm.trans
          (Perm.append_left (delay (k * ms) (items_of (slots k)))
            (gather-gains slots (suc k) n i c t e (omega arith) (omega arith) p))
          (perm_middle (delay (k * ms) (items_of (slots k))) (gather items_of ms slots (suc k) n)))
  ]

-- A new wheel is well formed and holds nothing.
pub new_wheel-IsGood : (level : ℕ) → IsGood level (new_wheel level)
unfolding new_wheel
new_wheel-IsGood zero = λ i h. tt
new_wheel-IsGood (suc level) = λ i h. tt

gather_empty :
    {C : Type 0} (items_of : C → List Item) (ms : ℕ) (c : C)
    → items_of c ≡ []
    → (k n : ℕ) → gather items_of ms (λ _. c) k n ≡ []
unfolding gather
gather_empty items_of ms c e k zero = refl
gather_empty items_of ms c e k (suc n) =
    ap₂ (λ l m. delay (k * ms) l ++ m) e (gather_empty items_of ms c e (suc k) n)

pub items-new_wheel : (level : ℕ) → items level (new_wheel level) ≡ []
unfolding items new_wheel
items-new_wheel zero = gather_empty list_items (ms_per_slot 0) [] refl 0 64
items-new_wheel (suc level) =
    gather_empty (child_items (items level)) (ms_per_slot (suc level)) none refl 0 64

-- What `add_entry` does to a well-formed wheel.
pub record Added (level : ℕ) (w : Wheel level) (e : Entry) (t : ℕ) (w' : Wheel level) : Type 0 where
  pub full : IsFull level w'
  pub gained : Perm (items level w') ((t % max_ms level, e) ∷ items level w)

-- The bit of the entry's slot is set, so the wheel is not empty.
zero-not-empty : (w : Wheel zero) (i : ℕ) → i < 64 → w.bitmap i ≡ true → empty zero w ≡ false
unfolding empty
zero-not-empty w i h on = ground (arith, countr_zero_some i w.bitmap h on)

pub suc-not-empty :
    (level : ℕ) (w : Wheel (suc level)) (i : ℕ)
    → i < 64
    → w.bitmap i ≡ true
    → empty (suc level) w ≡ false
unfolding empty
suc-not-empty level w i h on = ground (arith, countr_zero_some i w.bitmap h on)

get_index-lt : (level t : ℕ) → get_index level t < 64
unfolding get_index
get_index-lt level t = omega arith

slot_time_zero : (t i : ℕ) → i ≡ get_index 0 t → i * ms_per_slot 0 + 0 ≡ t % max_ms 0
unfolding ms_per_slot max_ms pow_loop
slot_time_zero t i at = omega (arith, at, get_index_lem 0 t)

slot_time_suc :
    (level t i : ℕ)
    → i ≡ get_index (suc level) t
    → i * ms_per_slot (suc level) + t % max_ms level ≡ t % max_ms (suc level)
unfolding max_ms
slot_time_suc level t i at =
    ap₂ (λ j m. j * ms_per_slot (suc level) + t % m) (at ∙ get_index_lem (suc level) t)
      (omega (arith, ms_per_slot-suc level))
    ∙ index_and_rest t (ms_per_slot (suc level)) (ms_per_slot_pos (suc level))

add_to_list :
    (w : Wheel zero) (e : Entry) (t : ℕ) (i : ℕ)
    → i ≡ get_index 0 t
    → IsGood zero w
    → Added zero w e t
        (record { bitmap = set_bit w.bitmap i; slots = update w.slots i (e ∷ w.slots i) })
unfolding items
add_to_list w e t i at g =
    let small = get_index-lt 0 t in
    record {
      full = (
        Agrees-update ListFits w i (set_bit w.bitmap i) (e ∷ w.slots i) g
            (λ j ne. update_ne w.bitmap i j true ne)
            (subst (λ b. ListFits b (e ∷ w.slots i)) (sym (update_self w.bitmap i true)) tt),
        zero-not-empty _ i (omega (arith, at, small)) (update_self w.bitmap i true),
      );
      gained =
          subst
            (λ k.
              Perm (gather list_items (ms_per_slot 0) (update w.slots i (e ∷ w.slots i)) 0 64)
                ((k, e) ∷ gather list_items (ms_per_slot 0) w.slots 0 64))
            (slot_time_zero t i at)
            (gather-gains list_items (ms_per_slot 0) w.slots 0 64 i (e ∷ w.slots i) 0 e
              (omega arith) (omega (arith, at, small)) (Perm.refl _));
    }

add_to_child :
    (level : ℕ) (w : Wheel (suc level)) (e : Entry) (t i : ℕ) (bm : ℕ → Bool)
    (child child' : Wheel level)
    → i ≡ get_index (suc level) t
    → IsGood (suc level) w
    → ((j : ℕ) → j ≢ i → bm j ≡ w.bitmap j)
    → bm i ≡ true
    → items level child ≡ child_items (items level) (w.slots i)
    → Added level child e t child'
    → Added (suc level) w e t (record { bitmap = bm; slots = update w.slots i (some child') })
unfolding items
add_to_child level w e t i bm child child' at g same on held added =
    let small = get_index-lt (suc level) t in
    let ms : ℕ = ms_per_slot (suc level) in
    record {
      full = (
        Agrees-update (ChildFits (IsFull level)) w i bm (some child') g same
            (subst (λ b. ChildFits (IsFull level) b (some child')) (sym on) added.full),
        suc-not-empty level _ i (omega (arith, at, small)) on,
      );
      gained =
          subst
            (λ k.
              Perm (gather (child_items (items level)) ms (update w.slots i (some child')) 0 64)
                ((k, e) ∷ gather (child_items (items level)) ms w.slots 0 64))
            (slot_time_suc level t i at)
            (gather-gains (child_items (items level)) ms w.slots 0 64 i (some child')
              (t % max_ms level) e (omega arith) (omega (arith, at, small))
              (subst (λ l. Perm (items level child') ((t % max_ms level, e) ∷ l)) held
                added.gained));
    }

-- The slot of a higher wheel, by what it holds.
add_to_slot :
    (level : ℕ) (w : Wheel (suc level)) (e : Entry) (t i : ℕ) (c : Option (Wheel level))
    → ((v : Wheel level) → IsGood level v → Added level v e t (add_entry level v e t))
    → i ≡ get_index (suc level) t
    → IsGood (suc level) w
    → w.slots i ≡ c
    → ChildFits (IsFull level) (w.bitmap i) c
    → Added (suc level) w e t (elim c [
      | none ↦ record w {
        bitmap = set_bit w.bitmap i;
        slots = update w.slots i (some (add_entry level (new_wheel level) e t));
      }
      | some child ↦ record w { slots = update w.slots i (some (add_entry level child e t)) }
    ])
add_to_slot level w e t i none ih at g h fit =
    add_to_child level w e t i (set_bit w.bitmap i) (new_wheel level) _ at g
      (λ j ne. update_ne w.bitmap i j true ne) (update_self w.bitmap i true)
      (items-new_wheel level ∙ sym (ap (child_items (items level)) h))
      (ih (new_wheel level) (new_wheel-IsGood level))
add_to_slot level w e t i (some child) ih at g h fit =
    let (on, full) = ChildFits-set (IsFull level) (w.bitmap i) child fit in
    add_to_child level w e t i w.bitmap child _ at g (λ j ne. refl) on
      (sym (ap (child_items (items level)) h)) (ih child full.0)
  where
    ChildFits-set :
        {C : Type 0} (P : C → Type 0) (b : Bool) (c : C) → ChildFits P b (some c) → (b ≡ true) × P c
    ChildFits-set P true c fit = (refl, fit)
    ChildFits-set P false c fit = elim fit [ ]

-- At every level `add_entry` adds the entry to a well-formed wheel at its interval, taken modulo
-- the width of the wheel, loses none of the others, and leaves the wheel well formed and not empty.
pub add_entry-Added :
    (level : ℕ) (w : Wheel level) (e : Entry) (t : ℕ)
    → IsGood level w
    → Added level w e t (add_entry level w e t)
unfolding add_entry
add_entry-Added zero w e t g = add_to_list w e t (get_index 0 t) refl g
add_entry-Added (suc level) w e t g =
    add_to_slot level w e t (get_index (suc level) t) _ (λ v. add_entry-Added level v e t) refl g
      refl (g (get_index (suc level) t) (get_index-lt (suc level) t))
