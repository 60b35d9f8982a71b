-- ===== src/Wheel/Shift.antt =====
-- `rotate` at every level on a wheel whose entries are all at or after its new start.
use zedlibs.Prelude.{
  ℕ, zero, suc, ◌+◌, ◌-◌, ◌*◌, ◌≤◌, ◌<◌, ◌≡◌, refl, ap, ◌∙◌, inl, inr, subst, List, [], ◌∷◌, ◌++◌,
  Option, none, some, Bool, true, false, arith, Bool-cases,
}
use zedlibs.Wheel.{Entry, Node, Wheel, empty, ms_per_slot, max_ms, is_null, is_none, rotate}
use zedlibs.Wheel.Power.{ms_per_slot_pos}
use zedlibs.Wheel.Items.{Item, items, list_items, child_items, gather, delay, AllFrom}
use zedlibs.Wheel.Loop.{Agrees}
use zedlibs.Wheel.Expire.{IsGood, IsFull, ListFits, ChildFits, items-empty}
use zedlibs.Wheel.Next.{items-AllBelow, max_ms_child, first_below, next_expiration_time-IsNext}
use zedlibs.Wheel.Rotate.{gather-split, rotate_node-Rotated}

-- An item below `m` stands at the head.
record HasFirst (m : ℕ) (l : List Item) : Type 0 where
  time : ℕ
  first : Entry
  others : List Item
  held : l ≡ (time, first) ∷ others
  early : time < m

list_first : (m : ℕ) → 0 < m → (c : List Entry) → ListFits true c → HasFirst m (list_items c)
list_first m h [] fit = elim fit [ ]
list_first m h (e ∷ l) fit = record {
  time = 0;
  first = e;
  others = list_items l;
  held = refl;
  early = h;
}

wheel_first :
    (level : ℕ) (w : Wheel level) → IsFull level w → HasFirst (max_ms level) (items level w)
wheel_first level w full =
    let next = next_expiration_time-IsNext level w full.0 full.1 in
    record {
      time = next.time;
      first = next.first;
      others = next.others;
      held = next.held;
      early =
          first_below next.time (max_ms level) next.first next.others (items level w) next.held
            (items-AllBelow level w);
    }

child_first :
    (level : ℕ) (c : Option (Wheel level))
    → ChildFits (IsFull level) true c
    → HasFirst (ms_per_slot (suc level)) (child_items (items level) c)
child_first level none fit = elim fit [ ]
child_first level (some w) fit =
    subst (λ m. HasFirst m (items level w)) (max_ms_child level) (wheel_first level w fit)

AllFrom-right : (m : ℕ) (l n : List Item) → AllFrom m (l ++ n) → AllFrom m n
AllFrom-right m [] n a = a
AllFrom-right m ((t, e) ∷ l) n a = AllFrom-right m l n a.1

slots_le : (j n m : ℕ) → j < n → j * m + m ≤ n * m
slots_le j n m h = grind arith

-- Where all items are at or after the start of slot `n`, the slots before it are free.
low_free :
    {C : Type 0} (items_of : C → List Item) (Fits : Bool → C → Type 0) (ms : ℕ)
    → ((c : C) → Fits true c → HasFirst ms (items_of c))
    → (w : Node C) (n : ℕ) → n < 64
    → Agrees Fits w
    → AllFrom (n * ms) (gather items_of ms w.slots 0 64)
    → (j : ℕ) → j < n
    → w.bitmap j ≡ false
unfolding gather
low_free items_of Fits ms some_first w n small a late j h = elim (Bool-cases (w.bitmap j)) [
  | inl on ↦
      let has = some_first (w.slots j) (subst (λ b. Fits b (w.slots j)) on (a j (omega arith))) in
      let above : ℕ = 63 - j in
      let at_j : 0 + j ≡ j = omega arith in
      let all =
        gather-split items_of ms w.slots 0 j (suc above) 64 (omega arith)
        ∙ ap (λ i. gather items_of ms w.slots 0 j ++ gather items_of ms w.slots i (suc above)) at_j
        ∙ ap
            (λ l.
              gather items_of ms w.slots 0 j
              ++ (delay (j * ms) l ++ gather items_of ms w.slots (suc j) above))
            has.held in
      let from =
        AllFrom-right (n * ms) (gather items_of ms w.slots 0 j) _
          (subst (AllFrom (n * ms)) all late) in
      absurd (omega (arith, from.0, has.early, slots_le j n ms h))
  | inr off ↦ off
]

-- What `rotate` returns at every level.
pub record Shifted (level : ℕ) (w : Wheel level) (n : ℕ) (out : Option (Wheel level)) : Type 0 where
  pub wheel : Wheel level
  pub found : out ≡ some wheel
  pub full : IsFull level wheel
  pub kept : delay (n * ms_per_slot level) (items level wheel) ≡ items level w

-- A wheel that holds what a wheel holds that is not empty is not empty.
stays-IsFull :
    (level : ℕ) (w w' : Wheel level) (k : ℕ)
    → IsFull level w
    → IsGood level w'
    → delay k (items level w') ≡ items level w
    → IsFull level w'
stays-IsFull level w w' k full good kept = elim (Bool-cases (empty level w')) [
  | inl gone ↦
      let has = wheel_first level w full in
      absurd (ground (arith, ap (delay k) (items-empty level w' good gone), kept, has.held))
  | inr stays ↦ (good, stays)
]

list_only : (c : List Entry) → ListFits false c → c ≡ []
list_only [] fit = refl
list_only (e ∷ l) fit = elim fit [ ]

child_only : {C : Type 0} (P : C → Type 0) (c : Option C) → ChildFits P false c → c ≡ none
child_only P none fit = refl
child_only P (some c) fit = elim fit [ ]

-- At every level a rotation by `n` slots, `0 < n < 64`, of a well-formed wheel that is not empty and has no entry
-- before slot `n` fails no assertion, keeps every entry, its interval less by the width of `n`
-- slots, and leaves the wheel well formed and not empty.
pub rotate-Shifted :
    (level : ℕ) (w : Wheel level) (n : ℕ)
    → 0 < n
    → n < 64
    → IsFull level w
    → AllFrom (n * ms_per_slot level) (items level w)
    → Shifted level w n (rotate level w n)
unfolding rotate items
rotate-Shifted zero w n pos small full late =
    let ms : ℕ = ms_per_slot 0 in
    let low =
      low_free list_items ListFits ms (list_first ms (ms_per_slot_pos 0)) w n small full.0 late in
    let res =
      rotate_node-Rotated list_items ListFits ms [] tt list_only refl w n pos small full.0 low
        is_null refl in
    record {
      wheel = res.node;
      found = res.found;
      full = stays-IsFull zero w res.node (n * ms) full res.agrees res.kept;
      kept = res.kept;
    }
rotate-Shifted (suc level) w n pos small full late =
    let ms : ℕ = ms_per_slot (suc level) in
    let held = child_items (items level) in
    let fits = ChildFits (IsFull level) in
    let low = low_free held fits ms (child_first level) w n small full.0 late in
    let res =
      rotate_node-Rotated held fits ms none tt (child_only (IsFull level)) refl w n pos small full.0
        low is_none refl in
    record {
      wheel = res.node;
      found = res.found;
      full = stays-IsFull (suc level) w res.node (n * ms) full res.agrees res.kept;
      kept = res.kept;
    }
