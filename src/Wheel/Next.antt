-- ===== src/Wheel/Next.antt =====
-- `next_expiration_time` at every level: the first of the wheel's intervals.
use zedlibs.Prelude.{
  ℕ, zero, suc, ◌+◌, ◌*◌, ◌≤◌, ◌<◌, ◌≡◌, refl, sym, ap, ◌∙◌, inl, inr, subst, List, [], ◌∷◌, ◌++◌,
  Option, none, some, Bool, true, false, arith, Bool-cases, Option-cases,
}
use zedlibs.Wheel.{
  Entry, Node, Wheel, pow_loop, empty, ms_per_slot, max_ms, first_bit, countr_zero,
  next_expiration_time,
}
use zedlibs.Wheel.Power.{ms_per_slot-suc}
use zedlibs.Wheel.Bits.{first_bit-suc, first_bit_here, first_bit_end}
use zedlibs.Wheel.Items.{
  Item, items, list_items, child_items, gather, delay, AllFrom, AllBelow, AllFrom-append,
  AllFrom-le, AllFrom-delay, AllFrom-gather,
}
use zedlibs.Wheel.Loop.{Agrees}
use zedlibs.Wheel.Expire.{IsGood, IsFull, ListFits, ChildFits, list_nothing, child_nothing}

AllBelow-append : (m : ℕ) (l n : List Item) → AllBelow m l → AllBelow m n → AllBelow m (l ++ n)
AllBelow-append m [] n a b = b
AllBelow-append m ((t, e) ∷ l) n a b = (a.0, AllBelow-append m l n a.1 b)

AllBelow-delay : (k m b : ℕ) (l : List Item) → k + m ≤ b → AllBelow m l → AllBelow b (delay k l)
AllBelow-delay k m b [] h a = tt
AllBelow-delay k m b ((t, e) ∷ l) h a = (omega (arith, a.0), AllBelow-delay k m b l h a.1)

AllFrom-later : (k t : ℕ) (l : List Item) → AllFrom t l → AllFrom (k + t) (delay k l)
AllFrom-later k t [] a = tt
AllFrom-later k t ((u, e) ∷ l) a = (omega (arith, a.0), AllFrom-later k t l a.1)

list_items-AllBelow : (l : List Entry) → AllBelow 1 (list_items l)
list_items-AllBelow [] = tt
list_items-AllBelow (e ∷ l) = (omega arith, list_items-AllBelow l)

slot_end : (k m i : ℕ) → k < i → k * m + m ≤ i * m
slot_end k m i h = grind arith

-- Slots of width `ms` whose items lie below `ms` lie below the end of the last slot.
AllBelow-gather :
    {C : Type 0} (items_of : C → List Item) (ms : ℕ) (slots : ℕ → C)
    → ((c : C) → AllBelow ms (items_of c))
    → (k n b : ℕ) → k + n ≤ b
    → AllBelow (b * ms) (gather items_of ms slots k n)
unfolding gather
AllBelow-gather items_of ms slots below k zero b h = tt
AllBelow-gather items_of ms slots below k (suc n) b h =
    AllBelow-append (b * ms) (delay (k * ms) (items_of (slots k)))
      (gather items_of ms slots (suc k) n)
      (AllBelow-delay (k * ms) ms (b * ms) (items_of (slots k)) (slot_end k ms b (omega arith))
        (below (slots k)))
      (AllBelow-gather items_of ms slots below (suc k) n b (omega arith))

child_items-AllBelow :
    {C : Type 0} (items_of : C → List Item) (m : ℕ)
    → ((c : C) → AllBelow m (items_of c))
    → (c : Option C) → AllBelow m (child_items items_of c)
child_items-AllBelow items_of m below none = tt
child_items-AllBelow items_of m below (some c) = below c

pub max_ms_child : (level : ℕ) → max_ms level ≡ ms_per_slot (suc level)
unfolding max_ms
max_ms_child level = omega (arith, ms_per_slot-suc level)

max_ms_slots : (level : ℕ) → 64 * ms_per_slot level ≡ max_ms level
unfolding max_ms
max_ms_slots level = omega arith

-- No interval reaches the width of the wheel.
pub items-AllBelow : (level : ℕ) (w : Wheel level) → AllBelow (max_ms level) (items level w)
unfolding items ms_per_slot pow_loop
items-AllBelow zero w =
    subst (λ m. AllBelow m (gather list_items (ms_per_slot 0) w.slots 0 64)) (max_ms_slots 0)
      (AllBelow-gather list_items (ms_per_slot 0) w.slots list_items-AllBelow 0 64 64 (omega arith))
items-AllBelow (suc level) w =
    let ms : ℕ = ms_per_slot (suc level) in
    subst (λ m. AllBelow m (gather (child_items (items level)) ms w.slots 0 64))
      (max_ms_slots (suc level))
      (AllBelow-gather (child_items (items level)) ms w.slots
        (child_items-AllBelow (items level) ms (λ c.
          subst (λ m. AllBelow m (items level c)) (max_ms_child level) (items-AllBelow level c)))
        0 64 64 (omega arith))

some_inj : {A : Type 0} {a b : A} → some a ≡ some b → a ≡ b
some_inj {A} {a} e = ap (get_or a) e
  where
    get_or : A → Option A → A
    get_or d none = d
    get_or d (some x) = x

-- The lowest slot whose bit is set: those below it hold nothing.
record Lowest {C : Type 0} (items_of : C → List Item) (ms : ℕ) (w : Node C) (k n i : ℕ)
    : Type 0 where
  inside : i < 64
  on : w.bitmap i ≡ true
  above : ℕ
  split :
      gather items_of ms w.slots k n
      ≡ delay (i * ms) (items_of (w.slots i)) ++ gather items_of ms w.slots (suc i) above

module _ {C : Type 0} (items_of : C → List Item) (Fits : Bool → C → Type 0) (ms : ℕ)
    (nothing : (c : C) → Fits false c → items_of c ≡ []) (w : Node C) (a : Agrees Fits w) where
  Lowest-here : (k n : ℕ) → k < 64 → w.bitmap k ≡ true → Lowest items_of ms w k (suc n) k
  unfolding gather
  Lowest-here k n h on = record { inside = h; on = on; above = n; split = refl }

  Lowest-above :
      (k n i : ℕ)
      → k < 64
      → w.bitmap k ≡ false
      → Lowest items_of ms w (suc k) n i
      → Lowest items_of ms w k (suc n) i
  unfolding gather
  Lowest-above k n i h off low = record {
    inside = low.inside;
    on = low.on;
    above = low.above;
    split =
        ap (λ l. delay (k * ms) l ++ gather items_of ms w.slots (suc k) n)
          (nothing (w.slots k) (subst (λ b. Fits b (w.slots k)) off (a k h)))
        ∙ low.split;
  }

  first_bit-Lowest :
      (k n i : ℕ) → k + n ≡ 64 → first_bit n k w.bitmap ≡ some i → Lowest items_of ms w k n i
  first_bit-Lowest k zero i h e = absurd (ground (arith, first_bit_end k w.bitmap))
  first_bit-Lowest k (suc n) i h e = elim (Bool-cases (w.bitmap k)) [
    | inl on ↦
        subst (Lowest items_of ms w k (suc n)) (some_inj (sym (first_bit_here n k w.bitmap on) ∙ e))
          (Lowest-here k n (omega arith) on)
    | inr off ↦
        Lowest-above k n i (omega arith) off
          (first_bit-Lowest (suc k) n i (omega arith) (sym (first_bit-suc n k w.bitmap off) ∙ e))
  ]

-- What `next_expiration_time` returns: the interval of the wheel's first entry, and no entry of the
-- wheel has an earlier one.
pub record IsNext (level : ℕ) (w : Wheel level) (found : Option ℕ) : Type 0 where
  pub time : ℕ
  pub found_time : found ≡ some time
  pub first : Entry
  pub others : List Item
  pub held : items level w ≡ (time, first) ∷ others
  pub least : AllFrom time others

-- The lowest slot of a `Wheel<0>` is its own time.
IsNext-of_list :
    (w : Wheel zero) (i : ℕ)
    → Lowest list_items (ms_per_slot 0) w 0 64 i
    → ListFits (w.bitmap i) (w.slots i)
    → IsNext zero w (some i)
unfolding items ms_per_slot pow_loop
IsNext-of_list w i low fit =
    by_slot (w.slots i) refl (subst (λ b. ListFits b (w.slots i)) low.on fit)
  where
    by_slot : (c : List Entry) → w.slots i ≡ c → ListFits true c → IsNext zero w (some i)
    by_slot [] h fit' = elim fit' [ ]
    by_slot (e ∷ l) h fit' = record {
      time = i;
      found_time = refl;
      first = e;
      others = delay (i * 1) (list_items l) ++ gather list_items 1 w.slots (suc i) low.above;
      held =
          low.split
          ∙ ap (λ c. delay (i * 1) (list_items c) ++ gather list_items 1 w.slots (suc i) low.above)
              h
          ∙ ap
              (λ t.
                (t, e)
                ∷ (delay (i * 1) (list_items l) ++ gather list_items 1 w.slots (suc i) low.above))
              {x = i * 1 + 0} {y = i} (omega arith);
      least =
          AllFrom-append i (delay (i * 1) (list_items l))
            (gather list_items 1 w.slots (suc i) low.above)
            (AllFrom-le (i * 1) i (delay (i * 1) (list_items l)) (omega arith)
              (AllFrom-delay (i * 1) (list_items l)))
            (AllFrom-le (suc i * 1) i (gather list_items 1 w.slots (suc i) low.above) (omega arith)
              (AllFrom-gather list_items 1 w.slots (suc i) low.above));
    }

pub first_below : (t m : ℕ) (e : Entry) (l k : List Item) → k ≡ (t, e) ∷ l → AllBelow m k → t < m
first_below t m e l k h a = (subst (AllBelow m) h a).0

-- The next time of the wheel in the lowest slot, after the start of the slot.
IsNext-of_child :
    (level : ℕ) (w : Wheel (suc level)) (i : ℕ) (child : Wheel level) (found : Option ℕ)
    → Lowest (child_items (items level)) (ms_per_slot (suc level)) w 0 64 i
    → w.slots i ≡ some child
    → IsNext level child found
    → IsNext
        (suc level)
        w
        (elim found [ none ↦ none | some time ↦ some (i * ms_per_slot (suc level) + time) ])
unfolding items
IsNext-of_child level w i child found low h next =
    let ms : ℕ = ms_per_slot (suc level) in
    let above = gather (child_items (items level)) ms w.slots (suc i) low.above in
    let early : next.time < max_ms level =
      first_below next.time (max_ms level) next.first next.others (items level child) next.held
        (items-AllBelow level child) in
    rw next.found_time (record {
      time = i * ms + next.time;
      found_time = refl;
      first = next.first;
      others = delay (i * ms) next.others ++ above;
      held =
          low.split
          ∙ ap (λ c. delay (i * ms) (child_items (items level) c) ++ above) h
          ∙ ap (λ l. delay (i * ms) l ++ above) next.held;
      least =
          AllFrom-append (i * ms + next.time) (delay (i * ms) next.others) above
            (AllFrom-later (i * ms) next.time next.others next.least)
            (AllFrom-le (suc i * ms) (i * ms + next.time) above
              (omega (arith, early, max_ms_child level))
              (AllFrom-gather (child_items (items level)) ms w.slots (suc i) low.above));
    })

IsNext-of_slot :
    (level : ℕ) (w : Wheel (suc level)) (i : ℕ) (c : Option (Wheel level))
    → ((v : Wheel level)
        → IsGood level v
        → empty level v ≡ false
        → IsNext level v (next_expiration_time level v))
    → Lowest (child_items (items level)) (ms_per_slot (suc level)) w 0 64 i
    → w.slots i ≡ c
    → ChildFits (IsFull level) true c
    → IsNext (suc level) w (elim c [
      | none ↦ none
      | some child ↦ elim (next_expiration_time level child) [
        | none ↦ none
        | some time ↦ some (i * ms_per_slot (suc level) + time)
      ]
    ])
IsNext-of_slot level w i none ih low h fit = elim fit [ ]
IsNext-of_slot level w i (some child) ih low h fit =
    IsNext-of_child level w i child (next_expiration_time level child) low h (ih child fit.0 fit.1)

-- At every level the assertion of `next_expiration_time` holds on a well-formed wheel that is not
-- empty, and the function returns the least of the wheel's intervals.
pub next_expiration_time-IsNext :
    (level : ℕ) (w : Wheel level)
    → IsGood level w
    → empty level w ≡ false
    → IsNext level w (next_expiration_time level w)
unfolding next_expiration_time empty
next_expiration_time-IsNext zero w g full = elim (Option-cases (countr_zero w.bitmap)) [
  | inl e ↦ absurd (ground (arith, e))
  | inr (i, e) ↦
      let low =
        first_bit-Lowest list_items ListFits (ms_per_slot 0) list_nothing w g 0 64 i refl e in
      rw e (IsNext-of_list w i low (g i low.inside))
]
next_expiration_time-IsNext (suc level) w g full = elim (Option-cases (countr_zero w.bitmap)) [
  | inl e ↦ absurd (ground (arith, e))
  | inr (i, e) ↦
      let low =
        first_bit-Lowest (child_items (items level)) (ChildFits (IsFull level))
          (ms_per_slot (suc level)) (child_nothing (IsFull level) (items level)) w g 0 64 i refl
          e in
      rw (e, next_expiration_time)
        (IsNext-of_slot level w i (w.slots i) (next_expiration_time-IsNext level) low refl
          (subst (λ b. ChildFits (IsFull level) b (w.slots i)) low.on (g i low.inside)))
]
