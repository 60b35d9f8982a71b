-- ===== src/Wheel/Items.antt =====
-- What a wheel holds: each entry with its interval, the time from the wheel's start, by slots.
use zedlibs.Prelude.{
  ℕ, zero, suc, ◌+◌, ◌-◌, ◌*◌, ◌≤◌, ◌<◌, ◌≡◌, ◌≢◌, refl, ap₂, List, [], ◌∷◌, ◌++◌, map, Option,
  none, some, leb, if◌then◌else◌, arith,
}
use zedlibs.Wheel.{Entry, Wheel, ms_per_slot, update}

abbrev pub Item : Type 0
Item = ℕ × Entry

-- The items later by `k`.
abbrev pub delay : ℕ → List Item → List Item
delay k [] = []
delay k ((t, e) ∷ l) = (k + t, e) ∷ delay k l

-- The items of `n` slots from slot `i` on.
unfoldable pub gather : {C : Type 0} → (C → List Item) → ℕ → (ℕ → C) → ℕ → ℕ → List Item
gather items ms slots i zero = []
gather items ms slots i (suc n) =
    delay (i * ms) (items (slots i)) ++ gather items ms slots (suc i) n

abbrev pub list_items : List Entry → List Item
list_items = map (λ e. (0, e))

abbrev pub child_items : {C : Type 0} → (C → List Item) → Option C → List Item
child_items items none = []
child_items items (some child) = items child

unfoldable pub items : (level : ℕ) → Wheel level → List Item
items zero w = gather list_items (ms_per_slot 0) w.slots 0 64
items (suc level) w = gather (child_items (items level)) (ms_per_slot (suc level)) w.slots 0 64

-- The entries whose interval is at most `r`, in order, and the items that are later.
abbrev pub due : ℕ → List Item → List Entry
due r [] = []
due r ((t, e) ∷ l) = if leb t r then e ∷ due r l else due r l

abbrev pub later : ℕ → List Item → List Item
later r [] = []
later r ((t, e) ∷ l) = if leb t r then later r l else (t, e) ∷ later r l

-- Every interval is below `m`, or at least `m`.
abbrev pub AllBelow : ℕ → List Item → Type 0
AllBelow m [] = Unit {0}
AllBelow m ((t, e) ∷ l) = (t < m) × AllBelow m l

abbrev pub AllFrom : ℕ → List Item → Type 0
AllFrom m [] = Unit {0}
AllFrom m ((t, e) ∷ l) = (m ≤ t) × AllFrom m l

pub due-append : (r : ℕ) (l m : List Item) → due r (l ++ m) ≡ due r l ++ due r m
due-append r [] m = refl
due-append r ((t, e) ∷ l) m = ground (arith, due-append r l m)

pub later-append : (r : ℕ) (l m : List Item) → later r (l ++ m) ≡ later r l ++ later r m
later-append r [] m = refl
later-append r ((t, e) ∷ l) m = ground (arith, later-append r l m)

pub due-delay : (r k : ℕ) (l : List Item) → k ≤ r → due r (delay k l) ≡ due (r - k) l
due-delay r k [] h = refl
due-delay r k ((t, e) ∷ l) h = ground (arith, due-delay r k l h)

pub later-delay :
    (r k : ℕ) (l : List Item) → k ≤ r → later r (delay k l) ≡ delay k (later (r - k) l)
later-delay r k [] h = refl
later-delay r k ((t, e) ∷ l) h = ground (arith, later-delay r k l h)

pub due_none : (r m : ℕ) (l : List Item) → r < m → AllFrom m l → due r l ≡ []
due_none r m [] h a = refl
due_none r m ((t, e) ∷ l) h a = ground (arith, due_none r m l h a.1)

pub later_all : (r m : ℕ) (l : List Item) → r < m → AllFrom m l → later r l ≡ l
later_all r m [] h a = refl
later_all r m ((t, e) ∷ l) h a = ground (arith, later_all r m l h a.1)

pub AllFrom-append : (m : ℕ) (l n : List Item) → AllFrom m l → AllFrom m n → AllFrom m (l ++ n)
AllFrom-append m [] n a b = b
AllFrom-append m ((t, e) ∷ l) n a b = (a.0, AllFrom-append m l n a.1 b)

pub AllFrom-le : (m k : ℕ) (l : List Item) → k ≤ m → AllFrom m l → AllFrom k l
AllFrom-le m k [] h a = tt
AllFrom-le m k ((t, e) ∷ l) h a = (omega arith, AllFrom-le m k l h a.1)

pub AllFrom-delay : (k : ℕ) (l : List Item) → AllFrom k (delay k l)
AllFrom-delay k [] = tt
AllFrom-delay k ((t, e) ∷ l) = (omega arith, AllFrom-delay k l)

module _ {C : Type 0} (items_of : C → List Item) (ms : ℕ) where
  -- The slots from `i` on hold nothing that is earlier than the start of slot `i`.
  pub AllFrom-gather : (slots : ℕ → C) (i n : ℕ) → AllFrom (i * ms) (gather items_of ms slots i n)
  unfolding gather
  AllFrom-gather slots i zero = tt
  AllFrom-gather slots i (suc n) =
      AllFrom-append (i * ms) (delay (i * ms) (items_of (slots i)))
        (gather items_of ms slots (suc i) n) (AllFrom-delay (i * ms) (items_of (slots i)))
        (AllFrom-le (suc i * ms) (i * ms) (gather items_of ms slots (suc i) n) (omega arith)
          (AllFrom-gather slots (suc i) n))

  -- A slot below those gathered does not count.
  pub gather-update_below :
      (slots : ℕ → C) (i n k : ℕ) (c : C)
      → k < i
      → gather items_of ms (update slots k c) i n ≡ gather items_of ms slots i n
  unfolding gather
  gather-update_below slots i zero k c h = refl
  gather-update_below slots i (suc n) k c h =
      ap₂ (λ c' l. delay (i * ms) (items_of c') ++ l) (ground arith)
        (gather-update_below slots (suc i) n k c (omega arith))

pub update_self : {C : Type 0} (f : ℕ → C) (k : ℕ) (c : C) → update f k c k ≡ c
update_self f k c = ground arith

pub update_ne : {C : Type 0} (f : ℕ → C) (k i : ℕ) (c : C) → i ≢ k → update f k c i ≡ f i
update_ne f k i c h = ground arith
