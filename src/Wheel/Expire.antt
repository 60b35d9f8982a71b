-- ===== src/Wheel/Expire.antt =====
-- `handle_expired_entries` at every level, and what it means that a wheel is well formed.
use zedlibs.Prelude.{
  ℕ, zero, suc, ◌+◌, ◌*◌, ◌<◌, ◌≡◌, refl, sym, ap₂, ◌∙◌, ◌⊎◌, inl, inr, subst, List, [], ◌∷◌, ◌++◌,
  Option, none, some, Bool, true, false, arith, Bool-cases,
}
use zedlibs.Wheel.{
  Entry, Node, Wheel, drain, visit_child, handle_expired_entries, empty, ms_per_slot, max_ms,
  countr_zero,
}
use zedlibs.Wheel.Power.{ms_per_slot-suc}
use zedlibs.Wheel.Bits.{first_bit-none}
use zedlibs.Wheel.Items.{Item, items, list_items, child_items, gather, delay, due, later}
use zedlibs.Wheel.Loop.{Agrees, VisitExpires, VisitLaws, loop-Expires}

-- A slot of a `Wheel<0>` has its bit set when its list is not empty.
abbrev pub ListFits : Bool → List Entry → Type 0
ListFits false [] = Unit {0}
ListFits true (e ∷ l) = Unit {0}
ListFits _ _ = ⊥

-- A slot of a higher wheel has its bit set when it holds a wheel, of which `P` holds.
abbrev pub ChildFits : {C : Type 0} → (C → Type 0) → Bool → Option C → Type 0
ChildFits P false none = Unit {0}
ChildFits P true (some child) = P child
ChildFits P _ _ = ⊥

-- The bitmaps agree with the slots at every level, and no slot holds an empty wheel.
abbrev pub IsGood : (level : ℕ) → Wheel level → Type 0
IsGood zero w = Agrees ListFits w
IsGood (suc level) w =
    Agrees (ChildFits (λ child. IsGood level child × (empty level child ≡ false))) w

-- What a slot of a higher wheel may hold.
abbrev pub IsFull : (level : ℕ) → Wheel level → Type 0
IsFull level child = IsGood level child × (empty level child ≡ false)

-- Slots whose bits are clear hold nothing.
gather_nothing :
    {C : Type 0} (items_of : C → List Item) (Fits : Bool → C → Type 0) (ms : ℕ)
    (nothing : (c : C) → Fits false c → items_of c ≡ []) (w : Node C) (k n : ℕ)
    → Agrees Fits w
    → countr_zero w.bitmap ≡ none
    → k + n ≡ 64
    → gather items_of ms w.slots k n ≡ []
unfolding gather
gather_nothing items_of Fits ms nothing w k zero a e h = refl
gather_nothing items_of Fits ms nothing w k (suc n) a e h =
    ap₂ (λ l m. delay (k * ms) l ++ m)
      (nothing (w.slots k) (
        subst (λ b. Fits b (w.slots k))
          (first_bit-none 64 0 k w.bitmap e (omega arith) (omega arith)) (a k (omega arith))))
      (gather_nothing items_of Fits ms nothing w (suc k) n a e (omega arith))

pub list_nothing : (c : List Entry) → ListFits false c → list_items c ≡ []
list_nothing [] h = refl
list_nothing (e ∷ l) h = elim h [ ]

pub child_nothing :
    {C : Type 0} (P : C → Type 0) (items_of : C → List Item) (c : Option C)
    → ChildFits P false c
    → child_items items_of c ≡ []
child_nothing P items_of none h = refl
child_nothing P items_of (some c) h = elim h [ ]

-- An empty wheel holds nothing.
pub items-empty :
    (level : ℕ) (w : Wheel level) → IsGood level w → empty level w ≡ true → items level w ≡ []
unfolding items empty
items-empty zero w g e =
    gather_nothing list_items ListFits (ms_per_slot 0) list_nothing w 0 64 g (ground arith) refl
items-empty (suc level) w g e =
    gather_nothing (child_items (items level)) (ChildFits (IsFull level)) (ms_per_slot (suc level))
      (child_nothing (IsFull level) (items level)) w 0 64 g (ground arith) refl

due_all : (r : ℕ) (l : List Entry) → due r (list_items l) ≡ l
due_all r [] = refl
due_all r (e ∷ l) = ground (arith, due_all r l)

later_none : (r : ℕ) (l : List Entry) → later r (list_items l) ≡ []
later_none r [] = refl
later_none r (e ∷ l) = ground (arith, later_none r l)

drain-VisitLaws : (ms : ℕ) → VisitLaws list_items ListFits ms drain
drain-VisitLaws ms = record {
  nothing = list_nothing;
  expires = λ c r fit. record {
    fits = tt;
    ran = sym (due_all r c);
    left = sym (later_none r c);
    stopped = inl refl;
  };
}

-- What `handle_expired_entries` does at time `r`.
pub record Expired (level : ℕ) (w : Wheel level) (r : ℕ) (out : Wheel level × List Entry)
    : Type 0 where
  pub good : IsGood level out.0
  pub ran : out.1 ≡ due r (items level w)
  pub left : items level out.0 ≡ later r (items level w)
  pub stopped : (empty level out.0 ≡ true) ⊎ (r < max_ms level)

visit_child-expires :
    (level : ℕ)
    → ((w : Wheel level) (r : ℕ)
        → IsGood level w
        → Expired level w r (handle_expired_entries level w r))
    → (c : Option (Wheel level)) (r : ℕ) → ChildFits (IsFull level) true c
    → VisitExpires
        (child_items (items level))
        (ChildFits (IsFull level))
        (ms_per_slot (suc level))
        c
        r
        (visit_child level (handle_expired_entries level) c r)
visit_child-expires level ih none r fit = elim fit [ ]
visit_child-expires level ih (some c) r fit =
    elim (Bool-cases (empty level (handle_expired_entries level c r).0)) [
      | inl gone ↦ rw gone (record {
        fits = tt;
        ran = (ih c r fit.0).ran;
        left = sym (sym (ih c r fit.0).left ∙ items-empty level _ (ih c r fit.0).good gone);
        stopped = inl refl;
      })
      | inr stays ↦ rw stays (record {
        fits = ((ih c r fit.0).good, stays);
        ran = (ih c r fit.0).ran;
        left = (ih c r fit.0).left;
        stopped = unfold max_ms in ground (arith, (ih c r fit.0).stopped, ms_per_slot-suc level);
      })
    ]

child-VisitLaws :
    (level : ℕ)
    → ((w : Wheel level) (r : ℕ)
        → IsGood level w
        → Expired level w r (handle_expired_entries level w r))
    → VisitLaws
        (child_items (items level))
        (ChildFits (IsFull level))
        (ms_per_slot (suc level))
        (visit_child level (handle_expired_entries level))
child-VisitLaws level ih = record {
  nothing = child_nothing (IsFull level) (items level);
  expires = visit_child-expires level ih;
}

-- At every level and time: the entries that are due are executed in the order of the slots, the
-- others stay, and the wheel stays well formed.
pub handle_expired_entries-Expired :
    (level : ℕ) (w : Wheel level) (r : ℕ)
    → IsGood level w
    → Expired level w r (handle_expired_entries level w r)
unfolding handle_expired_entries items empty max_ms
handle_expired_entries-Expired zero w r g =
    let res =
      loop-Expires list_items ListFits (ms_per_slot 0) drain (drain-VisitLaws (ms_per_slot 0)) 64 0
        65 w r refl (omega arith) g (λ j h. elim h [ ]) in
    record {
      good = res.agrees;
      ran = res.ran;
      left = res.left;
      stopped = ground (arith, res.stopped);
    }
handle_expired_entries-Expired (suc level) w r g =
    let res =
      loop-Expires (child_items (items level)) (ChildFits (IsFull level)) (ms_per_slot (suc level))
        (visit_child level (handle_expired_entries level))
        (child-VisitLaws level (handle_expired_entries-Expired level)) 64 0 65 w r refl
        (omega arith) g (λ j h. elim h [ ]) in
    record {
      good = res.agrees;
      ran = res.ran;
      left = res.left;
      stopped = ground (arith, res.stopped);
    }
