-- ===== src/Wheel/Loop.antt =====
-- The loop of `handle_expired_entries`, for any kind of slot whose visit executes what is due.
use zedlibs.Prelude.{
  ℕ, zero, suc, ◌+◌, ◌-◌, ◌*◌, ◌≤◌, ◌<◌, ◌≡◌, ◌≢◌, refl, sym, ap, ap₂, ◌∙◌, ◌⊎◌, inl, inr, subst,
  List, [], ◌++◌, none, some, Bool, true, false, not, arith, Bool-cases, append-nil, dec_lt,
  ℕ_discrete,
}
use zedlibs.Wheel.{
  Bitmap, Entry, Node, Visited, expire_slot, expire_loop, update, clear_bit, countr_zero,
}
use zedlibs.Wheel.Bits.{
  ClearBelow, countr_zero_from, first_bit_here, ClearBelow-clear_bit, ClearBelow-suc, first_bit_end,
}
use zedlibs.Wheel.Items.{
  Item, gather, delay, due, later, AllFrom, AllFrom-gather, due-append, later-append, due-delay,
  later-delay, due_none, later_all, gather-update_below, update_self, update_ne,
}

-- Every slot agrees with its bit.
abbrev pub Agrees : {C : Type 0} → (Bool → C → Type 0) → Node C → Type 0
Agrees Fits w = (i : ℕ) → i < 64 → Fits (w.bitmap i) (w.slots i)

-- A change of one slot, and of its bit alone.
pub Agrees-update :
    {C : Type 0} (Fits : Bool → C → Type 0) (w : Node C) (k : ℕ) (bm : Bitmap) (c : C)
    → Agrees Fits w
    → ((i : ℕ) → i ≢ k → bm i ≡ w.bitmap i)
    → Fits (bm k) c
    → Agrees Fits (record { bitmap = bm; slots = update w.slots k c })
Agrees-update Fits w k bm c a same fit i p = elim (ℕ_discrete i k) [
  | yes e ↦
      subst (λ j. Fits (bm j) (update w.slots k c j)) (sym e)
        (subst (Fits (bm k)) (sym (update_self w.slots k c)) fit)
  | no ne ↦ rw (same i ne, update_ne w.slots k i c ne) (a i p)
]

-- A visit at time `r` executes the items that are due, in order, and keeps the others; if any is
-- kept then `r` falls into the slot.
pub record VisitExpires {C : Type 0} (items_of : C → List Item) (Fits : Bool → C → Type 0) (ms : ℕ)
    (c : C) (r : ℕ) (v : Visited C) : Type 0 where
  pub fits : Fits (not v.cleared) v.slot
  pub ran : v.ran ≡ due r (items_of c)
  pub left : items_of v.slot ≡ later r (items_of c)
  pub stopped : (v.cleared ≡ true) ⊎ (r < ms)

module _ {C : Type 0} (ms : ℕ) (visit : C → ℕ → Visited C) (w : Node C) (r : ℕ) where
  abbrev visit_at : ℕ → Visited C
  visit_at k = visit (w.slots k) (r - k * ms)

  abbrev kept_at : ℕ → Node C
  kept_at k = record w { slots = update w.slots k (visit_at k).slot }

  abbrev next_at : ℕ → Node C
  next_at k = record (kept_at k) { bitmap = clear_bit w.bitmap k }

  module _ (go_on : Node C → Node C × List Entry) (k : ℕ) where
    slot_later : r < k * ms → expire_slot ms visit go_on w r k ≡ (w, [])
    unfolding expire_slot
    slot_later h = ground arith

    slot_kept :
        k * ms ≤ r
        → (visit_at k).cleared ≡ false
        → expire_slot ms visit go_on w r k ≡ (kept_at k, (visit_at k).ran)
    unfolding expire_slot
    slot_kept h c = rw c (ground arith)

    slot_cleared :
        k * ms ≤ r
        → (visit_at k).cleared ≡ true
        → expire_slot ms visit go_on w r k
          ≡ ((go_on (next_at k)).0, (visit_at k).ran ++ (go_on (next_at k)).1)
    unfolding expire_slot
    slot_cleared h c = rw c (ground arith)

  loop_done :
      (fuel : ℕ) → countr_zero w.bitmap ≡ none → expire_loop (suc fuel) ms visit w r ≡ (w, [])
  unfolding expire_loop
  loop_done fuel e = rw (e, expire_loop) refl

  loop_round :
      (fuel k : ℕ)
      → countr_zero w.bitmap ≡ some k
      → expire_loop (suc fuel) ms visit w r
        ≡ expire_slot ms visit (λ next. expire_loop fuel ms visit next r) w r k
  unfolding expire_loop
  loop_round fuel k e = rw (e, expire_loop) refl

last_slot : (k m : ℕ) → k < 64 → suc k * m ≤ 64 * m
last_slot k m h = grind arith

-- How a visit behaves on every slot whose bit is set, and what a slot whose bit is clear holds.
pub record VisitLaws {C : Type 0} (items_of : C → List Item) (Fits : Bool → C → Type 0) (ms : ℕ)
    (visit : C → ℕ → Visited C) : Type 0 where
  pub nothing : (c : C) → Fits false c → items_of c ≡ []
  pub expires : (c : C) (r : ℕ) → Fits true c → VisitExpires items_of Fits ms c r (visit c r)

-- What the loop returns at time `r` for the `n` slots from `k` on, when those below are empty.
pub record Expires {C : Type 0} (items_of : C → List Item) (Fits : Bool → C → Type 0) (ms : ℕ)
    (w : Node C) (k n r : ℕ) (out : Node C × List Entry) : Type 0 where
  pub agrees : Agrees Fits out.0
  pub below : ClearBelow k out.0.bitmap
  pub ran : out.1 ≡ due r (gather items_of ms w.slots k n)
  pub left : gather items_of ms out.0.slots k n ≡ later r (gather items_of ms w.slots k n)
  pub stopped : (countr_zero out.0.bitmap ≡ none) ⊎ (r < 64 * ms)

module _ {C : Type 0} (items_of : C → List Item) (Fits : Bool → C → Type 0) (ms : ℕ)
    (visit : C → ℕ → Visited C) (laws : VisitLaws items_of Fits ms visit) where
  abbrev slots_from : Node C → ℕ → ℕ → List Item
  slots_from w k n = gather items_of ms w.slots k n

  abbrev Result : Node C → ℕ → ℕ → ℕ → Node C × List Entry → Type 0
  Result = Expires items_of Fits ms

  -- A slot whose bit is clear adds nothing.
  gather_skip :
      (w : Node C) (k n : ℕ)
      → Agrees Fits w
      → k < 64
      → w.bitmap k ≡ false
      → slots_from w k (suc n) ≡ slots_from w (suc k) n
  unfolding gather
  gather_skip w k n a h e =
      ap (λ l. delay (k * ms) l ++ slots_from w (suc k) n)
        (laws.nothing (w.slots k) (subst (λ b. Fits b (w.slots k)) e (a k h)))

  skip_slot :
      (w : Node C) (k n r : ℕ) (out : Node C × List Entry)
      → Agrees Fits w
      → k < 64
      → w.bitmap k ≡ false
      → Result w (suc k) n r out
      → Result w k (suc n) r out
  skip_slot w k n r out a h e res = record {
    agrees = res.agrees;
    below = λ j p. res.below j (omega arith);
    ran = rw (gather_skip w k n a h e) res.ran;
    left =
        rw (gather_skip w k n a h e)
          (gather_skip out.0 k n res.agrees h (res.below k (omega arith)) ∙ res.left);
    stopped = res.stopped;
  }

  -- The lowest slot is not due: nothing is.
  wait_slot :
      (w : Node C) (k n r : ℕ)
      → Agrees Fits w
      → ClearBelow k w.bitmap
      → k < 64
      → r < k * ms
      → Result w k n r (w, [])
  wait_slot w k n r a low h early = record {
    agrees = a;
    below = low;
    ran =
        sym (due_none r (k * ms) (slots_from w k n) early (AllFrom-gather items_of ms w.slots k n));
    left =
        sym
          (later_all r (k * ms) (slots_from w k n) early (AllFrom-gather items_of ms w.slots k n));
    stopped = inr (grind arith);
  }

  module _ (w : Node C) (k n r : ℕ) (a : Agrees Fits w) (low : ClearBelow k w.bitmap) (h : k < 64)
      (on : w.bitmap k ≡ true) (time : k * ms ≤ r) where
    visited : VisitExpires items_of Fits ms (w.slots k) (r - k * ms) (visit_at ms visit w r k)
    visited = laws.expires (w.slots k) (r - k * ms) (subst (λ b. Fits b (w.slots k)) on (a k h))

    -- A bitmap that differs at `k` alone, where it agrees with the slot's new value.
    Agrees-visited :
        (bm : Bitmap)
        → ((i : ℕ) → i ≢ k → bm i ≡ w.bitmap i)
        → Fits (bm k) (visit_at ms visit w r k).slot
        → Agrees Fits
            (record { bitmap = bm; slots = update w.slots k (visit_at ms visit w r k).slot })
    Agrees-visited bm same fit = Agrees-update Fits w k bm (visit_at ms visit w r k).slot a same fit

    due_head :
        due r (slots_from w k (suc n))
        ≡ (visit_at ms visit w r k).ran ++ due r (slots_from w (suc k) n)
    unfolding gather
    due_head =
        due-append r (delay (k * ms) (items_of (w.slots k))) (slots_from w (suc k) n)
        ∙ ap (λ l. l ++ due r (slots_from w (suc k) n))
            (due-delay r (k * ms) (items_of (w.slots k)) time ∙ sym visited.ran)

    later_head :
        later r (slots_from w k (suc n))
        ≡ delay (k * ms) (items_of (visit_at ms visit w r k).slot)
          ++ later r (slots_from w (suc k) n)
    unfolding gather
    later_head =
        later-append r (delay (k * ms) (items_of (w.slots k))) (slots_from w (suc k) n)
        ∙ ap (λ l. l ++ later r (slots_from w (suc k) n))
            (later-delay r (k * ms) (items_of (w.slots k)) time
              ∙ ap (delay (k * ms)) (sym visited.left))

    head_visited :
        gather items_of ms (update w.slots k (visit_at ms visit w r k).slot) k (suc n)
        ≡ delay (k * ms) (items_of (visit_at ms visit w r k).slot) ++ slots_from w (suc k) n
    unfolding gather
    head_visited =
        ap₂ (λ c l. delay (k * ms) (items_of c) ++ l)
          (update_self w.slots k (visit_at ms visit w r k).slot)
          (gather-update_below items_of ms w.slots (suc k) n k (visit_at ms visit w r k).slot
            (omega arith))

    -- The visit leaves entries: those of the slots above are later too.
    keep_slot :
        (visit_at ms visit w r k).cleared ≡ false
        → Result w k (suc n) r (kept_at ms visit w r k, (visit_at ms visit w r k).ran)
    keep_slot c = record {
      agrees =
          Agrees-visited w.bitmap (λ i ne. refl)
            (subst (λ b. Fits b (visit_at ms visit w r k).slot) (ap not c ∙ sym on) visited.fits);
      below = low;
      ran = sym (
          due_head
          ∙ ap (λ l. (visit_at ms visit w r k).ran ++ l)
              (due_none r (suc k * ms) (slots_from w (suc k) n) soon above)
          ∙ append-nil (visit_at ms visit w r k).ran);
      left =
          head_visited
          ∙ sym (
              later_head
              ∙ ap (λ l. delay (k * ms) (items_of (visit_at ms visit w r k).slot) ++ l)
                  (later_all r (suc k * ms) (slots_from w (suc k) n) soon above));
      stopped = inr (omega (arith, soon, last_slot k ms h));
    }
      where
        within : r - k * ms < ms
        within = ground (arith, visited.stopped)

        soon : r < suc k * ms
        soon = omega (arith, within)

        above : AllFrom (suc k * ms) (slots_from w (suc k) n)
        above = AllFrom-gather items_of ms w.slots (suc k) n

    -- The visit clears the slot, and the loop goes on above it.
    clear_slot :
        (out : Node C × List Entry)
        → (visit_at ms visit w r k).cleared ≡ true
        → Result (next_at ms visit w r k) (suc k) n r out
        → Result w k (suc n) r (out.0, (visit_at ms visit w r k).ran ++ out.1)
    clear_slot out c res = record {
      agrees = res.agrees;
      below = λ j p. res.below j (omega arith);
      ran =
          ap (λ l. (visit_at ms visit w r k).ran ++ l) (res.ran ∙ ap (due r) unchanged)
          ∙ sym due_head;
      left =
          gather_skip out.0 k n res.agrees h (res.below k (omega arith))
          ∙ res.left
          ∙ ap (later r) unchanged
          ∙ sym
              (later_head ∙ ap (λ l. delay (k * ms) l ++ later r (slots_from w (suc k) n)) emptied);
      stopped = res.stopped;
    }
      where
        emptied : items_of (visit_at ms visit w r k).slot ≡ []
        emptied =
            laws.nothing (visit_at ms visit w r k).slot
              (subst (λ b. Fits b (visit_at ms visit w r k).slot) (ap not c) visited.fits)

        unchanged : slots_from (next_at ms visit w r k) (suc k) n ≡ slots_from w (suc k) n
        unchanged =
            gather-update_below items_of ms w.slots (suc k) n k (visit_at ms visit w r k).slot
              (omega arith)

    next-Agrees : (visit_at ms visit w r k).cleared ≡ true → Agrees Fits (next_at ms visit w r k)
    next-Agrees c =
        Agrees-visited (clear_bit w.bitmap k) (λ i ne. update_ne w.bitmap k i false ne)
          (subst (λ b. Fits b (visit_at ms visit w r k).slot)
            (ap not c ∙ sym (update_self w.bitmap k false)) visited.fits)

  -- With more rounds than slots the loop executes what is due and keeps the rest.
  pub loop-Expires :
      (n k fuel : ℕ) (w : Node C) (r : ℕ)
      → k + n ≡ 64
      → n < fuel
      → Agrees Fits w
      → ClearBelow k w.bitmap
      → Result w k n r (expire_loop fuel ms visit w r)
  loop-Expires n k zero w r e f a low = absurd (omega arith)
  loop-Expires zero k (suc fuel) w r e f a low =
      rw
        (loop_done ms visit w r fuel
          (countr_zero_from k 0 w.bitmap e low ∙ first_bit_end k w.bitmap))
        (record {
          agrees = a;
          below = low;
          ran = no_items w;
          left = no_items' w;
          stopped = inl (countr_zero_from k 0 w.bitmap e low ∙ first_bit_end k w.bitmap);
        })
    where
      no_items : (v : Node C) → [] ≡ due r (slots_from v k 0)
      no_items v = unfold gather in refl

      no_items' : (v : Node C) → slots_from v k 0 ≡ later r (slots_from v k 0)
      no_items' v = unfold gather in refl
  loop-Expires (suc n) k (suc fuel) w r e f a low = elim (Bool-cases (w.bitmap k)) [
    | inr off ↦ skip_slot w k n r (expire_loop (suc fuel) ms visit w r) a (omega arith) off (
        loop-Expires n (suc k) (suc fuel) w r (omega arith) (omega arith) a
          (ClearBelow-suc k w.bitmap low off))
    | inl on ↦
        let go_on = λ (next : Node C). expire_loop fuel ms visit next r in
        let round =
          loop_round ms visit w r fuel k
            (countr_zero_from k (suc n) w.bitmap e low ∙ first_bit_here n k w.bitmap on) in
        elim (dec_lt r (k * ms)) [
          | yes early ↦
              rw (round, slot_later ms visit w r go_on k early)
                (wait_slot w k (suc n) r a low (omega arith) early)
          | no due_now ↦ elim (Bool-cases (visit_at ms visit w r k).cleared) [
            | inr stays ↦
                rw (round, slot_kept ms visit w r go_on k (omega arith) stays)
                  (keep_slot w k n r a low (omega arith) on (omega arith) stays)
            | inl gone ↦
                rw (round, slot_cleared ms visit w r go_on k (omega arith) gone)
                  (clear_slot w k n r a low (omega arith) on (omega arith)
                    (go_on (next_at ms visit w r k)) gone
                    (loop-Expires n (suc k) fuel (next_at ms visit w r k) r (omega arith)
                      (omega arith) (next-Agrees w k n r a low (omega arith) on (omega arith) gone)
                      (ClearBelow-clear_bit k w.bitmap low)))
          ]
        ]
  ]
