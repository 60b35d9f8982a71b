-- ===== src/ChannelHandles/Closing.antt =====
-- When the handles close the channel.
use zedlibs.Prelude.{
  ℕ, suc, ◌+◌, ◌≤◌, ◌<◌, ◌^◌, ◌≡◌, refl, sym, subst, ◌∙◌, List, [], ◌∷◌, ◌++◌, length,
  length-append, length-set, get_elem?, get_elem?-set_ne, set, Option, none, some, Bool, true,
  false, ◌==◌, ◌||◌, arith,
}
use Prim.{tt}
use zedlibs.Channel.{Channel, Wake}
use zedlibs.ChannelHandles.{
  Side, sender, receiver, Handles, Act, copies, assigns, moves, closes, handles, put, add, sub,
  copy_from, move_from, close, assign, act, run, then_wakes,
}
use zedlibs.ChannelHandles.Counts.{
  bit, live, live-append, live-set, live_few, other, both_some, num, IsCounted, add-Added,
  sub-Subbed, changed, none_left, copied, left,
}

-- A copy assignment to the handle itself is excluded.
unfoldable pub IsPlain : Act → Type 0
IsPlain (copies side i) = Unit
IsPlain (assigns side i j) = (i == j) ≡ false
IsPlain (moves side i) = Unit
IsPlain (closes side i) = Unit

unfoldable pub ArePlain : List Act → Type 0
ArePlain [] = Unit
ArePlain (x ∷ acts) = IsPlain x × ArePlain acts

module _ {ℓ} {A : Type ℓ} where
  -- There can be so many handles more.
  pub record HasRoom (n : ℕ) (s : Handles A) : Type 0 where
    pub room : (side : Side) → length (handles side s) + n < 2 ^ 64

  -- What holds of the state that is left, if no act uses a null pointer.
  abbrev pub After : (Handles A → Type 0) → Option (Handles A × List (Wake A)) → Type 0
  After P none = Unit
  After P (some (s, wakes)) = P s

  abbrev pub Good : ℕ → Handles A → Type 0
  Good n s = IsCounted s × HasRoom n s

  room_put :
      (side : Side) (c : Channel A) (l : List Bool) (n : ℕ) (s : Handles A)
      → HasRoom (suc n) s
      → length l ≤ length (handles side s) + 1
      → HasRoom n (put side c l s)
  room_put sender c l n s h le = record { room = each }
    where
      each : (side : Side) → length (handles side (put sender c l s)) + n < 2 ^ 64
      each sender = omega (arith, h.room sender, le)
      each receiver = omega (arith, h.room receiver)
  room_put receiver c l n s h le = record { room = each }
    where
      each : (side : Side) → length (handles side (put receiver c l s)) + n < 2 ^ 64
      each sender = omega (arith, h.room sender)
      each receiver = omega (arith, h.room receiver, le)

  room_less : (n : ℕ) (s : Handles A) → HasRoom (suc n) s → HasRoom n s
  room_less n s h = record { room = λ side. omega (arith, h.room side) }

  copy_from-After :
      (side : Side) (i n : ℕ) (o : Option Bool) (s : Handles A)
      → Good (suc n) s
      → get_elem? (handles side s) i ≡ o
      → After (Good n) (copy_from side o s)
  unfolding copy_from
  copy_from-After side i n none s g e = tt
  copy_from-After side i n (some false) s g e = tt
  copy_from-After side i n (some true) s g e =
      let few : length (handles side s) + 1 < 2 ^ 64 = omega (arith, g.1.room side) in
      (
        copied side i s g.0 e few,
        room_put side (add side s.channel) (handles side s ++ true ∷ []) n s g.1
            (omega (arith, length-append (handles side s) (true ∷ []))),
      )

  move_from-After :
      (side : Side) (i n : ℕ) (o : Option Bool) (s : Handles A)
      → Good (suc n) s
      → get_elem? (handles side s) i ≡ o
      → After (Good n) (move_from side i o s)
  unfolding move_from bit
  move_from-After side i n none s g e = tt
  move_from-After side i n (some b) s g e =
      let l = handles side s in
      (
        changed side s.channel (set l i false ++ b ∷ []) s g.0
            (g.0.counts side ∙ live-set l i b e ∙ omega (arith, live-append (set l i false) b)) refl
            g.0.closed,
        room_put side s.channel (set l i false ++ b ∷ []) n s g.1
            (omega (arith, length-append (set l i false) (b ∷ []), length-set l i false)),
      )

  close-After :
      (side : Side) (i n : ℕ) (o : Option Bool) (s : Handles A)
      → Good (suc n) s
      → get_elem? (handles side s) i ≡ o
      → After (Good n) (close side i o s)
  unfolding close
  close-After side i n none s g e = tt
  close-After side i n (some false) s g e = (g.0, room_less n s g.1)
  close-After side i n (some true) s g e =
      let l = handles side s in
      (
        left side i s g.0 e (omega (arith, g.1.room side)),
        room_put side (sub side s.channel).0 (set l i false) n s g.1
            (omega (arith, length-set l i false)),
      )

  assigned :
      (side : Side) (i j : ℕ) (s : Handles A)
      → IsCounted s
      → (i == j) ≡ false
      → get_elem? (handles side s) i ≡ some true
      → get_elem? (handles side s) j ≡ some true
      → length (handles side s) + 1 < 2 ^ 64
      → IsCounted (put side (add side (sub side s.channel).0) (handles side s) s)
  unfolding bit
  assigned side i j s v differ e e' few =
      let l = handles side s in
      let c = s.channel in
      let n = live (set l i false) in
      let count : num side c ≡ suc n = omega (arith, v.counts side, live-set l i true e) in
      let still : get_elem? (set l i false) j ≡ some true =
        get_elem?-set_ne l false (λ q. ground (arith, differ, q)) ∙ e' in
      let another = live-set (set l i false) j true still in
      let b =
        sub-Subbed side n c count
          (omega (arith, live_few (set l i false), length-set l i false, few)) in
      let c' = (sub side c).0 in
      let a =
        add-Added side c'
          (omega (arith, b.less, live_few (set l i false), length-set l i false, few)) in
      let some_left : (n == 0) ≡ false = ground (arith, another) in
      let open_still : (n == 0) || c.is_closed ≡ c.is_closed = rw some_left refl in
      changed side (add side c') l s v (omega (arith, a.more, b.less, count, v.counts side))
        (a.same ∙ b.same)
        (a.shut
          ∙ b.shut
          ∙ open_still
          ∙ v.closed
          ∙ none_left side c
          ∙ both_some (num side c) (num side (add side c')) (num (other side) c)
              (num (other side) (add side c')) (omega (arith, count)) (omega (arith, a.more))
              (sym (a.same ∙ b.same))
          ∙ sym (none_left side (add side c')))

  assign-After :
      (side : Side) (i j n : ℕ) (o o' : Option Bool) (s : Handles A)
      → Good (suc n) s
      → (i == j) ≡ false
      → get_elem? (handles side s) i ≡ o
      → get_elem? (handles side s) j ≡ o'
      → After (Good n) (assign side o o' s)
  unfolding assign
  assign-After side i j n none o' s g differ e e' = tt
  assign-After side i j n (some false) o' s g differ e e' = tt
  assign-After side i j n (some true) none s g differ e e' = tt
  assign-After side i j n (some true) (some false) s g differ e e' = tt
  assign-After side i j n (some true) (some true) s g differ e e' = (
    assigned side i j s g.0 differ e e' (omega (arith, g.1.room side)),
    room_put side (add side (sub side s.channel).0) (handles side s) n s g.1 (omega arith),
  )

  act-After :
      (x : Act) (n : ℕ) (s : Handles A) → IsPlain x → Good (suc n) s → After (Good n) (act x s)
  unfolding act IsPlain
  act-After (copies side i) n s plain g =
      copy_from-After side i n (get_elem? (handles side s) i) s g refl
  act-After (assigns side i j) n s plain g =
      assign-After side i j n (get_elem? (handles side s) i) (get_elem? (handles side s) j) s g
        plain refl refl
  act-After (moves side i) n s plain g =
      move_from-After side i n (get_elem? (handles side s) i) s g refl
  act-After (closes side i) n s plain g =
      close-After side i n (get_elem? (handles side s) i) s g refl

  ahead :
      (wakes : List (Wake A)) (o : Option (Handles A × List (Wake A)))
      → After IsCounted o
      → After IsCounted (then_wakes wakes o)
  ahead wakes none h = tt
  ahead wakes (some (s, more)) h = h

  then_run :
      (acts : List Act) (o : Option (Handles A × List (Wake A)))
      → After (Good (length acts)) o
      → ((s : Handles A) → Good (length acts) s → After IsCounted (run acts s))
      → After IsCounted (elim o [ none ↦ none | some (s, wakes) ↦ then_wakes wakes (run acts s) ])
  then_run acts none h k = tt
  then_run acts (some (s, wakes)) h k = ahead wakes (run acts s) (k s h)

  run-After :
      (acts : List Act) (s : Handles A)
      → ArePlain acts
      → Good (length acts) s
      → After IsCounted (run acts s)
  unfolding run ArePlain
  run-After [] s plain g = g.0
  run-After (x ∷ acts) s plain g =
      then_run acts (act x s) (act-After x (length acts) s plain.0 g)
        (λ s' g'. run-After acts s' plain.1 g')

  -- Copies, copy assignments other than to the handle itself, moves and closings of the senders and
  -- receivers of a channel, fewer than 2^64 of them in all, none of which uses a null pointer: if the
  -- channel's numbers were those of the handles that have it and it was closed when a side had none,
  -- then this is so afterwards. So it is closed as soon as its last sender or its last receiver has gone
  -- and not before.
  pub run-IsCounted :
      (acts : List Act) (s s' : Handles A) (wakes : List (Wake A))
      → ArePlain acts
      → IsCounted s
      → HasRoom (length acts) s
      → run acts s ≡ some (s', wakes)
      → IsCounted s'
  run-IsCounted acts s s' wakes plain v room e =
      subst (After IsCounted) e (run-After acts s plain (v, room))
