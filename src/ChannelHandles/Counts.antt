-- ===== src/ChannelHandles/Counts.antt =====
-- The channel counts its handles, and is closed once one side has none left.
use zedlibs.Prelude.{
  ℕ, zero, suc, ◌+◌, ◌-◌, ◌%◌, ◌≤◌, ◌<◌, ◌^◌, ◌≡◌, refl, sym, ap, ◌∙◌, List, [], ◌∷◌, ◌++◌, length,
  length-set, get_elem?, set, some, Bool, true, false, ◌==◌, ◌||◌, Bool-cases, inl, inr, arith,
}
use zedlibs.Ring.{size_t}
use zedlibs.Channel.{Channel, add_sender, sub_sender, add_receiver, sub_receiver, destroy}
use zedlibs.ChannelHandles.{Side, sender, receiver, Handles, handles, put, add, sub}

unfoldable pub bit : Bool → ℕ
bit true = 1
bit false = 0

-- How many of the handles have the channel.
unfoldable pub live : List Bool → ℕ
live [] = 0
live (b ∷ l) = bit b + live l

pub live-append : (l : List Bool) (b : Bool) → live (l ++ b ∷ []) ≡ live l + bit b
unfolding live
live-append [] b = omega arith
live-append (x ∷ l) b = omega (arith, live-append l b)

pub live-set :
    (l : List Bool) (i : ℕ) (b : Bool)
    → get_elem? l i ≡ some b
    → live l ≡ live (set l i false) + bit b
unfolding live bit
live-set [] i b e = absurd (grind (arith, e))
live-set (x ∷ l) zero b e =
    let same : x ≡ b = grind (arith, e) in ap (λ y. bit y + live l) same ∙ omega arith
live-set (x ∷ l) (suc i) b e = omega (arith, live-set l i b e)

pub live_few : (l : List Bool) → live l ≤ length l
unfolding live bit
live_few [] = omega arith
live_few (true ∷ l) = omega (arith, live_few l)
live_few (false ∷ l) = omega (arith, live_few l)

abbrev pub other : Side → Side
other sender = receiver
other receiver = sender

pub both_some :
    (m n o o' : ℕ) → 0 < m → 0 < n → o ≡ o' → (m == 0) || (o == 0) ≡ (n == 0) || (o' == 0)
both_some m n o o' p q e = ground arith

pub both_shut :
    (m n o o' : ℕ) → 0 < m → o ≡ o' → (n == 0) || ((m == 0) || (o == 0)) ≡ (n == 0) || (o' == 0)
both_shut m n o o' p e = ground arith

module _ {ℓ} {A : Type ℓ} where
  abbrev pub num : Side → Channel A → ℕ
  num sender c = c.num_senders
  num receiver c = c.num_receivers

  -- The channel counts the handles of each side that have it, and is closed if a side has none.
  pub record IsCounted (s : Handles A) : Type 0 where
    pub counts : (side : Side) → num side s.channel ≡ live (handles side s)
    pub closed :
        s.channel.is_closed ≡ (s.channel.num_senders == 0) || (s.channel.num_receivers == 0)

  pub record Added (side : Side) (c c' : Channel A) : Type 0 where
    pub more : num side c' ≡ num side c + 1
    pub same : num (other side) c' ≡ num (other side) c
    pub shut : c'.is_closed ≡ c.is_closed

  pub add-Added :
      (side : Side) (c : Channel A) → num side c + 1 < 2 ^ 64 → Added side c (add side c)
  unfolding add_sender add_receiver
  add-Added sender c few = record { more = omega (arith, few); same = refl; shut = refl }
  add-Added receiver c few = record { more = omega (arith, few); same = refl; shut = refl }

  pub record Subbed (side : Side) (n : ℕ) (c c' : Channel A) : Type 0 where
    pub less : num side c' ≡ n
    pub same : num (other side) c' ≡ num (other side) c
    pub shut : c'.is_closed ≡ (n == 0) || c.is_closed

  destroy_lem :
      (c : Channel A)
      → ((destroy c).0.is_closed ≡ true)
        × ((destroy c).0.num_senders ≡ c.num_senders)
        × ((destroy c).0.num_receivers ≡ c.num_receivers)
  unfolding destroy
  destroy_lem c = elim (Bool-cases c.is_closed) [
    | inl e ↦ rw e (refl, refl, refl)
    | inr e ↦ rw e (refl, refl, refl)
  ]

  pub sub-Subbed :
      (side : Side) (n : ℕ) (c : Channel A)
      → num side c ≡ suc n
      → suc n < 2 ^ 64
      → Subbed side n c (sub side c).0
  unfolding sub_sender sub_receiver
  sub-Subbed sender n c e few =
      let left : (c.num_senders + 2 ^ 64 - 1) % 2 ^ 64 ≡ n = omega (arith, e, few) in
      let d = destroy_lem (record c { num_senders = size_t (c.num_senders + 2 ^ 64 - 1) }) in
      elim (Bool-cases (c.num_senders == 1)) [
        | inl one ↦
            let last : (n == 0) ≡ true = ground (arith, one, e) in
            rw one (record { less = d.1 ∙ left; same = d.2; shut = d.0 ∙ rw last refl })
        | inr many ↦
            let last : (n == 0) ≡ false = ground (arith, many, e) in
            rw many (record { less = left; same = refl; shut = rw last refl })
      ]
  sub-Subbed receiver n c e few =
      let left : (c.num_receivers + 2 ^ 64 - 1) % 2 ^ 64 ≡ n = omega (arith, e, few) in
      let d = destroy_lem (record c { num_receivers = size_t (c.num_receivers + 2 ^ 64 - 1) }) in
      elim (Bool-cases (c.num_receivers == 1)) [
        | inl one ↦
            let last : (n == 0) ≡ true = ground (arith, one, e) in
            rw one (record { less = d.2 ∙ left; same = d.1; shut = d.0 ∙ rw last refl })
        | inr many ↦
            let last : (n == 0) ≡ false = ground (arith, many, e) in
            rw many (record { less = left; same = refl; shut = rw last refl })
      ]

  -- What a change of one side's handles has to keep.
  pub changed :
      (side : Side) (c : Channel A) (l : List Bool) (s : Handles A)
      → IsCounted s
      → num side c ≡ live l
      → num (other side) c ≡ num (other side) s.channel
      → c.is_closed ≡ (c.num_senders == 0) || (c.num_receivers == 0)
      → IsCounted (put side c l s)
  changed sender c l s v n m shut = record { counts = each; closed = shut }
    where
      each : (side : Side) → num side c ≡ live (handles side (put sender c l s))
      each sender = n
      each receiver = m ∙ v.counts receiver
  changed receiver c l s v n m shut = record { counts = each; closed = shut }
    where
      each : (side : Side) → num side c ≡ live (handles side (put receiver c l s))
      each sender = m ∙ v.counts sender
      each receiver = n

  -- Whether the channel is closed, seen from either side.
  pub none_left :
      (side : Side) (c : Channel A)
      → ((c.num_senders == 0) || (c.num_receivers == 0))
        ≡ (num side c == 0) || (num (other side) c == 0)
  none_left sender c = refl
  none_left receiver c = ground arith

  -- A copy of a handle that has the channel.
  pub copied :
      (side : Side) (i : ℕ) (s : Handles A)
      → IsCounted s
      → get_elem? (handles side s) i ≡ some true
      → length (handles side s) + 1 < 2 ^ 64
      → IsCounted (put side (add side s.channel) (handles side s ++ true ∷ []) s)
  unfolding bit
  copied side i s v e few =
      let l = handles side s in
      let c = s.channel in
      let some_there = live-set l i true e in
      let a = add-Added side c (omega (arith, v.counts side, live_few l, few)) in
      changed side (add side c) (l ++ true ∷ []) s v
        (omega (arith, a.more, v.counts side, live-append l true)) a.same
        (a.shut
          ∙ v.closed
          ∙ none_left side c
          ∙ both_some (num side c) (num side (add side c)) (num (other side) c)
              (num (other side) (add side c)) (omega (arith, some_there, v.counts side))
              (omega (arith, a.more)) (sym a.same)
          ∙ sym (none_left side (add side c)))

  -- A handle that has the channel is closed.
  pub left :
      (side : Side) (i : ℕ) (s : Handles A)
      → IsCounted s
      → get_elem? (handles side s) i ≡ some true
      → length (handles side s) + 1 < 2 ^ 64
      → IsCounted (put side (sub side s.channel).0 (set (handles side s) i false) s)
  unfolding bit
  left side i s v e few =
      let l = handles side s in
      let c = s.channel in
      let n = live (set l i false) in
      let count : num side c ≡ suc n = omega (arith, v.counts side, live-set l i true e) in
      let b =
        sub-Subbed side n c count
          (omega (arith, live_few (set l i false), length-set l i false, few)) in
      let c' = (sub side c).0 in
      changed side c' (set l i false) s v b.less b.same (
        b.shut
        ∙ ap (λ k. (n == 0) || k) (v.closed ∙ none_left side c)
        ∙ both_shut (num side c) n (num (other side) c) (num (other side) c') (omega (arith, count))
            (sym b.same)
        ∙ ap (λ k. (k == 0) || (num (other side) c' == 0)) (sym b.less)
        ∙ sym (none_left side c'))
