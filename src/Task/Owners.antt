-- ===== src/Task/Owners.antt =====
-- The Task objects and the frames: each frame that exists has one owner.
use zedlibs.Prelude.{
  ℕ, ◌≤◌, ◌<◌, ◌≡◌, refl, sym, ap, subst, ◌∙◌, none, some, true, false, ◌==◌, ◌⊎◌, inl, inr,
  Bool-cases, arith,
}
use zedlibs.Task.{Coroutines}
use zedlibs.Task.Chain.{Running}
use zedlibs.Task.Maps.{from_none, to_other, to_none, moved_from, moved_to}
use zedlibs.Task.Object.{Tasks, update}

module _ {E V : Type 0} where
  -- A frame that nobody awaits and that has not been destroyed.
  pub record Idle (cs : Coroutines E V) (h : ℕ) : Type 0 where
    pub run : Running (cs.frame h)
    pub nobody : (cs.frame h).caller ≡ none
    pub made : h < cs.next

  pub record IsOwned (t : Tasks E V) : Type 0 where
    pub owned : (i h : ℕ) → t.handle i ≡ some h → Idle t.coroutines h × (t.detached h ≡ false)
    pub unique : (i j h : ℕ) → t.handle i ≡ some h → t.handle j ≡ some h → i ≡ j
    pub free : (h : ℕ) → t.detached h ≡ true → Idle t.coroutines h
    pub kept :
        (h : ℕ)
        → h < t.coroutines.next
        → (t.coroutines.frame h).alive ≡ true
        → (t.detached h ≡ true) ⊎ ((i : ℕ) × (t.handle i ≡ some h))
    pub unused : (i : ℕ) → t.count ≤ i → t.handle i ≡ none

  -- The frames but for one are the same.
  pub record Others (h : ℕ) (cs cs' : Coroutines E V) : Type 0 where
    pub same : (k : ℕ) → (k == h) ≡ false → cs'.frame k ≡ cs.frame k
    pub next : cs'.next ≡ cs.next
    pub dead : (cs'.frame h).alive ≡ false

  idle_other :
      (h k : ℕ) (cs cs' : Coroutines E V)
      → Others h cs cs'
      → (k == h) ≡ false
      → Idle cs k
      → Idle cs' k
  idle_other h k cs cs' o e idle =
      let same = sym (o.same k e) in
      record {
        run = subst Running same idle.run;
        nobody = ap (λ p. p.caller) (o.same k e) ∙ idle.nobody;
        made = omega (arith, idle.made, o.next);
      }

  -- The frames of other objects are other frames, and so are the detached ones.
  pub apart :
      (t : Tasks E V) (i k h g : ℕ)
      → IsOwned t
      → t.handle i ≡ some h
      → t.handle k ≡ some g
      → (k == i) ≡ false
      → (g == h) ≡ false
  apart t i k h g v e e' other = elim (Bool-cases (g == h)) [
    | inr differ ↦ differ
    | inl same ↦
        let eq : g ≡ h = ground (arith, same) in
        let there : k ≡ i = v.unique k i h (e' ∙ ap some eq) e in
        absurd (ground (arith, there, other))
  ]

  detached_apart :
      (t : Tasks E V) (i h g : ℕ)
      → IsOwned t
      → t.handle i ≡ some h
      → t.detached g ≡ true
      → (g == h) ≡ false
  detached_apart t i h g v e d = elim (Bool-cases (g == h)) [
    | inr differ ↦ differ
    | inl same ↦
        let eq : g ≡ h = ground (arith, same) in
        let (idle, not_detached) = v.owned i g (e ∙ ap some (sym eq)) in
        absurd (grind (arith, d, not_detached))
  ]

  still_at :
      (t : Tasks E V) (i k h g : ℕ)
      → t.handle k ≡ some g
      → t.handle i ≡ some h
      → (g == h) ≡ false
      → update t.handle i none k ≡ some g
  still_at t i k h g at e differ = elim (Bool-cases (k == i)) [
    | inr other ↦ rw other at
    | inl same ↦
        let eq : k ≡ i = ground (arith, same) in
        let both : some g ≡ some h = sym at ∙ ap t.handle eq ∙ e in
        absurd (grind (arith, both, differ))
  ]

  alive_other :
      (h g : ℕ) (cs cs' : Coroutines E V)
      → Others h cs cs'
      → (cs'.frame g).alive ≡ true
      → ((g == h) ≡ false) × ((cs.frame g).alive ≡ true)
  alive_other h g cs cs' o live = elim (Bool-cases (g == h)) [
    | inr differ ↦ (differ, ap (λ p. p.alive) (sym (o.same g differ)) ∙ live)
    | inl same ↦
        let eq : g ≡ h = ground (arith, same) in
        let died : (cs'.frame g).alive ≡ false = ap (λ k. (cs'.frame k).alive) eq ∙ o.dead in
        absurd (grind (arith, died, live))
  ]

  -- The object `i` owned the frame `h`, which is gone.
  pub dropped :
      (i h : ℕ) (t : Tasks E V) (cs : Coroutines E V)
      → IsOwned t
      → t.handle i ≡ some h
      → Others h t.coroutines cs
      → IsOwned (record t { coroutines = cs; handle = update t.handle i none })
  dropped i h t cs v e o = record {
    owned = λ k g eq.
        let (other, at) = from_none t.handle i k g eq in
        let (idle, not_detached) = v.owned k g at in
        (idle_other h g t.coroutines cs o (apart t i k h g v e at other) idle, not_detached);
    unique = λ j k g eq eq'.
        v.unique j k g (from_none t.handle i j g eq).1 (from_none t.handle i k g eq').1;
    free = λ g d. idle_other h g t.coroutines cs o (detached_apart t i h g v e d) (v.free g d);
    kept = λ g low live.
        let (differ, lived) = alive_other h g t.coroutines cs o live in
        elim (v.kept g (omega (arith, low, o.next)) lived) [
          | inl d ↦ inl d
          | inr (k, at) ↦ inr (k, still_at t i k h g at e differ)
        ];
    unused = λ k le. to_none t.handle i k (v.unused k le);
  }

  -- The object `i` has the handle of `j`.
  pub moved :
      (i j count : ℕ) (t : Tasks E V)
      → IsOwned t
      → t.handle i ≡ none
      → i < count
      → t.count ≤ count
      → IsOwned
          (record t { handle = update (update t.handle i (t.handle j)) j none; count = count })
  moved i j count t v empty low more = record {
    owned = λ k g eq. elim (moved_from t.handle i j k g eq) [
      | inl (a, at) ↦ v.owned j g at
      | inr (a, b, at) ↦ v.owned k g at
    ];
    unique = λ k l g eq eq'. elim (moved_from t.handle i j k g eq) [
      | inl (a, at) ↦ elim (moved_from t.handle i j l g eq') [
        | inl (b, at') ↦ a ∙ sym b
        | inr (b, c, at') ↦ let same = v.unique l j g at' at in absurd (ground (arith, same, c))
      ]
      | inr (a, b, at) ↦ elim (moved_from t.handle i j l g eq') [
        | inl (c, at') ↦ let same = v.unique k j g at at' in absurd (ground (arith, same, b))
        | inr (c, d, at') ↦ v.unique k l g at at'
      ]
    ];
    free = v.free;
    kept = λ g low live. elim (v.kept g low live) [
      | inl d ↦ inl d
      | inr (k, at) ↦ inr (moved_to t.handle i j k g empty at)
    ];
    unused = λ k le.
        let other : (k == i) ≡ false = ground (arith, le, low) in
        to_none (update t.handle i (t.handle j)) j k
          (to_other t.handle i (t.handle j) k other ∙ v.unused k (omega (arith, le, more)));
  }

  -- What `take` has taken from `i` is detached.
  pub detached :
      (i h : ℕ) (t : Tasks E V)
      → IsOwned t
      → t.handle i ≡ some h
      → IsOwned (record t { handle = update t.handle i none; detached = update t.detached h true })
  detached i h t v e = record {
    owned = λ k g eq.
        let (other, at) = from_none t.handle i k g eq in
        let (idle, not_detached) = v.owned k g at in
        let differ = apart t i k h g v e at other in (idle, rw differ not_detached);
    unique = λ j k g eq eq'.
        v.unique j k g (from_none t.handle i j g eq).1 (from_none t.handle i k g eq').1;
    free = λ g d. elim (Bool-cases (g == h)) [
      | inl same ↦
          let eq : h ≡ g = ground (arith, same) in subst (Idle t.coroutines) eq (v.owned i h e).0
      | inr differ ↦ v.free g (grind (arith, d, differ))
    ];
    kept = λ g low live. elim (Bool-cases (g == h)) [
      | inl same ↦ inl (rw same refl)
      | inr differ ↦ elim (v.kept g low live) [
        | inl d ↦ inl (rw differ d)
        | inr (k, at) ↦ inr (k, still_at t i k h g at e differ)
      ]
    ];
    unused = λ k le. to_none t.handle i k (v.unused k le);
  }

  -- A detached frame is gone.
  pub ended_detached :
      (h : ℕ) (t : Tasks E V) (cs : Coroutines E V)
      → IsOwned t
      → t.detached h ≡ true
      → Others h t.coroutines cs
      → IsOwned (record t { coroutines = cs; detached = update t.detached h false })
  ended_detached h t cs v d o = record {
    owned = λ k g at.
        let (idle, not_detached) = v.owned k g at in
        let differ : (g == h) ≡ false = elim (Bool-cases (g == h)) [
          | inr differ ↦ differ
          | inl same ↦
              let eq : h ≡ g = ground (arith, same) in
              let there : t.detached g ≡ true = ap t.detached (sym eq) ∙ d in
              absurd (grind (arith, there, not_detached))
        ] in
        (idle_other h g t.coroutines cs o differ idle, rw differ not_detached);
    unique = v.unique;
    free = λ g e. elim (Bool-cases (g == h)) [
      | inl same ↦ absurd (grind (arith, same, e))
      | inr differ ↦ idle_other h g t.coroutines cs o differ (v.free g (grind (arith, e, differ)))
    ];
    kept = λ g low live.
        let (differ, lived) = alive_other h g t.coroutines cs o live in
        elim (v.kept g (omega (arith, low, o.next)) lived) [
          | inl e ↦ inl (rw differ e)
          | inr found ↦ inr found
        ];
    unused = v.unused;
  }
