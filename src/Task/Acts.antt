-- ===== src/Task/Acts.antt =====
-- What the members of Task, and the ends of detached coroutines, do to the ownership.
use zedlibs.Prelude.{
  ℕ, ◌+◌, ◌<◌, ◌≡◌, refl, sym, ap, subst, ◌∙◌, Option, none, some, true, false, ◌==◌, if◌then◌else◌,
  inl, inr, Bool-cases, arith,
}
use zedlibs.Task.{
  Frame, Coroutines, Answer, store, fresh, ended, get_return_object, destroy, release, go_on,
  complete, final_suspend,
}
use zedlibs.Task.Frames.{put_same, put_other}
use zedlibs.Task.Chain.{Running}
use zedlibs.Task.Calls.{ended-Running}
use zedlibs.Task.Maps.{from, to_other}
use zedlibs.Task.Object.{
  Tasks, update, call, move_construct, destroy_handle, move_handle, move_assign, without, detach,
  resume_handle, end_body,
}
use zedlibs.Task.Owners.{Idle, IsOwned, Others, dropped, moved, detached, ended_detached}

some_number : (a b : ℕ) → some a ≡ some b → a ≡ b
some_number a b e = grind (arith, e)

module _ {E V : Type 0} where
  not_made : (t : Tasks E V) → IsOwned t → t.detached t.coroutines.next ≡ false
  not_made t v = elim (Bool-cases (t.detached t.coroutines.next)) [
    | inr free ↦ free
    | inl taken ↦ absurd (omega (arith, (v.free t.coroutines.next taken).made))
  ]

  idle_after_call : (cs : Coroutines E V) (g : ℕ) → Idle cs g → Idle (get_return_object cs).1 g
  unfolding get_return_object
  idle_after_call cs g idle =
      let differ : (g == cs.next) ≡ false = ground (arith, idle.made) in
      let same = put_other cs.frame cs.next g fresh differ in
      record {
        run = subst Running (sym same) idle.run;
        nobody = ap (λ p. p.caller) same ∙ idle.nobody;
        made = omega (arith, idle.made);
      }

  idle_called : (cs : Coroutines E V) → Idle (get_return_object cs).1 cs.next
  unfolding get_return_object
  idle_called cs =
      let same = put_same cs.frame cs.next fresh in
      record {
        run = record { live = ap (λ p. p.alive) same; no_ex = ap (λ p. p.ex) same };
        nobody = ap (λ p. p.caller) same;
        made = omega arith;
      }

  -- A frame that a call has made has the new object for its owner.
  pub called : (t : Tasks E V) → IsOwned t → IsOwned (call t)
  unfolding call get_return_object
  called t v =
      let cs = t.coroutines in
      let new = some cs.next in
      record {
        owned = λ k g eq. elim (from t.handle t.count new k g eq) [
          | inl (a, b) ↦
              let eq' = some_number cs.next g b in
              subst (λ h. Idle (get_return_object cs).1 h × (t.detached h ≡ false)) eq'
                (idle_called cs, not_made t v)
          | inr (a, at) ↦ let (idle, held) = v.owned k g at in (idle_after_call cs g idle, held)
        ];
        unique = λ k l g eq eq'. elim (from t.handle t.count new k g eq) [
          | inl (a, b) ↦ elim (from t.handle t.count new l g eq') [
            | inl (c, d) ↦ a ∙ sym c
            | inr (c, at) ↦ absurd (omega (arith, (v.owned l g at).0.made, some_number cs.next g b))
          ]
          | inr (a, at) ↦ elim (from t.handle t.count new l g eq') [
            | inl (c, d) ↦ absurd (omega (arith, (v.owned k g at).0.made, some_number cs.next g d))
            | inr (c, at') ↦ v.unique k l g at at'
          ]
        ];
        free = λ g d. idle_after_call cs g (v.free g d);
        kept = λ g low live. elim (Bool-cases (g == cs.next)) [
          | inl same ↦
              let self : (t.count == t.count) ≡ true = ground arith in
              let eq : cs.next ≡ g = ground (arith, same) in inr (t.count, rw self (ap some eq))
          | inr differ ↦
              let there = put_other cs.frame cs.next g fresh differ in
              elim (v.kept g (ground (arith, low, differ)) (ap (λ p. p.alive) (sym there) ∙ live)) [
                | inl d ↦ inl d
                | inr (k, at) ↦
                    let made : (k == t.count) ≡ false = elim (Bool-cases (k == t.count)) [
                      | inr other ↦ other
                      | inl same ↦
                          let none_yet = v.unused k (ground (arith, same)) in
                          absurd (grind (arith, none_yet, at))
                    ] in
                    inr (k, to_other t.handle t.count new k made ∙ at)
              ]
        ];
        unused = λ k le.
            let differ : (k == t.count) ≡ false = ground (arith, le) in
            to_other t.handle t.count new k differ ∙ v.unused k (omega (arith, le));
      }

  destroy_lem :
      (h : ℕ) (cs : Coroutines E V)
      → Idle cs h
      → (cs' : Coroutines E V) × (destroy h cs ≡ some cs') × Others h cs cs'
  unfolding destroy release
  destroy_lem h cs idle =
      let dead = record (cs.frame h) { alive = false } in
      (
        store cs h dead,
        ap (λ b. if b then some (store cs h dead) else none) idle.run.live,
        record {
          same = λ k e. put_other cs.frame h k dead e;
          next = refl;
          dead = ap (λ p. p.alive) (put_same cs.frame h dead);
        },
      )

  destroy_handle_lem :
      (i h : ℕ) (t : Tasks E V)
      → IsOwned t
      → t.handle i ≡ some h
      → (t' : Tasks E V) × (destroy_handle i (some h) t ≡ some t')
        × IsOwned t'
        × (t'.handle i ≡ none)
        × (t'.count ≡ t.count)
  unfolding destroy_handle
  destroy_handle_lem i h t v e =
      let (cs, gone, o) = destroy_lem h t.coroutines (v.owned i h e).0 in
      let self : (i == i) ≡ true = ground arith in
      (
        record t { coroutines = cs; handle = update t.handle i none },
        ap
            (λ r. elim r [
              | none ↦ none
              | some cs' ↦ some (record t { coroutines = cs'; handle = update t.handle i none })
            ])
            gone,
        dropped i h t cs v e o,
        rw self refl,
        refl,
      )

  -- The outcome of an act.
  abbrev pub Owned : Option (Tasks E V) → Type 0
  Owned out = (t' : Tasks E V) × (out ≡ some t') × IsOwned t'

  pub move_construct_lem : (j : ℕ) (t : Tasks E V) → IsOwned t → IsOwned (move_construct j t)
  unfolding move_construct
  move_construct_lem j t v =
      moved t.count j (t.count + 1) t v (v.unused t.count (omega arith)) (omega arith) (omega arith)

  pub destruct_lem :
      (i : ℕ) (o : Option ℕ) (t : Tasks E V)
      → IsOwned t
      → t.handle i ≡ o
      → (t' : Tasks E V) × (destroy_handle i o t ≡ some t')
        × IsOwned t'
        × (t'.handle i ≡ none)
        × (t'.count ≡ t.count)
  unfolding destroy_handle
  destruct_lem i none t v e = (t, refl, v, e, refl)
  destruct_lem i (some h) t v e = destroy_handle_lem i h t v e

  pub move_assign_lem :
      (i j : ℕ) (t : Tasks E V) → IsOwned t → i < t.count → Owned (move_assign i j t)
  unfolding move_assign
  move_assign_lem i j t v made = elim (Bool-cases (j == i)) [
    | inl same ↦ rw same (t, refl, v)
    | inr differ ↦
        let (t', gone, v', empty, count) = destruct_lem i (t.handle i) t v refl in
        rw differ (
          move_handle i j t',
          ap (λ o. elim o [ none ↦ none | some t'' ↦ some (move_handle i j t'') ]) gone,
          moved i j t'.count t' v' empty (omega (arith, made, count)) (omega arith),
        )
  ]

  pub take_lem :
      (i : ℕ) (o : Option ℕ) (t : Tasks E V)
      → IsOwned t
      → t.handle i ≡ o
      → IsOwned (detach (o, without i o t))
  take_lem i none t v e = v
  take_lem i (some h) t v e = detached i h t v e

  release_lem :
      (h : ℕ) (p : Frame E V) (cs : Coroutines E V)
      → p.alive ≡ true
      → release h p (store cs h p) ≡ some (store (store cs h p) h (record p { alive = false }))
  unfolding release
  release_lem h p cs live = rw live refl

  -- The state after the end of the body of `h`.
  abbrev pub after_end : ℕ → Answer E V → Tasks E V → Tasks E V
  after_end h a t =
      let p = ended a (t.coroutines.frame h) in
      record t {
        coroutines = store (complete h a t.coroutines) h (record p { alive = false });
        detached = update t.detached h false;
      }

  -- Nobody awaits the frame, so its final awaiter destroys it.
  pub end_body_lem :
      (h : ℕ) (a : Answer E V) (t : Tasks E V)
      → Idle t.coroutines h
      → (end_body h a t ≡ some (after_end h a t))
        × Others h t.coroutines (after_end h a t).coroutines
  unfolding end_body go_on destroy
  end_body_lem h a t idle =
      let cs = t.coroutines in
      let p = ended a (cs.frame h) in
      let dead = record p { alive = false } in
      let found = put_same cs.frame h p in
      let (calls, live, answer) = ended-Running a (cs.frame h) idle.run in
      let gone : destroy h (complete h a cs) ≡ some (store (complete h a cs) h dead) =
        ap (λ q. release h q (complete h a cs)) found ∙ release_lem h p cs live in
      let goes : final_suspend h (complete h a cs) ≡ some (none, store (complete h a cs) h dead) =
        ap (λ k. go_on k h (complete h a cs)) (ap (λ q. q.caller) found ∙ calls ∙ idle.nobody)
        ∙ ap (λ o. elim o [ none ↦ none | some s' ↦ some (none, s') ]) gone in
      (
        ap
            (λ o. elim o [
              | none ↦ none
              | some (k, cs') ↦
                  some (record t { coroutines = cs'; detached = update t.detached h false })
            ])
            goes,
        record {
          same = λ k e. put_other (complete h a cs).frame h k dead e ∙ put_other cs.frame h k p e;
          next = refl;
          dead = ap (λ q. q.alive) (put_same (complete h a cs).frame h dead);
        },
      )

  pub end_lem :
      (h : ℕ) (a : Answer E V) (t : Tasks E V)
      → IsOwned t
      → t.detached h ≡ true
      → Owned (end_body h a t)
  end_lem h a t v d =
      let (goes, others) = end_body_lem h a t (v.free h d) in
      (_, goes, ended_detached h t (after_end h a t).coroutines v d others)

  -- A frame that has been destroyed is not destroyed again.
  pub destroy_handle-dead :
      (i h : ℕ) (t : Tasks E V)
      → (t.coroutines.frame h).alive ≡ false
      → destroy_handle i (some h) t ≡ none
  unfolding destroy_handle destroy release
  destroy_handle-dead i h t dead = rw (dead, destroy_handle, destroy, release) refl

  -- A frame that an object owns suspends again.
  pub resume_lem :
      (i h : ℕ) (t : Tasks E V)
      → IsOwned t
      → t.handle i ≡ some h
      → Owned (resume_handle (t.handle i) none t)
  unfolding resume_handle
  resume_lem i h t v e = rw e (rw ((v.owned i h e).0.run.live) (t, refl, v))
