-- ===== src/Task/Ownership.antt =====
-- Sequences of acts on Task objects, and the frames that they destroy.
use zedlibs.Prelude.{
  ℕ, ◌≡◌, refl, ap, subst, ◌∙◌, List, [], ◌∷◌, none, some, true, ltb, inl, inr, Bool-cases, arith,
}
use zedlibs.Task.{Answer}
use zedlibs.Task.Object.{
  Tasks, Act, call_act, move_act, assign_act, destruct_act, take_act, end_act, call, move_construct,
  destruct, take, resume, resume_handle, destroy_handle, resume_act, without, detach, act, run,
  start,
}
use zedlibs.Task.Owners.{IsOwned}
use zedlibs.Task.Acts.{
  Owned, called, move_construct_lem, destruct_lem, move_assign_lem, take_lem, after_end,
  end_body_lem, end_lem, destroy_handle-dead, resume_lem,
}

module _ {E V : Type 0} where
  -- The runtime ends the body of a detached frame only, and Task::resume, of an object with a handle,
  -- does not come to the end of the body.
  abbrev pub IsSafe : Act E V → Tasks E V → Type 0
  IsSafe call_act t = Unit {0}
  IsSafe (move_act j) t = Unit {0}
  IsSafe (assign_act i j) t = Unit {0}
  IsSafe (destruct_act i) t = Unit {0}
  IsSafe (take_act i) t = Unit {0}
  IsSafe (resume_act i answer) t = ((h : ℕ) × (t.handle i ≡ some h)) × (answer ≡ none)
  IsSafe (end_act h a) t = t.detached h ≡ true

  -- Each act is safe when its turn comes.
  abbrev pub AreSafe : List (Act E V) → Tasks E V → Type 0
  AreSafe [] t = Unit {0}
  AreSafe (x ∷ acts) t = IsSafe x t × elim (act x t) [ none ↦ Unit {0} | some t' ↦ AreSafe acts t' ]

  act-Owned : (x : Act E V) (t : Tasks E V) → IsOwned t → IsSafe x t → Owned (act x t)
  unfolding act destruct take resume
  act-Owned call_act t v w = (call t, refl, called t v)
  act-Owned (move_act j) t v w = (move_construct j t, refl, move_construct_lem j t v)
  act-Owned (assign_act i j) t v w = elim (Bool-cases (ltb i t.count)) [
    | inl made ↦ rw made (move_assign_lem i j t v (ground (arith, made)))
    | inr not_yet ↦ rw not_yet (t, refl, v)
  ]
  act-Owned (destruct_act i) t v w =
      let (t', gone, v', empty, count) = destruct_lem i (t.handle i) t v refl in (t', gone, v')
  act-Owned (take_act i) t v w =
      (detach (t.handle i, without i (t.handle i) t), refl, take_lem i (t.handle i) t v refl)
  act-Owned (resume_act i answer) t v ((h, e), w) = rw w (resume_lem i h t v e)
  act-Owned (end_act h a) t v d = end_lem h a t v d

  -- Over coroutines that nobody awaits: from a state where each frame that exists has one owner, a Task
  -- object or, once its handle is taken, the runtime, any sequence of calls, moves, assignments,
  -- destructions, takes, resumptions and ends destroys no frame twice and leaves such a state: no frame
  -- that exists is without an owner. The ends are those of frames that the runtime owns, and
  -- Task::resume is called on objects that have a handle, whose bodies suspend again.
  pub run-IsOwned :
      (acts : List (Act E V)) (t : Tasks E V)
      → IsOwned t
      → AreSafe acts t
      → (t' : Tasks E V) × (run acts t ≡ some t') × IsOwned t'
  unfolding run
  run-IsOwned [] t v w = (t, refl, v)
  run-IsOwned (x ∷ acts) t v (one, later) =
      let (t', goes, v') = act-Owned x t v one in
      let rest = subst (λ o. elim o [ none ↦ Unit {0} | some u ↦ AreSafe acts u ]) goes later in
      let (t'', ends, v'') = run-IsOwned acts t' v' rest in
      (t'', ap (λ o. elim o [ none ↦ none | some u ↦ run acts u ]) goes ∙ ends, v'')

  -- If the body of a frame that an object owns comes to its end in Task::resume, the final awaiter
  -- destroys the frame, and the object destroys it once more.
  pub resume_destruct_twice :
      (i h : ℕ) (a : Answer E V) (t : Tasks E V)
      → IsOwned t
      → t.handle i ≡ some h
      → run (resume_act i (some a) ∷ destruct_act i ∷ []) t ≡ none
  unfolding run act resume resume_handle destruct
  resume_destruct_twice i h a t v e =
      let (goes, others) = end_body_lem h a t (v.owned i h e).0 in
      ap (λ o. elim o [ none ↦ none | some t' ↦ run (destruct_act i ∷ []) t' ])
        (ap (λ o. resume_handle o (some a) t) e ∙ goes)
      ∙ ap (λ o. elim o [ none ↦ none | some t' ↦ run [] t' ])
          (ap (λ o. destroy_handle i o (after_end h a t)) e
            ∙ destroy_handle-dead i h (after_end h a t) others.dead)

  pub start-IsOwned : IsOwned {E = E} {V = V} start
  unfolding start
  start-IsOwned = record {
    owned = λ i h e. absurd (grind (arith, e));
    unique = λ i j h e e'. absurd (grind (arith, e));
    free = λ h d. absurd (grind (arith, d));
    kept = λ h low live. absurd (omega (arith, low));
    unused = λ i le. refl;
  }
