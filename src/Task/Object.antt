-- ===== src/Task/Object.antt =====
-- The class Task: the objects that own the frames. An object is a number, and it exists up to its
-- destructor; `none` is its null handle, and also that there is no such object.
use zedlibs.Prelude.{
  ℕ, ◌+◌, List, [], ◌∷◌, Option, none, some, Bool, true, false, ◌==◌, ltb, if◌then◌else◌,
}
use zedlibs.Task.{Coroutines, Answer, fresh, get_return_object, destroy, complete, final_suspend}

-- `count` objects have been made. `detached` are the frames whose handles `take` has given away: the
-- runtime resumes them, and nobody awaits them.
pub record Tasks (E V : Type 0) : Type 0 where
  pub coroutines : Coroutines E V
  pub handle : ℕ → Option ℕ
  pub count : ℕ
  pub detached : ℕ → Bool

-- The members, the call of a coroutine, and the end of the body of one, when the runtime has resumed
-- it.
pub data Act (E V : Type 0) : Type 0 where
  call_act : Act E V
  move_act : ℕ → Act E V
  assign_act : ℕ → ℕ → Act E V
  destruct_act : ℕ → Act E V
  take_act : ℕ → Act E V
  resume_act : ℕ → Option (Answer E V) → Act E V
  end_act : ℕ → Answer E V → Act E V

abbrev pub update {ℓ} : {B : Type ℓ} → (ℕ → B) → ℕ → B → ℕ → B
update f i v k = if k == i then v else f k

module _ {E V : Type 0} where
  -- A new object has the handle of the new frame.
  unfoldable pub call : Tasks E V → Tasks E V
  call t =
      let (h, cs) = get_return_object t.coroutines in
      record t { coroutines = cs; handle = update t.handle t.count (some h); count = t.count + 1 }

  unfoldable pub move_construct : ℕ → Tasks E V → Tasks E V
  move_construct other t = record t {
    handle = update (update t.handle t.count (t.handle other)) other none;
    count = t.count + 1;
  }

  -- `if (handle_) { handle_.destroy(); }`, after which the object's handle is not used any more.
  unfoldable pub destroy_handle : ℕ → Option ℕ → Tasks E V → Option (Tasks E V)
  destroy_handle this none t = some t
  destroy_handle this (some h) t = elim (destroy h t.coroutines) [
    | none ↦ none
    | some cs ↦ some (record t { coroutines = cs; handle = update t.handle this none })
  ]

  unfoldable pub destruct : ℕ → Tasks E V → Option (Tasks E V)
  destruct this t = destroy_handle this (t.handle this) t

  abbrev pub move_handle : ℕ → ℕ → Tasks E V → Tasks E V
  move_handle this other t = record t {
    handle = update (update t.handle this (t.handle other)) other none;
  }

  unfoldable pub move_assign : ℕ → ℕ → Tasks E V → Option (Tasks E V)
  move_assign this other t =
      if other == this then some t else elim (destroy_handle this (t.handle this) t) [
        | none ↦ none
        | some t' ↦ some (move_handle this other t')
      ]

  abbrev pub without : ℕ → Option ℕ → Tasks E V → Tasks E V
  without this none t = t
  without this (some h) t = record t { handle = update t.handle this none }

  -- The handle, or `none` where it throws.
  unfoldable pub take : ℕ → Tasks E V → Option ℕ × Tasks E V
  take this t = (t.handle this, without this (t.handle this) t)

  -- What has been taken is detached.
  abbrev pub detach : Option ℕ × Tasks E V → Tasks E V
  detach (none, t) = t
  detach (some h, t) = record t { detached = update t.detached h true }

  -- The body of `h` runs to its end, and on through its final awaiter.
  unfoldable pub end_body : ℕ → Answer E V → Tasks E V → Option (Tasks E V)
  end_body h a t = elim (final_suspend h (complete h a t.coroutines)) [
    | none ↦ none
    | some (k, cs) ↦ some (record t { coroutines = cs; detached = update t.detached h false })
  ]

  -- `handle_.resume()`, after which the body suspends again, or runs to its end with an answer. `none`
  -- is that there is no frame to resume.
  unfoldable pub resume_handle : Option ℕ → Option (Answer E V) → Tasks E V → Option (Tasks E V)
  resume_handle none answer t = none
  resume_handle (some h) none t = if (t.coroutines.frame h).alive then some t else none
  resume_handle (some h) (some a) t = end_body h a t

  unfoldable pub resume : ℕ → Option (Answer E V) → Tasks E V → Option (Tasks E V)
  resume this answer t = resume_handle (t.handle this) answer t

  -- An assignment to an object that has not been made is no act.
  unfoldable pub act : Act E V → Tasks E V → Option (Tasks E V)
  act call_act t = some (call t)
  act (move_act other) t = some (move_construct other t)
  act (assign_act this other) t = if ltb this t.count then move_assign this other t else some t
  act (destruct_act this) t = destruct this t
  act (take_act this) t = some (detach (take this t))
  act (resume_act this answer) t = resume this answer t
  act (end_act h a) t = end_body h a t

  unfoldable pub run : List (Act E V) → Tasks E V → Option (Tasks E V)
  run [] t = some t
  run (x ∷ acts) t = elim (act x t) [ none ↦ none | some t' ↦ run acts t' ]

  -- The state before any coroutine is called.
  unfoldable pub start : Tasks E V
  start = record {
    coroutines = record { frame = λ h. record fresh { alive = false }; next = 0 };
    handle = λ i. none;
    count = 0;
    detached = λ h. false;
  }
