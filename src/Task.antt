-- ===== src/Task.antt =====
-- zedio/async/coroutine/task.hpp: the frames of the coroutines, and the Task objects that own them. A
-- coroutine handle is the number of a frame; `none` among the handles is a null handle.
pub mod Frames
pub mod Chain
pub mod Calls
pub mod Object
pub mod Maps
pub mod Owners
pub mod Acts
pub mod Ownership
mod Tests
use zedlibs.Prelude.{ℕ, ◌+◌, Option, none, some, Bool, true, false, not, ◌==◌, ◌||◌, if◌then◌else◌}

-- A frame with its TaskPromise; `done` is that it is suspended at its end.
pub record Frame (E V : Type 0) : Type 0 where
  pub caller : Option ℕ
  pub ex : Option E
  pub value : Option V
  pub done : Bool
  pub alive : Bool

-- The frames, of which those below `next` have been allocated.
pub record Coroutines (E V : Type 0) : Type 0 where
  pub frame : ℕ → Frame E V
  pub next : ℕ

-- How a body ends, and what an awaiting coroutine gets: a value or an exception.
pub data Answer (E V : Type 0) : Type 0 where
  returned : V → Answer E V
  thrown : E → Answer E V

module _ {E V : Type 0} where
  abbrev pub put : (ℕ → Frame E V) → ℕ → Frame E V → ℕ → Frame E V
  put frame h p k = if k == h then p else frame k

  abbrev pub store : Coroutines E V → ℕ → Frame E V → Coroutines E V
  store s h p = record s { frame = put s.frame h p }

  -- The frame of a coroutine that is suspended at its start.
  abbrev pub fresh : Frame E V
  fresh = record { caller = none; ex = none; value = none; done = false; alive = true }

  -- A call of a coroutine: the frame, whose handle is in the Task that the call gives.
  unfoldable pub get_return_object : Coroutines E V → ℕ × Coroutines E V
  get_return_object s = (s.next, record s { frame = put s.frame s.next fresh; next = s.next + 1 })

  unfoldable pub release : ℕ → Frame E V → Coroutines E V → Option (Coroutines E V)
  release h p s = if p.alive then some (store s h (record p { alive = false })) else none

  -- `std::coroutine_handle::destroy`; `none` is that the frame does not exist any more.
  unfoldable pub destroy : ℕ → Coroutines E V → Option (Coroutines E V)
  destroy h s = release h (s.frame h) s

  unfoldable pub return_value : V → Frame E V → Frame E V
  return_value v p = record p { value = some v }

  unfoldable pub unhandled_exception : E → Frame E V → Frame E V
  unhandled_exception e p = record p { ex = some e }

  -- `none` is the failed assertion.
  unfoldable pub result : Frame E V → Option (Answer E V)
  result p = elim p.ex [
    | some e ↦ some (thrown e)
    | none ↦ elim p.value [ none ↦ none | some v ↦ some (returned v) ]
  ]

  -- What the end of the body leaves in the promise.
  unfoldable pub ended : Answer E V → Frame E V → Frame E V
  ended (returned v) p = record (return_value v p) { done = true }
  ended (thrown e) p = record (unhandled_exception e p) { done = true }

  -- The end of the body of `h`, up to its final suspension.
  abbrev pub complete : ℕ → Answer E V → Coroutines E V → Coroutines E V
  complete h a s = store s h (ended a (s.frame h))

  -- TaskFinalAwaiter, in a build with NDEBUG: the coroutine that goes on, which for a null handle is
  -- the one that does nothing.
  unfoldable pub go_on : Option ℕ → ℕ → Coroutines E V → Option (Option ℕ × Coroutines E V)
  go_on (some caller) h s = some (some caller, s)
  go_on none h s = elim (destroy h s) [ none ↦ none | some s' ↦ some (none, s') ]

  abbrev pub final_suspend : ℕ → Coroutines E V → Option (Option ℕ × Coroutines E V)
  final_suspend h s = go_on (s.frame h).caller h s

  unfoldable pub await_ready : Option ℕ → Coroutines E V → Bool
  await_ready none s = true
  await_ready (some callee) s = (s.frame callee).done

  -- The callee goes on.
  unfoldable pub await_suspend : ℕ → ℕ → Coroutines E V → Coroutines E V
  await_suspend callee caller s = store s callee (record (s.frame callee) { caller = some caller })

  -- `logic_error` is the exception for a null handle.
  unfoldable pub await_resume : E → Option ℕ → Coroutines E V → Option (Answer E V)
  await_resume logic_error none s = some (thrown logic_error)
  await_resume logic_error (some callee) s = result (s.frame callee)
