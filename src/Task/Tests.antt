-- ===== src/Task/Tests.antt =====
-- Coroutines that add their number to what they awaited.
use zedlibs.Prelude.{ℕ, ◌+◌, ◌≡◌, refl, List, [], ◌∷◌, none, some, false, ◌==◌, if◌then◌else◌}
use Prim.{tt}
use zedlibs.Task.{
  Coroutines, Answer, returned, thrown, fresh, get_return_object, destroy, release, go_on, ended,
  return_value,
}
use zedlibs.Task.Chain.{Apart, deepest, waiting_for, await_all, Distinct}
use zedlibs.Task.Calls.{calls, finish, await_all-calls}
use zedlibs.Task.Object.{
  Tasks, Act, call_act, assign_act, destruct_act, take_act, resume_act, end_act, run, start, act,
  call, move_assign, destroy_handle, resume, resume_handle, take, end_body, destruct,
}
use zedlibs.Task.Owners.{IsOwned}
use zedlibs.Task.Ownership.{AreSafe, run-IsOwned, start-IsOwned}

-- An exception goes through the coroutine 1, and the coroutine 0 catches it.
abbrev add : ℕ → Answer ℕ ℕ → Answer ℕ ℕ
add h (returned v) = returned (v + h)
add h (thrown e) = if h == 0 then returned e else thrown e

abbrev three : Coroutines ℕ ℕ
three = record { frame = λ h. fresh; next = 3 }

three-Distinct : Distinct three (0 ∷ []) (1 ∷ 2 ∷ [])
unfolding Distinct Apart
three-Distinct = (
  record { live = refl; no_ex = refl },
  (refl, tt),
  (record { live = refl; no_ex = refl }, (refl, (refl, tt)), tt),
)

await_all-calls_example :
    (s' : Coroutines ℕ ℕ) × (finish add 3
        (deepest 0 (1 ∷ 2 ∷ []))
        (thrown 7)
        (await_all 0 (1 ∷ 2 ∷ []) three)
      ≡ some (calls add (deepest 0 (1 ∷ 2 ∷ [])) (thrown 7) (waiting_for 0 [] (1 ∷ 2 ∷ [])), s'))
    × ((s'.frame 0).alive ≡ false)
await_all-calls_example =
    await_all-calls add 0 (1 ∷ 2 ∷ []) (thrown 7) three (record { live = refl; no_ex = refl }) refl
      three-Distinct

order : calls add 2 (thrown 7) (1 ∷ 0 ∷ []) ≡ (2, thrown 7) ∷ (1, thrown 7) ∷ (0, returned 7) ∷ []
unfolding calls
order = refl

-- Two coroutines: the first Task is moved over the second, taken, and its frame ends.
abbrev history : List (Act ℕ ℕ)
history =
    call_act
    ∷ call_act
    ∷ assign_act 1 0
    ∷ resume_act 1 none
    ∷ take_act 1
    ∷ end_act 0 (returned 5)
    ∷ destruct_act 1
    ∷ destruct_act 0
    ∷ []

history-AreSafe : AreSafe history start
unfolding act run start call get_return_object move_assign destroy_handle destroy release resume
    resume_handle take end_body go_on destruct ended return_value
history-AreSafe = (tt, (tt, (tt, (((0, refl), refl), (tt, (refl, (tt, (tt, tt))))))))

run-IsOwned_example : (t : Tasks ℕ ℕ) × (run history start ≡ some t) × IsOwned t
run-IsOwned_example = run-IsOwned history start start-IsOwned history-AreSafe
