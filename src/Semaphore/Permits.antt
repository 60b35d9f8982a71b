-- ===== src/Semaphore/Permits.antt =====
-- The semaphore implements a number of permits that are handed out in the order of the requests.
use zedlibs.Prelude.{
  ℕ, zero, suc, ◌+◌, ◌-◌, ◌≡◌, refl, ap, ◌∙◌, List, [], ◌∷◌, ◌++◌, length, length-append, Bool,
  true, false, ltb, ◌==◌, if◌then◌else◌, arith, ◌⊎◌, inl, inr,
}
use zedlibs.Prelude.Runs.{answers, Simulates, answers-same}
use zedlibs.Prelude.Ints.{ℤ, pos, negsuc, above, below, difference}
use zedlibs.Semaphore.{Semaphore, acquire, release, wake}

pub record Permits : Type 0 where
  pub free : ℕ
  pub waiting : List ℕ

-- Each of `n` permits goes to the first who waits, and is free if nobody does.
abbrev pub hand_out : ℕ → Permits → Permits × List ℕ
hand_out zero p = (p, [])
hand_out (suc n) p = elim p.waiting [
  | [] ↦ (record p { free = p.free + suc n }, [])
  | first ∷ waiting ↦
      let rest = hand_out n (record p { waiting = waiting }) in (rest.0, first ∷ rest.1)
]

pub data Call : Type 0 where
  acquires : ℕ → Call
  releases : ℕ → Call

-- Whether the caller is suspended, or who is scheduled.
pub data Seen : Type 0 where
  suspended : Bool → Seen
  scheduled : List ℕ → Seen

unfoldable pub step : Semaphore → Call → Semaphore × Seen
step sem (acquires handle) = ((acquire sem handle).0, suspended (acquire sem handle).1)
step sem (releases n) = ((release sem n).0, scheduled (release sem n).1)

unfoldable pub spec : Permits → Call → Permits × Seen
spec p (acquires handle) =
    if p.free == 0
    then (record p { waiting = p.waiting ++ handle ∷ [] }, suspended true)
    else (record p { free = p.free - 1 }, suspended false)
spec p (releases n) = ((hand_out n p).0, scheduled (hand_out n p).1)

abbrev pub view : Semaphore → Permits
view sem = record { free = above sem.count; waiting = sem.awaiters }

-- As many coroutines wait as the count is below zero.
abbrev pub IsCounted : Semaphore → Type 0
IsCounted sem = below sem.count ≡ length sem.awaiters

above-difference : (a b : ℕ) → above (difference a b) ≡ a - b
above-difference a b = ground arith

below-difference : (a b : ℕ) → below (difference a b) ≡ b - a
below-difference a b = ground arith

-- What `wake` does, with the two parts of the count, is what the permits do.
wake_lem :
    (n f : ℕ) (l : List ℕ)
    → (length l ≡ 0) ⊎ (f ≡ 0)
    → (length l - (f + n) ≡ length (wake n l).0)
      × ((record { free = f + n - length l; waiting = (wake n l).0 }, (wake n l).1)
          ≡ hand_out n (record { free = f; waiting = l }))
unfolding wake
wake_lem zero f [] e =
    (omega arith, ap (λ k. (record { free = k; waiting = [] }, [])) (omega arith))
wake_lem zero f (x ∷ l) e =
    (omega (arith, e), ap (λ k. (record { free = k; waiting = x ∷ l }, [])) (omega (arith, e)))
wake_lem (suc n) f [] e =
    (omega arith, ap (λ k. (record { free = k; waiting = [] }, [])) (omega arith))
wake_lem (suc n) f (x ∷ l) e =
    let none_free : f ≡ 0 = omega (arith, e) in
    let before : suc n - 1 ≡ n = omega arith in
    let rest = wake_lem n f l (inr none_free) in
    let fewer : f + suc n - suc (length l) ≡ f + n - length l = omega arith in
    let go : ltb 0 (suc n) ≡ true = ground arith in
    rw (before, go)
      (
        omega (arith, rest.0),
        ap (λ k. (record { free = k; waiting = (wake n l).0 }, x ∷ (wake n l).1)) fewer
            ∙ ap (λ p. (p.0, x ∷ p.1)) rest.1,
      )

one_part : (count : ℤ) → (below count ≡ 0) ⊎ (above count ≡ 0)
one_part (pos n) = inl refl
one_part (negsuc n) = inr refl

release-Simulates :
    (sem : Semaphore) (n : ℕ) → IsCounted sem → Simulates step spec view IsCounted sem (releases n)
unfolding step spec release
release-Simulates sem n h =
    let woken = wake_lem n (above sem.count) sem.awaiters (omega (arith, h, one_part sem.count)) in
    record {
      keeps =
          below-difference (above sem.count + n) (below sem.count)
          ∙ ap (λ k. k - (above sem.count + n)) h
          ∙ woken.0;
      same =
          ap
            (λ k. (
              record { free = k; waiting = (wake n sem.awaiters).0 },
              scheduled (wake n sem.awaiters).1,
            ))
            (above-difference (above sem.count + n) (below sem.count)
              ∙ ap (λ k. above sem.count + n - k) h)
          ∙ ap (λ p. (p.0, scheduled p.1)) woken.1;
    }

acquire-Simulates :
    (count : ℤ) (l : List ℕ) (handle : ℕ)
    → below count ≡ length l
    → Simulates step spec view IsCounted (record { count = count; awaiters = l }) (acquires handle)
unfolding step spec acquire
acquire-Simulates (pos zero) l handle h = record {
  keeps = omega (arith, length-append l (handle ∷ []), h);
  same = refl;
}
acquire-Simulates (pos (suc n)) l handle h = record {
  keeps = ground (arith, h);
  same = ground (arith, h);
}
acquire-Simulates (negsuc n) l handle h = record {
  keeps = ground (arith, length-append l (handle ∷ []), h);
  same = ground (arith, h);
}

call-Simulates :
    (sem : Semaphore) (call : Call) → IsCounted sem → Simulates step spec view IsCounted sem call
call-Simulates sem (acquires handle) h = acquire-Simulates sem.count sem.awaiters handle h
call-Simulates sem (releases n) h = release-Simulates sem n h

-- On a semaphore with as many waiting coroutines as its count is below zero, no sequence of acquire
-- and release calls can be told from a number of permits that are handed out in the order of the
-- requests.
pub answers-Permits :
    (sem : Semaphore) (calls : List Call)
    → IsCounted sem
    → answers step sem calls ≡ answers spec (view sem) calls
answers-Permits sem calls h = answers-same step spec view IsCounted call-Simulates sem calls h
