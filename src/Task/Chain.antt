-- ===== src/Task/Chain.antt =====
-- A chain of coroutines, each of which awaits the next one.
use zedlibs.Prelude.{ℕ, ◌+◌, ◌≡◌, refl, List, [], ◌∷◌, length, none, some, true, false, ◌==◌, arith}
use Prim.{tt}
use zedlibs.Task.{Frame, Coroutines, store, await_suspend}

-- `h` is none of the list.
unfoldable pub Apart : ℕ → List ℕ → Type 0
Apart h [] = Unit
Apart h (k ∷ others) = ((k == h) ≡ false) × Apart h others

-- The one that awaits nobody, and those that wait for it.
unfoldable pub deepest : ℕ → List ℕ → ℕ
deepest h [] = h
deepest h (callee ∷ callees) = deepest callee callees

unfoldable pub waiting_for : ℕ → List ℕ → List ℕ → List ℕ
waiting_for h callers [] = callers
waiting_for h callers (callee ∷ callees) = waiting_for callee (h ∷ callers) callees

-- The one that waits for the others and for which nobody waits.
unfoldable pub root : ℕ → List ℕ → ℕ
root h [] = h
root h (caller ∷ callers) = root caller callers

pub root-deepest :
    (h : ℕ) (callers callees : List ℕ)
    → root (deepest h callees) (waiting_for h callers callees) ≡ root h callers
unfolding deepest waiting_for root
root-deepest h callers [] = refl
root-deepest h callers (d ∷ ds) = root-deepest d (h ∷ callers) ds

pub length-waiting_for :
    (h : ℕ) (callers callees : List ℕ)
    → length (waiting_for h callers callees) ≡ length callers + length callees
unfolding waiting_for
length-waiting_for h callers [] = omega arith
length-waiting_for h callers (d ∷ ds) = omega (arith, length-waiting_for d (h ∷ callers) ds)

module _ {E V : Type 0} where
  -- Each of the list awaits the one after it.
  unfoldable pub await_all : ℕ → List ℕ → Coroutines E V → Coroutines E V
  await_all h [] s = s
  await_all h (callee ∷ callees) s = await_all callee callees (await_suspend callee h s)

  -- A frame whose body has not ended.
  pub record Running (p : Frame E V) : Type 0 where
    pub live : p.alive ≡ true
    pub no_ex : p.ex ≡ none

  -- The frames of `h` and of those that wait for it, from the nearest to the root.
  unfoldable pub Waiting : Coroutines E V → ℕ → List ℕ → Type 0
  Waiting s h [] = Running (s.frame h) × ((s.frame h).caller ≡ none)
  Waiting s h (caller ∷ callers) =
      Running (s.frame h)
      × ((s.frame h).caller ≡ some caller)
      × Apart h (caller ∷ callers)
      × Waiting s caller callers

  pub Waiting-store :
      (s : Coroutines E V) (d : ℕ) (p : Frame E V) (h : ℕ) (callers : List ℕ)
      → Apart d (h ∷ callers)
      → Waiting s h callers
      → Waiting (store s d p) h callers
  unfolding Waiting Apart
  Waiting-store s d p h [] apart w = rw (apart.0) w
  Waiting-store s d p h (caller ∷ callers) apart w =
      let rest = Waiting-store s d p caller callers apart.1 w.3 in
      rw (apart.0) (w.0, w.1, w.2, rest)

  -- Frames that run, that are none of those before them.
  unfoldable pub Distinct : Coroutines E V → List ℕ → List ℕ → Type 0
  Distinct s before [] = Unit
  Distinct s before (d ∷ ds) = Running (s.frame d) × Apart d before × Distinct s (d ∷ before) ds

  Distinct-store :
      (s : Coroutines E V) (d : ℕ) (p : Frame E V) (before ds : List ℕ)
      → ((k : ℕ) → Apart k before → (k == d) ≡ false)
      → Distinct s before ds
      → Distinct (store s d p) before ds
  unfolding Distinct Apart
  Distinct-store s d p before [] other w = tt
  Distinct-store s d p before (k ∷ ds) other w =
      let rest = Distinct-store s d p (k ∷ before) ds (λ j apart. other j apart.1) w.2 in
      rw (other k w.1) (w.0, w.1, rest)

  waits :
      (h : ℕ) (callers : List ℕ) (d : ℕ) (s : Coroutines E V)
      → Waiting s h callers
      → Running (s.frame d)
      → Apart d (h ∷ callers)
      → Waiting (await_suspend d h s) d (h ∷ callers)
  unfolding await_suspend Waiting
  waits h callers d s w run apart =
      let p = record (s.frame d) { caller = some h } in
      let same : (d == d) ≡ true = ground arith in
      let rest = Waiting-store s d p h callers apart w in
      rw same (record { live = run.live; no_ex = run.no_ex }, refl, apart, rest)

  await_suspend-Distinct :
      (h d : ℕ) (before ds : List ℕ) (s : Coroutines E V)
      → Distinct s (d ∷ before) ds
      → Distinct (await_suspend d h s) (d ∷ before) ds
  unfolding await_suspend Apart
  await_suspend-Distinct h d before ds s distinct =
      let p = record (s.frame d) { caller = some h } in
      Distinct-store s d p (d ∷ before) ds (λ k apart. ground (arith, apart.0)) distinct

  pub await_all-Waiting :
      (h : ℕ) (callers callees : List ℕ) (s : Coroutines E V)
      → Waiting s h callers
      → Distinct s (h ∷ callers) callees
      → Waiting (await_all h callees s) (deepest h callees) (waiting_for h callers callees)
  unfolding await_all deepest waiting_for Distinct
  await_all-Waiting h callers [] s w distinct = w
  await_all-Waiting h callers (d ∷ ds) s w distinct =
      await_all-Waiting d (h ∷ callers) ds (await_suspend d h s)
        (waits h callers d s w distinct.0 distinct.1)
        (await_suspend-Distinct h d (h ∷ callers) ds s distinct.2)
