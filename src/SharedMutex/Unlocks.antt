-- ===== src/SharedMutex/Unlocks.antt =====
-- `lock_shared` unlocks the mutex twice.
use zedlibs.Prelude.{
  ℕ, ◌+◌, ◌^◌, ◌%◌, ◌<◌, ◌≡◌, refl, sym, ap, ◌∙◌, List, [], ◌∷◌, Option, none, some, Bool, true,
  false, ltb, arith,
}
use zedlibs.Mutex.{Mutex, unlock}
use zedlibs.Mutex.Fair.{FairLock}
use zedlibs.Mutex.Fair
use zedlibs.Mutex.Refine.{waiting, held, view, IsSound, refused, done, unlock_refines}
use zedlibs.SharedMutex.{SharedMutex, Step, returned, reader_mask, release_guard, lock_shared}

-- What a mutex comes to that is unlocked, and to whom it is handed.
record Handed (mutex : Mutex) (held' : Bool) (waiting' : List ℕ) (wake : Option ℕ) : Type 0 where
  mutex' : Mutex
  returns : unlock mutex ≡ some (mutex', wake)
  sound : IsSound mutex'
  holds : held mutex' ≡ held'
  queue : waiting mutex' ≡ waiting'

abbrev answer_of : FairLock × Option ℕ → Option (FairLock × Option ℕ) → FairLock × Option ℕ
answer_of default none = default
answer_of default (some p) = p

none_apart : (p : FairLock × Option ℕ) → none ≡ some p → ⊥
none_apart p h = cc

unlock-Handed :
    (mutex : Mutex) (lock : FairLock) (wake : Option ℕ)
    → IsSound mutex
    → Fair.unlock (view mutex) ≡ some (lock, wake)
    → Handed mutex lock.held lock.waiting wake
unlock-Handed mutex lock wake s e = elim (unlock_refines mutex s) [
  | refused out e' ↦ absurd (none_apart (lock, wake) (sym e' ∙ e))
  | done mutex' wake' out s' e' ↦
      let seen : FairLock × Option ℕ = (view mutex', wake') in
      let same : seen ≡ (lock, wake) = ap (answer_of (lock, wake)) (sym e' ∙ e) in
      record {
        mutex' = mutex';
        returns = out ∙ ap (λ w. some (mutex', w)) (ap (λ p. p.1) same);
        sound = s';
        holds = ap (λ p. p.0.held) same;
        queue = ap (λ p. p.0.waiting) same;
      }
]

unlock-refused :
    (mutex : Mutex) → IsSound mutex → Fair.unlock (view mutex) ≡ none → unlock mutex ≡ none
unlock-refused mutex s e = elim (unlock_refines mutex s) [
  | refused out e' ↦ out
  | done mutex' wake out s' e' ↦ absurd (none_apart (view mutex', wake) (sym e ∙ e'))
]

-- Where the two calls of `unlock` end.
pub data SharedOutcome (s : SharedMutex) (out : Option Step) : Type 0 where
  fails : waiting s.mutex ≡ [] → out ≡ none → SharedOutcome s out
  frees :
      (next : ℕ) (step : Step)
      → waiting s.mutex ≡ next ∷ []
      → out ≡ some step
      → step.scheduled ≡ next ∷ []
      → held step.after.mutex ≡ false
      → SharedOutcome s out
  hands_on_twice :
      (next second : ℕ) (others : List ℕ) (step : Step)
      → waiting s.mutex ≡ next ∷ second ∷ others
      → out ≡ some step
      → step.scheduled ≡ next ∷ second ∷ []
      → held step.after.mutex ≡ true
      → waiting step.after.mutex ≡ others
      → SharedOutcome s out

-- The reader is counted, and the mutex has been unlocked twice.
abbrev entered : SharedMutex → Mutex → List ℕ → Step
entered s mutex scheduled = record {
  after = record s { state = (s.state + 1) % 2 ^ 64; mutex = mutex };
  scheduled = scheduled;
  point = returned;
}

-- The fair lock of a mutex that is held.
view_lem :
    (mutex : Mutex) (b : Bool) (l : List ℕ)
    → held mutex ≡ b
    → waiting mutex ≡ l
    → view mutex ≡ record { held = b; waiting = l }
view_lem mutex b l h w =
    ap (λ p. record { held = p; waiting = waiting mutex }) h
    ∙ ap (λ p. record { held = b; waiting = p }) w

-- `lock_shared` of a coroutine that holds the sound mutex and need not wait: if nobody waits for the
-- mutex an assertion fails; if one coroutine waits, it gets the mutex, which is then free all the same;
-- if more wait, the first two get it at once.
pub lock_shared-SharedOutcome :
    (s : SharedMutex) (handle : ℕ)
    → IsSound s.mutex
    → held s.mutex ≡ true
    → s.state < reader_mask
    → SharedOutcome s (lock_shared s handle)
unfolding lock_shared release_guard
lock_shared-SharedOutcome s handle sound holds few = by_queue (waiting s.mutex) refl
  where
    test : ltb s.state reader_mask ≡ true
    test = ground (arith, few)

    by_queue : (l : List ℕ) → waiting s.mutex ≡ l → SharedOutcome s (lock_shared s handle)
    by_queue [] w =
        let one =
          unlock-Handed s.mutex (record { held = false; waiting = [] }) none sound
            (ap Fair.unlock (view_lem s.mutex true [] holds w)) in
        let two =
          unlock-refused one.mutex' one.sound
            (ap Fair.unlock (view_lem one.mutex' false [] one.holds one.queue)) in
        fails w (rw test (rw (one.returns) (rw (two, release_guard) refl)))
    by_queue (next ∷ []) w =
        let one =
          unlock-Handed s.mutex (record { held = true; waiting = [] }) (some next) sound
            (ap Fair.unlock (view_lem s.mutex true (next ∷ []) holds w)) in
        let two =
          unlock-Handed one.mutex' (record { held = false; waiting = [] }) none one.sound
            (ap Fair.unlock (view_lem one.mutex' true [] one.holds one.queue)) in
        frees next (entered s two.mutex' (next ∷ [])) w
          (rw test (rw (one.returns) (rw (two.returns, release_guard) refl))) refl two.holds
    by_queue (next ∷ second ∷ others) w =
        let one =
          unlock-Handed s.mutex (record { held = true; waiting = second ∷ others }) (some next)
            sound (ap Fair.unlock (view_lem s.mutex true (next ∷ second ∷ others) holds w)) in
        let two =
          unlock-Handed one.mutex' (record { held = true; waiting = others }) (some second)
            one.sound
            (ap Fair.unlock (view_lem one.mutex' true (second ∷ others) one.holds one.queue)) in
        hands_on_twice next second others (entered s two.mutex' (next ∷ second ∷ [])) w
          (rw test (rw (one.returns) (rw (two.returns, release_guard) refl))) refl two.holds
          two.queue
