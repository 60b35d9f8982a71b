-- ===== src/Worker/Pushed.antt =====
-- `push_back_or_overflow` into an open runtime neither loses nor doubles a task; nor does a poll.
use zedlibs.Prelude.{
  ℕ, ◌+◌, ◌≡◌, refl, sym, subst, List, [], ◌∷◌, ◌++◌, take, drop, take-append-drop, length, ltb,
  Option, none, some, Bool, false,
}
use zedlibs.Prelude.Perms.{perm_between, perm_behind, perm_moved}
use mathlib.Core.List.{Perm}
use mathlib.Core.List.Perm
use zedlibs.Queue.Global.{GlobalQueue}
use zedlibs.Queue.Global
use zedlibs.Queue.Local.{LocalQueue, push_back_or_overflow}
use zedlibs.Queue.Owner.{waiting, IsValid}
use zedlibs.Queue.Push.{queued, shared, overflowed, push_back_or_overflow-PushOutcome}
use zedlibs.Worker.Driver.{Events}

module _ {ℓ} {A : Type ℓ} where
  -- The tasks `new` have come to the two queues.
  pub record Pushed (q : LocalQueue A) (global : GlobalQueue A) (new : List A)
      (out : Option (LocalQueue A × GlobalQueue A)) : Type ℓ where
    pub q' : LocalQueue A
    pub global' : GlobalQueue A
    pub returns : out ≡ some (q', global')
    pub good : IsValid q'
    pub open_still : global'.is_closed ≡ false
    pub conserved : Perm (waiting q' ++ global'.tasks) (new ++ (waiting q ++ global.tasks))

  push-tasks :
      (global : GlobalQueue A) (x : A)
      → global.is_closed ≡ false
      → ((Global.push global x).tasks ≡ global.tasks ++ x ∷ [])
        × ((Global.push global x).is_closed ≡ false)
  unfolding Global.push
  push-tasks global x e = (rw e refl, rw e refl)

  push_batch-tasks :
      (global : GlobalQueue A) (l : List A) (n : ℕ)
      → global.is_closed ≡ false
      → ((Global.push_batch global l n).tasks ≡ global.tasks ++ l)
        × ((Global.push_batch global l n).is_closed ≡ false)
  unfolding Global.push_batch
  push_batch-tasks global l n e = (rw e refl, rw e refl)

  pub push-Pushed :
      (q : LocalQueue A) (global : GlobalQueue A) (x : A)
      → IsValid q
      → global.is_closed ≡ false
      → Pushed q global (x ∷ []) (push_back_or_overflow 1 q x global)
  push-Pushed q global x good e = elim (push_back_or_overflow-PushOutcome 0 q x global good) [
    | queued room q' out good' order mark ↦ record {
      q' = q';
      global' = global;
      returns = out;
      good = good';
      open_still = e;
      conserved =
          subst (λ l. Perm (l ++ global.tasks) (x ∷ (waiting q ++ global.tasks))) (sym order)
            (perm_between (waiting q) global.tasks x);
    }
    | shared full marks out ↦
        let (order, still) = push-tasks global x e in
        record {
          q' = q;
          global' = Global.push global x;
          returns = out;
          good = good;
          open_still = still;
          conserved =
              subst (λ l. Perm (waiting q ++ l) (x ∷ (waiting q ++ global.tasks))) (sym order)
                (perm_behind (waiting q) global.tasks x);
        }
    | overflowed full q' out good' order mark ↦
        let front = take 128 (waiting q) in
        let (later, still) = push_batch-tasks global (front ++ x ∷ []) 129 e in
        record {
          q' = q';
          global' = Global.push_batch global (front ++ x ∷ []) 129;
          returns = out;
          good = good';
          open_still = still;
          conserved =
              subst
                (λ l.
                  Perm (waiting q' ++ (Global.push_batch global (front ++ x ∷ []) 129).tasks)
                    (x ∷ (l ++ global.tasks)))
                (take-append-drop 128 (waiting q))
                (subst
                  (λ l.
                    Perm (l ++ (Global.push_batch global (front ++ x ∷ []) 129).tasks)
                      (x ∷ ((front ++ drop 128 (waiting q)) ++ global.tasks)))
                  (sym order)
                  (subst
                    (λ l.
                      Perm (drop 128 (waiting q) ++ l)
                        (x ∷ ((front ++ drop 128 (waiting q)) ++ global.tasks)))
                    (sym later) (perm_moved front (drop 128 (waiting q)) global.tasks x)));
        }
  ]

  -- The handles of the completions, or of the expired entries, that have one.
  abbrev pub handles : List (Option A) → List A
  handles [] = []
  handles (none ∷ l) = handles l
  handles (some x ∷ l) = x ∷ handles l

  -- A poll of the driver.
  pub record Polled (events : Events A) (q : LocalQueue A) (global : GlobalQueue A)
      (out : Option (LocalQueue A × GlobalQueue A × Bool)) : Type ℓ where
    pub q' : LocalQueue A
    pub global' : GlobalQueue A
    pub returns :
        out ≡ some (q', global', ltb 0 (length events.completions + length events.expired))
    pub good : IsValid q'
    pub open_still : global'.is_closed ≡ false
    pub conserved :
        Perm
          (waiting q' ++ global'.tasks)
          (handles events.expired ++ (handles events.completions ++ (waiting q ++ global.tasks)))
