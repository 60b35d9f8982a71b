-- ===== src/Prelude/Runs.antt =====
-- Sequences of calls: what a caller sees of a machine, and machines that no caller can tell apart.
use mathlib.Core.Path.{◌≡◌, refl, ap, ◌∙◌}
use mathlib.Core.List.{List, [], ◌∷◌}

module _ {ℓ} {O R : Type ℓ} where
  -- The answers to a sequence of calls.
  unfoldable pub answers : {S : Type ℓ} → (S → O → S × R) → S → List O → List R
  answers step s [] = []
  answers step s (o ∷ ops) = (step s o).1 ∷ answers step (step s o).0 ops

  -- One call of a machine, seen through `view`, is one call of the specification.
  pub record Simulates {S T : Type ℓ} (step : S → O → S × R) (spec : T → O → T × R) (view : S → T)
      (Inv : S → Type ℓ) (s : S) (o : O) : Type ℓ where
    pub keeps : Inv (step s o).0
    pub same : (view (step s o).0, (step s o).1) ≡ spec (view s) o

  pub answers-same :
      {S T : Type ℓ} (step : S → O → S × R) (spec : T → O → T × R) (view : S → T) (Inv : S → Type ℓ)
      → ((s : S) (o : O) → Inv s → Simulates step spec view Inv s o)
      → (s : S) (ops : List O) → Inv s
      → answers step s ops ≡ answers spec (view s) ops
  unfolding answers
  answers-same step spec view Inv sim s [] i = refl
  answers-same step spec view Inv sim s (o ∷ ops) i =
      let one = sim s o i in
      ap (λ l. (step s o).1 ∷ l) (answers-same step spec view Inv sim (step s o).0 ops one.keeps)
      ∙ ap (λ p. p.1 ∷ answers spec p.0 ops) one.same
