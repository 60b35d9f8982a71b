-- ===== src/BufRead/Until.antt =====
-- `read_until` and `read_line`: the text goes to the end of `buf`, a string or a vector.
use zedlibs.Prelude.{ℕ, zero, suc, List, [], ◌∷◌, ◌++◌, length, Option, none, some}
use zedlibs.Buffer.{StreamBuffer, r_slice, r_increase, reset_pos, w_remaining}
use zedlibs.Buffer.Find.{find_flag_and_return_slice}
use zedlibs.BufWrite.System.{Outcome, done, failed}
use zedlibs.BufRead.{fill}
use zedlibs.BufRead.Source.{Input}

abbrev pub Until : Type 0 → Type 0
Until F = Option (F × StreamBuffer ℕ × List ℕ × Outcome ℕ)

module _ {F : Type 0} (file : Input F ℕ) where
  -- What the search has not given comes from the file, and `next` are the rounds that follow.
  unfoldable pub refill :
      (F → StreamBuffer ℕ → List ℕ → Until F) → F → StreamBuffer ℕ → List ℕ → Until F
  refill next f b all =
      let (f', ret) = file.read f (w_remaining b) in
      elim ret [
        | failed e ↦ some (f', b, all, failed e)
        | done [] ↦ some (f', b, all, done (length all))
        | done (x ∷ l) ↦ elim (fill b (x ∷ l)) [ none ↦ none | some b' ↦ next f' b' all ]
      ]

  -- One round, with the slice that the search has given.
  unfoldable pub round :
      (F → StreamBuffer ℕ → List ℕ → Until F) → List ℕ → F → StreamBuffer ℕ → List ℕ → Until F
  round next [] f b buf = refill next f (reset_pos b) (buf ++ r_slice b)
  round next (x ∷ l) f b buf = elim (r_increase b (length (x ∷ l))) [
    | none ↦ none
    | some b' ↦ some (f, b', buf ++ x ∷ l, done (length (buf ++ x ∷ l)))
  ]

  -- The loop, in at most so many rounds; `none` is a failed assertion, or that no round is left.
  unfoldable pub read_until : ℕ → List ℕ → F → StreamBuffer ℕ → List ℕ → Until F
  read_until zero flag f b buf = none
  read_until (suc rounds) flag f b buf =
      round (read_until rounds flag) (find_flag_and_return_slice b flag) f b buf

  abbrev pub read_line : ℕ → F → StreamBuffer ℕ → List ℕ → Until F
  read_line rounds = read_until rounds (10 ∷ [])
