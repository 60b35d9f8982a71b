-- ===== src/Task/Frames.antt =====
-- What a change of one frame leaves in the others.
use zedlibs.Prelude.{ℕ, ◌≡◌, true, false, ◌==◌, refl, arith}
use zedlibs.Task.{Frame, put}

module _ {E V : Type 0} where
  pub put_same : (frame : ℕ → Frame E V) (h : ℕ) (p : Frame E V) → put frame h p h ≡ p
  put_same frame h p = let same : (h == h) ≡ true = ground arith in rw same refl

  pub put_other :
      (frame : ℕ → Frame E V) (h k : ℕ) (p : Frame E V)
      → (k == h) ≡ false
      → put frame h p k ≡ frame k
  put_other frame h k p e = rw e refl
