-- ===== src/BufRead/Source.antt =====
-- What the readers use of a file: the system call, with what it promises.
use zedlibs.Prelude.{ℕ, ◌≤◌, ◌≡◌, List, ◌++◌, length}
use zedlibs.BufWrite.System.{Outcome, done, failed}

-- The operating system's `read` of at most so many data, `f` being the state of the file.
pub record Input {ℓ} (F A : Type ℓ) : Type ℓ where
  pub read : F → ℕ → F × Outcome (List A)

-- The data that are still to come are those that were read and those that come then.
abbrev pub Gives {ℓ} : {F A : Type ℓ} → (F → List A) → F → ℕ → F → Outcome (List A) → Type ℓ
Gives coming f n f' (done l) = (length l ≤ n) × (coming f ≡ l ++ coming f')
Gives coming f n f' (failed e) = coming f' ≡ coming f

-- What the operating system promises, where `coming` are all the data that are still to come.
pub record Promises {ℓ} {F A : Type ℓ} (file : Input F A) (coming : F → List A) : Type ℓ where
  pub on_read : (f : F) (n : ℕ) → Gives coming f n (file.read f n).0 (file.read f n).1
