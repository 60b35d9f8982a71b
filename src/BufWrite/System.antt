-- ===== src/BufWrite/System.antt =====
-- What the writers use of a file: the two system calls, with what they promise, and the errors.
use zedlibs.Prelude.{ℕ, ◌≤◌, ◌≡◌, List, ◌++◌, length, take}
use zedlibs.Errors.{ErrorCode}

-- zedio/common/error.hpp: `make_sys_error` of an `errno`, and `make_zedio_error`.
pub data Failure : Type 0 where
  sys : ℕ → Failure
  zedio : ErrorCode → Failure

pub data Outcome {ℓ} (A : Type ℓ) : Type ℓ where
  done : A → Outcome A
  failed : Failure → Outcome A

-- The operating system's `write` and `writev` on a descriptor, `f` being the state of the file.
pub record File {ℓ} (F A : Type ℓ) : Type ℓ where
  pub write : F → List A → F × Outcome ℕ
  pub write_vectored : F → List A → List A → F × Outcome ℕ

-- The data that came to the file: a front of those that were given, or none with an error.
abbrev pub Takes {ℓ} : {F A : Type ℓ} → (F → List A) → F → List A → F → Outcome ℕ → Type ℓ
Takes contents f l f' (done n) = (n ≤ length l) × (contents f' ≡ contents f ++ take n l)
Takes contents f l f' (failed e) = contents f' ≡ contents f

-- What the operating system promises, where `contents` are all the data that came to the file.
pub record Promises {ℓ} {F A : Type ℓ} (file : File F A) (contents : F → List A) : Type ℓ where
  pub on_write : (f : F) (l : List A) → Takes contents f l (file.write f l).0 (file.write f l).1
  pub on_write_vectored :
      (f : F) (l m : List A)
      → Takes contents f (l ++ m) (file.write_vectored f l m).0 (file.write_vectored f l m).1
