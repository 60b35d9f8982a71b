-- ===== src/Prelude/Slices.antt =====
-- The elements of an array from one index up to another, and what a write does to them.
use Prim.Native.Nat.{ℕ, zero, suc, ◌+◌, ◌-◌, ◌≤◌, ◌<◌}
use mathlib.Core.Path.{◌≡◌, refl, sym, ap, ◌∙◌, ◌≡⟨◌⟩◌, ◌∎}
use mathlib.Core.List.{List, [], ◌∷◌, ◌++◌, append-nil, append_assoc}
use mathlib.Core.Option.{some}
use native.Mathlib.Omega.{arith}
use zedlibs.Prelude.Lists.{length, get_elem?, set, length-set}

module _ {ℓ} {A : Type ℓ} where
  -- `[data + i, data + j)`
  unfoldable pub slice : List A → ℕ → ℕ → List A
  slice [] i j = []
  slice (x ∷ xs) i zero = []
  slice (x ∷ xs) zero (suc j) = x ∷ slice xs zero j
  slice (x ∷ xs) (suc i) (suc j) = slice xs i j

  pub slice_empty : (xs : List A) (i j : ℕ) → j ≤ i → slice xs i j ≡ []
  unfolding slice
  slice_empty [] i j h = refl
  slice_empty (x ∷ xs) i zero h = refl
  slice_empty (x ∷ xs) zero (suc j) h = absurd (omega arith)
  slice_empty (x ∷ xs) (suc i) (suc j) h = slice_empty xs i j (omega arith)

  pub length-slice : (xs : List A) (i j : ℕ) → j ≤ length xs → length (slice xs i j) ≡ j - i
  unfolding slice
  length-slice [] i j h = omega arith
  length-slice (x ∷ xs) i zero h = omega arith
  length-slice (x ∷ xs) zero (suc j) h = omega (arith, length-slice xs zero j)
  length-slice (x ∷ xs) (suc i) (suc j) h = omega (arith, length-slice xs i j)

  -- A write at or past the end of a slice, or before its start, leaves it.
  pub slice-set_above :
      (xs : List A) (i j k : ℕ) (v : A) → j ≤ k → slice (set xs k v) i j ≡ slice xs i j
  unfolding slice
  slice-set_above [] i j k v h = refl
  slice-set_above (x ∷ xs) i zero zero v h = refl
  slice-set_above (x ∷ xs) i zero (suc k) v h = refl
  slice-set_above (x ∷ xs) i (suc j) zero v h = absurd (omega arith)
  slice-set_above (x ∷ xs) zero (suc j) (suc k) v h =
      ap (◌∷◌ x) (slice-set_above xs zero j k v (omega arith))
  slice-set_above (x ∷ xs) (suc i) (suc j) (suc k) v h = slice-set_above xs i j k v (omega arith)

  pub slice-set_below :
      (xs : List A) (i j k : ℕ) (v : A) → k < i → slice (set xs k v) i j ≡ slice xs i j
  unfolding slice
  slice-set_below [] i j k v h = refl
  slice-set_below (x ∷ xs) zero j k v h = absurd (omega arith)
  slice-set_below (x ∷ xs) (suc i) zero zero v h = refl
  slice-set_below (x ∷ xs) (suc i) (suc j) zero v h = refl
  slice-set_below (x ∷ xs) (suc i) zero (suc k) v h = refl
  slice-set_below (x ∷ xs) (suc i) (suc j) (suc k) v h = slice-set_below xs i j k v (omega arith)

  -- A write just past the end extends the slice.
  pub slice-set_end :
      (xs : List A) (i j : ℕ) (v : A)
      → i ≤ j
      → j < length xs
      → slice (set xs j v) i (suc j) ≡ slice xs i j ++ v ∷ []
  unfolding slice
  slice-set_end [] i j v h b = absurd (omega arith)
  slice-set_end (x ∷ xs) zero zero v h b = ap (◌∷◌ v) (slice_empty xs zero zero (omega arith))
  slice-set_end (x ∷ xs) (suc i) zero v h b = absurd (omega arith)
  slice-set_end (x ∷ xs) zero (suc j) v h b =
      ap (◌∷◌ x) (slice-set_end xs zero j v (omega arith) (omega arith))
  slice-set_end (x ∷ xs) (suc i) (suc j) v h b = slice-set_end xs i j v (omega arith) (omega arith)

  -- A slice that is not empty starts with the element at its first index.
  pub slice_first :
      (xs : List A) (i j : ℕ)
      → i < j
      → j ≤ length xs
      → (a : A) × (get_elem? xs i ≡ some a) × (slice xs i j ≡ a ∷ slice xs (suc i) j)
  unfolding slice
  slice_first [] i j h b = absurd (omega arith)
  slice_first (x ∷ xs) i zero h b = absurd (omega arith)
  slice_first (x ∷ xs) zero (suc j) h b = (x, refl, refl)
  slice_first (x ∷ xs) (suc i) (suc j) h b = slice_first xs i j (omega arith) (omega arith)

  pub slice-join :
      (xs : List A) (i j k : ℕ) → i ≤ j → j ≤ k → slice xs i j ++ slice xs j k ≡ slice xs i k
  unfolding slice
  slice-join [] i j k p q = refl
  slice-join (x ∷ xs) zero zero k p q = refl
  slice-join (x ∷ xs) (suc i) zero k p q = absurd (omega arith)
  slice-join (x ∷ xs) i (suc j) zero p q = absurd (omega arith)
  slice-join (x ∷ xs) zero (suc j) (suc k) p q =
      ap (◌∷◌ x) (slice-join xs zero j k (omega arith) (omega arith))
  slice-join (x ∷ xs) (suc i) (suc j) (suc k) p q = slice-join xs i j k (omega arith) (omega arith)

module _ {ℓ} {A : Type ℓ} where
  -- `std::copy(src.begin(), src.end(), dst.begin() + k)`
  unfoldable pub copy_to : List A → List A → ℕ → List A
  copy_to [] dst k = dst
  copy_to (x ∷ src) dst k = copy_to src (set dst k x) (k + 1)

  pub length-copy_to : (src dst : List A) (k : ℕ) → length (copy_to src dst k) ≡ length dst
  unfolding copy_to
  length-copy_to [] dst k = refl
  length-copy_to (x ∷ src) dst k =
      omega (arith, length-copy_to src (set dst k x) (k + 1), length-set dst k x)

  -- What a copy appends to what stood before it.
  pub slice-copy_to :
      (src dst : List A) (i k : ℕ)
      → i ≤ k
      → k + length src ≤ length dst
      → slice (copy_to src dst k) i (k + length src) ≡ slice dst i k ++ src
  unfolding copy_to
  slice-copy_to [] dst i k h b =
      ap (slice dst i) {x = k + 0} {y = k} (omega arith) ∙ sym (append-nil (slice dst i k))
  slice-copy_to (x ∷ src) dst i k h b =
      slice (copy_to (x ∷ src) dst k) i (k + length (x ∷ src))
      ≡⟨ ap (slice (copy_to src (set dst k x) (k + 1)) i) (omega arith) ⟩
        slice (copy_to src (set dst k x) (k + 1)) i (k + 1 + length src)
      ≡⟨ slice-copy_to src (set dst k x) i (k + 1) (omega arith)
          (omega (arith, length-set dst k x)) ⟩
        slice (set dst k x) i (k + 1) ++ src
      ≡⟨ ap (λ j. slice (set dst k x) i j ++ src) (omega arith) ⟩
        slice (set dst k x) i (suc k) ++ src
      ≡⟨ ap (λ l. l ++ src) (slice-set_end dst i k x h (omega arith)) ⟩
        (slice dst i k ++ x ∷ []) ++ src
      ≡⟨ append_assoc (slice dst i k) (x ∷ []) src ⟩ slice dst i k ++ x ∷ src ∎
