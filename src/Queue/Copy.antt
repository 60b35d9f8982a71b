-- ===== src/Queue/Copy.antt =====
-- The loop of `steal_into2` that copies the stolen tasks from one ring of slots to another.
use zedlibs.Prelude.{
  ℕ, zero, suc, ◌+◌, ◌≤◌, ◌<◌, ◌≡◌, ◌≢◌, refl, sym, ap, ap₂, ◌∙◌, ◌∷◌, arith, ℕ_discrete,
}
use zedlibs.Queue.Local.{plus32, masked, write, copy}
use zedlibs.Queue.Words.{masked-plus32, read}

module _ {ℓ} {A : Type ℓ} where
  write_ne : (f : ℕ → A) (k j : ℕ) (x : A) → j ≢ k → write f k x j ≡ f j
  write_ne f k j x ne = ground arith

  write_here : (f : ℕ → A) (k j : ℕ) (x : A) → j ≡ k → write f k x j ≡ x
  write_here f k j x e = ground arith

  -- A slot that the loop does not reach.
  pub copy_other :
      (src dst : ℕ → A) (first tail i n k : ℕ)
      → ((j : ℕ) → i ≤ j → j < i + n → k ≢ masked (tail + j))
      → copy src dst first tail i n k ≡ dst k
  unfolding copy
  copy_other src dst first tail i zero k h = refl
  copy_other src dst first tail i (suc n) k h =
      copy_other src (write dst (masked (plus32 tail i)) (src (masked (plus32 first i)))) first tail
        (suc i) n k (λ j p q. h j (omega arith) (omega arith))
      ∙ write_ne dst (masked (plus32 tail i)) k (src (masked (plus32 first i)))
          (λ e. h i (omega arith) (omega arith) (e ∙ masked-plus32 tail i))

  -- A slot that the loop writes.
  pub copy_at :
      (src dst : ℕ → A) (first tail i n j : ℕ)
      → i ≤ j
      → j < i + n
      → i + n ≤ 256
      → copy src dst first tail i n (masked (tail + j)) ≡ src (masked (first + j))
  unfolding copy
  copy_at src dst first tail i zero j h p b = absurd (omega arith)
  copy_at src dst first tail i (suc n) j h p b = elim (ℕ_discrete i j) [
    | yes e ↦
        copy_other src (write dst (masked (plus32 tail i)) (src (masked (plus32 first i)))) first
          tail (suc i) n (masked (tail + j)) (λ j' p' q' e'. absurd (omega (arith, e, e', b)))
        ∙ write_here dst (masked (plus32 tail i)) (masked (tail + j))
            (src (masked (plus32 first i))) (omega (arith, masked-plus32 tail i, e))
        ∙ ap src (omega (arith, masked-plus32 first i, e))
    | no ne ↦
        copy_at src (write dst (masked (plus32 tail i)) (src (masked (plus32 first i)))) first tail
          (suc i) n j (omega arith) (omega arith) (omega arith)
  ]

  -- Rings whose slots hold the same tasks from two positions on.
  pub read-same :
      (f g : ℕ → A) (i k n : ℕ)
      → ((j : ℕ) → j < n → f (masked (i + j)) ≡ g (masked (k + j)))
      → read f i n ≡ read g k n
  read-same f g i k zero h = refl
  read-same f g i k (suc n) h =
      let at_i : i + 0 ≡ i = omega arith in
      let at_k : k + 0 ≡ k = omega arith in
      ap₂ (λ x l. x ∷ l)
        (ap (λ p. f (masked p)) (sym at_i) ∙ h 0 (omega arith) ∙ ap (λ p. g (masked p)) at_k)
        (read-same f g (suc i) (suc k) n (λ j p.
          let next_i : suc i + j ≡ i + suc j = omega arith in
          let next_k : k + suc j ≡ suc k + j = omega arith in
          ap (λ p'. f (masked p')) next_i
          ∙ h (suc j) (omega arith)
          ∙ ap (λ p'. g (masked p')) next_k))
