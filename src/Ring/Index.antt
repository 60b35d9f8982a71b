-- ===== src/Ring/Index.antt =====
-- The index arithmetic of the ring buffers: `std::size_t` sums that do not wrap, reduced modulo
-- the number of slots.
use native.Mathlib.Nat.{mod-eq_of_lt, mod_self, add-mod_right}
use zedlibs.Prelude.{ℕ, ◌+◌, ◌-◌, ◌%◌, ◌^◌, ◌≤◌, ◌<◌, ◌≡◌, ap, ◌∙◌, arith}
use zedlibs.Ring.{size_t}

module _ (n : ℕ) (small : n ≤ 2 ^ 63) where
  pub next_inside : (i : ℕ) → i + 1 < n → size_t (i + 1) % n ≡ i + 1
  next_inside i h = ap (λ k. k % n) {x = size_t (i + 1)} {y = i + 1} (omega arith) ∙ mod-eq_of_lt h

  pub next_wraps : (i : ℕ) → i + 1 ≡ n → size_t (i + 1) % n ≡ 0
  next_wraps i h = ap (λ k. k % n) {x = size_t (i + 1)} {y = n} (omega arith) ∙ mod_self n

  pub size_straight : (s e : ℕ) → s ≤ e → e < n → size_t (size_t (e + 2 ^ 64 - s) + n) % n ≡ e - s
  size_straight s e h b =
      ap (λ k. k % n) {x = size_t (size_t (e + 2 ^ 64 - s) + n)} {y = e - s + n} (omega arith)
      ∙ add-mod_right (e - s) n
      ∙ mod-eq_of_lt (omega arith)

  pub size_round : (s e : ℕ) → e < s → s < n → size_t (size_t (e + 2 ^ 64 - s) + n) % n ≡ n - s + e
  size_round s e h b =
      ap (λ k. k % n) {x = size_t (size_t (e + 2 ^ 64 - s) + n)} {y = n - s + e} (omega arith)
      ∙ mod-eq_of_lt (omega arith)

  -- With `end_` outside the vector and `start_` at 0 the formula of `size()` gives 0.
  pub size_outside :
      (s e : ℕ) → s ≡ 0 → e ≡ n → n < 2 ^ 63 → size_t (size_t (e + 2 ^ 64 - s) + n) % n ≡ 0
  size_outside s e p q h =
      ap (λ k. k % n) {x = size_t (size_t (e + 2 ^ 64 - s) + n)} {y = n + n} (omega arith)
      ∙ add-mod_right n n
      ∙ mod_self n
