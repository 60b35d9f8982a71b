-- ===== src/Queue/Words.antt =====
-- Positions as 32-bit counters, packed heads, and the tasks between two positions.
use zedlibs.Prelude.{
  ℕ, zero, suc, ◌+◌, ◌-◌, ◌^◌, ◌≤◌, ◌<◌, ◌≡◌, ◌≢◌, refl, ap, ap₂, ◌∙◌, List, [], ◌∷◌, ◌++◌, length,
  arith,
}
use zedlibs.Queue.Local.{plus32, minus32, masked, unpack, pack, write}

pub unpack_steal : (h : ℕ) → (unpack h).0 < 2 ^ 32
unfolding unpack
unpack_steal h = omega arith

pub unpack_real : (h : ℕ) → (unpack h).1 < 2 ^ 32
unfolding unpack
unpack_real h = omega arith

pub unpack-pack :
    (steal real : ℕ) → steal < 2 ^ 32 → real < 2 ^ 32 → unpack (pack steal real) ≡ (steal, real)
unfolding unpack pack
unpack-pack steal real h k = ap₂ (λ s r. (s, r)) (omega arith) (omega arith)

-- A position that moves on by `k` of the steps up to another is so much nearer to it.
pub minus32-plus32 :
    (tail real k : ℕ)
    → tail < 2 ^ 32
    → real < 2 ^ 32
    → k ≤ minus32 tail real
    → minus32 tail (plus32 real k) ≡ minus32 tail real - k
minus32-plus32 tail real k h p b = ground arith

pub plus32-minus32 :
    (tail real k : ℕ)
    → tail < 2 ^ 32
    → real < 2 ^ 32
    → minus32 tail real + k < 2 ^ 32
    → minus32 (plus32 tail k) real ≡ minus32 tail real + k
plus32-minus32 tail real k h p b = ground arith

pub minus32_pos : (a b : ℕ) → a < 2 ^ 32 → b < 2 ^ 32 → b ≢ a → 0 < minus32 a b
minus32_pos a b h k ne = ground arith

pub minus32_self : (a : ℕ) → minus32 a a ≡ 0
minus32_self a = ground arith

-- A step of the inner position keeps the span, whether the outer one stays or follows.
pub minus32-step_stay :
    (real steal n : ℕ)
    → real < 2 ^ 32
    → steal < 2 ^ 32
    → 0 < n
    → minus32 real steal + n ≤ 256
    → minus32 (plus32 real 1) steal + (n - 1) ≤ 256
minus32-step_stay real steal n r s pos h = ground arith

-- The span between the outer positions is that of the two parts.
pub minus32-span :
    (tail real steal : ℕ)
    → tail < 2 ^ 32
    → real < 2 ^ 32
    → steal < 2 ^ 32
    → minus32 real steal + minus32 tail real ≤ 256
    → minus32 tail steal ≡ minus32 real steal + minus32 tail real
minus32-span tail real steal t r s h = ground arith

pub masked-plus32 : (i k : ℕ) → masked (plus32 i k) ≡ masked (i + k)
masked-plus32 i k = omega arith

-- Where a position ends up that moves on to another one.
pub masked-minus32 :
    (tail real : ℕ)
    → tail < 2 ^ 32
    → real < 2 ^ 32
    → masked (real + minus32 tail real) ≡ masked tail
masked-minus32 tail real h p = ground arith

module _ {ℓ} {A : Type ℓ} where
  -- The `n` tasks from position `i` on.
  abbrev pub read : (ℕ → A) → ℕ → ℕ → List A
  read buffer i zero = []
  read buffer i (suc n) = buffer (masked i) ∷ read buffer (suc i) n

  pub read-masked :
      (buffer : ℕ → A) (i j n : ℕ) → masked i ≡ masked j → read buffer i n ≡ read buffer j n
  read-masked buffer i j zero h = refl
  read-masked buffer i j (suc n) h =
      ap₂ (λ k l. buffer k ∷ l) h (read-masked buffer (suc i) (suc j) n (omega arith))

  pub length-read : (buffer : ℕ → A) (i n : ℕ) → length (read buffer i n) ≡ n
  length-read buffer i zero = refl
  length-read buffer i (suc n) = ap (λ k. suc k) (length-read buffer (suc i) n)

  pub read-split :
      (buffer : ℕ → A) (i m n all : ℕ)
      → all ≡ m + n
      → read buffer i all ≡ read buffer i m ++ read buffer (i + m) n
  read-split buffer i zero n all h = ap₂ (read buffer) {x = i} (omega arith) (omega arith)
  read-split buffer i (suc m) n zero h = absurd (omega arith)
  read-split buffer i (suc m) n (suc all) h =
      let next : suc i + m ≡ i + suc m = omega arith in
      ap (λ l. buffer (masked i) ∷ l) (read-split buffer (suc i) m n all (omega arith))
      ∙ ap (λ k. buffer (masked i) ∷ (read buffer (suc i) m ++ read buffer k n)) next

  -- A write to a slot outside those that are read.
  pub read-write_other :
      (buffer : ℕ → A) (i n k : ℕ) (x : A)
      → ((j : ℕ) → j < n → masked (i + j) ≢ k)
      → read (write buffer k x) i n ≡ read buffer i n
  read-write_other buffer i zero k x h = refl
  read-write_other buffer i (suc n) k x h =
      ap₂ (λ y l. y ∷ l) (write_ne (masked i) (first (h 0 (omega arith))))
        (read-write_other buffer (suc i) n k x (λ j p e. h (suc j) (omega arith) (omega arith)))
    where
      write_ne : (j : ℕ) → j ≢ k → write buffer k x j ≡ buffer j
      write_ne j ne = ground arith

      first : masked (i + 0) ≢ k → masked i ≢ k
      first ne e = ne (omega arith)

  -- The slots of fewer than 256 positions before position `i + n` are not its slot.
  pub read-write_end :
      (buffer : ℕ → A) (i n : ℕ) (x : A)
      → n < 256
      → read (write buffer (masked (i + n)) x) i (n + 1) ≡ read buffer i n ++ x ∷ []
  read-write_end buffer i n x h =
      read-split (write buffer (masked (i + n)) x) i n 1 (n + 1) refl
      ∙ ap₂ (λ l y. l ++ y ∷ [])
          (read-write_other buffer i n (masked (i + n)) x (λ j p e. absurd (omega arith)))
          (ground arith)
