-- ===== src/Wheel/Bits.antt =====
-- The lowest bit of a bitmap.
use zedlibs.Prelude.{
  ℕ, zero, suc, ◌+◌, ◌≤◌, ◌<◌, ◌≡◌, ◌≢◌, refl, sym, ap, subst, ◌∙◌, ℕ_discrete, none, some, true,
  false, arith,
}
use mathlib.Core.Bool.{false≢true}
use zedlibs.Wheel.{Bitmap, first_bit, countr_zero, clear_bit}

-- No bit below `k` is set.
abbrev pub ClearBelow : ℕ → Bitmap → Type 0
ClearBelow k b = (j : ℕ) → j < k → b j ≡ false

pub first_bit-suc :
    (n i : ℕ) (b : Bitmap) → b i ≡ false → first_bit (suc n) i b ≡ first_bit n (suc i) b
unfolding first_bit
first_bit-suc n i b e = rw e

pub first_bit_here : (n i : ℕ) (b : Bitmap) → b i ≡ true → first_bit (suc n) i b ≡ some i
unfolding first_bit
first_bit_here n i b e = rw e

pub first_bit_end : (i : ℕ) (b : Bitmap) → first_bit 0 i b ≡ none
unfolding first_bit
first_bit_end i b = refl

-- The search may start at a bit below which none is set.
pub countr_zero_from :
    (k n : ℕ) (b : Bitmap) → k + n ≡ 64 → ClearBelow k b → countr_zero b ≡ first_bit n k b
countr_zero_from zero n b e low = ap (λ m. first_bit m 0 b) (omega arith)
countr_zero_from (suc k) n b e low =
    countr_zero_from k (suc n) b (omega arith) (λ j h. low j (omega arith))
    ∙ first_bit-suc n k b (low k (omega arith))

-- A bit that is set has a lowest one at or below it.
pub first_bit-none :
    (n i j : ℕ) (b : Bitmap) → first_bit n i b ≡ none → i ≤ j → j < i + n → b j ≡ false
unfolding first_bit
first_bit-none zero i j b e h k = absurd (omega arith)
first_bit-none (suc n) i j b e h k = ground (arith, first_bit-none n (suc i) j b)

pub ClearBelow-clear_bit :
    (k : ℕ) (b : Bitmap) → ClearBelow k b → ClearBelow (suc k) (clear_bit b k)
ClearBelow-clear_bit k b low j h = ground (arith, low j)

pub ClearBelow-suc : (k : ℕ) (b : Bitmap) → ClearBelow k b → b k ≡ false → ClearBelow (suc k) b
ClearBelow-suc k b low e j h = elim (ℕ_discrete j k) [
  | yes same ↦ subst (λ i. b i ≡ false) (sym same) e
  | no ne ↦ low j (omega arith)
]

-- A bitmap with a bit set is not 0.
pub countr_zero_some : (i : ℕ) (b : Bitmap) → i < 64 → b i ≡ true → countr_zero b ≢ none
countr_zero_some i b h on e =
    false≢true (sym (first_bit-none 64 0 i b e (omega arith) (omega arith)) ∙ on)
