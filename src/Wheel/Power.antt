-- ===== src/Wheel/Power.antt =====
-- The slot widths of the wheels: `static_pow`, and the shift in `get_index` as a division.
use zedlibs.Prelude.{ℕ, zero, suc, ◌+◌, ◌*◌, ◌/◌, ◌%◌, ◌^◌, ◌<◌, ◌≡◌, refl, sym, ap, ◌∙◌, arith}
use native.Mathlib.Numerals.{towards_suc}
use zedlibs.Wheel.{pow_loop, static_pow, ms_per_slot, get_index}

pow_loop-result : (x y r : ℕ) → pow_loop x y r ≡ r * static_pow x y
unfolding pow_loop
pow_loop-result x zero r = omega arith
pow_loop-result x (suc y) r =
    pow_loop-result x y (r * x)
    ∙ grouped (static_pow x y)
    ∙ ap (λ k. r * k) (sym (pow_loop-result x y (1 * x)))
  where
    grouped : (k : ℕ) → r * x * k ≡ r * (1 * x * k)
    grouped k = omega arith

-- Each level's slots are 64 times as wide as those of the level below.
pub ms_per_slot-suc : (level : ℕ) → ms_per_slot (suc level) ≡ 64 * ms_per_slot level
unfolding ms_per_slot pow_loop
ms_per_slot-suc level = omega (arith, pow_loop-result 64 level (1 * 64))

pub ms_per_slot_pos : (level : ℕ) → 0 < ms_per_slot level
unfolding pow_loop ms_per_slot
ms_per_slot_pos zero = omega arith
ms_per_slot_pos (suc level) = omega (arith, ms_per_slot-suc level, ms_per_slot_pos level)

six_more : (k : ℕ) → 2 ^ (k + 6) ≡ 64 * 2 ^ k
six_more k = simp towards_suc (omega arith)

shift_width : (level : ℕ) → 2 ^ (level * 6) ≡ ms_per_slot level
unfolding ms_per_slot pow_loop
shift_width zero = refl
shift_width (suc level) =
    ap (λ k. 2 ^ k) {x = suc level * 6} {y = level * 6 + 6} (omega arith)
    ∙ six_more (level * 6)
    ∙ ap (λ k. 64 * k) (shift_width level)
    ∙ sym (ms_per_slot-suc level)

-- `get_index` divides by the width of a slot and keeps six bits.
pub get_index_lem : (level t : ℕ) → get_index level t ≡ t / ms_per_slot level % 64
unfolding get_index
get_index_lem level t = ap (λ k. t / k % 64) (shift_width level)
