-- ===== src/Bits.antt =====
-- The bits of a word that is put together from bytes.
use zedlibs.Prelude.{
  ℕ, zero, suc, ◌+◌, ◌*◌, ◌/◌, ◌%◌, ◌^◌, ◌≤◌, ◌<◌, ◌≡◌, refl, sym, ap, ◌∙◌, arith,
}
use Prim.Native.Nat.{bit_or, digits, max, bit_or-bitwise}
use native.Mathlib.Numerals.{unary_clauses}

-- The union of the digits of two numbers, with so many digits of the first to go.
abbrev joined : ℕ → ℕ → ℕ → ℕ
joined rounds a b = digits (λ c. c) max rounds a b

-- How many rounds there are does not matter once they are no fewer than the first number.
joined-same : (r s a b : ℕ) → (a ≤ r) × (a ≤ s) → joined r a b ≡ joined s a b
joined-same r s zero b few = none_left r ∙ sym (none_left s)
  where
    none_left : (k : ℕ) → joined k zero b ≡ b
    none_left zero = refl
    none_left (suc k) = refl
joined-same zero s (suc a) b few = absurd (omega (arith, few.0))
joined-same (suc r) zero (suc a) b few = absurd (omega (arith, few.1))
joined-same (suc r) (suc s) (suc a) b few =
    let halves = joined-same r s (suc a / 2) (b / 2) (omega (arith, few.0), omega (arith, few.1)) in
    omega (arith, halves)

bit_or_left : (b : ℕ) → bit_or 0 b ≡ b
bit_or_left b = bit_or-bitwise 0 b

-- The lowest digit apart from the others.
bit_or_lowest : (a b : ℕ) → bit_or a b ≡ 2 * bit_or (a / 2) (b / 2) + max (a % 2) (b % 2)
bit_or_lowest zero b = omega (arith, bit_or_left b, bit_or_left (b / 2))
bit_or_lowest (suc a) b =
    let halves = joined-same a (suc a / 2) (suc a / 2) (b / 2) (omega arith, omega arith) in
    omega (arith, bit_or-bitwise (suc a) b, bit_or-bitwise (suc a / 2) (b / 2), halves)

bit_or_right : (n a : ℕ) → a ≤ n → bit_or a 0 ≡ a
bit_or_right n zero h = bit_or_left 0
bit_or_right zero (suc a) h = absurd (omega (arith, h))
bit_or_right (suc n) (suc a) h =
    let rest = bit_or_right n (suc a / 2) (omega (arith, h)) in
    omega (arith, bit_or_lowest (suc a) 0, rest)

times_double : (a p : ℕ) → a * (2 * p) ≡ 2 * (a * p)
times_double zero p = omega arith
times_double (suc a) p = grind (arith, times_double a p)

-- Bits below the lowest bit of the other number.
pub bit_or_disjoint : (k a b : ℕ) → b < 2 ^ k → bit_or (a * 2 ^ k) b ≡ a * 2 ^ k + b
bit_or_disjoint zero a b h =
    let none_set : b ≡ 0 = omega (arith, h) in
    let whole : a * 1 ≡ a = omega arith in
    rw (none_set, whole) (bit_or_right a a (omega arith) ∙ omega arith)
bit_or_disjoint (suc k) a b h =
    let double : 2 ^ suc k ≡ 2 * 2 ^ k = simp unary_clauses (omega arith) in
    let shift : a * 2 ^ suc k ≡ 2 * (a * 2 ^ k) = rw double (times_double a (2 ^ k)) in
    let rest = bit_or_disjoint k a (b / 2) (omega (arith, h, double)) in
    let half : a * 2 ^ suc k / 2 ≡ a * 2 ^ k = omega (arith, shift) in
    let step = bit_or_lowest (a * 2 ^ suc k) b in
    step
    ∙ ap (λ q. 2 * bit_or q (b / 2) + max (a * 2 ^ suc k % 2) (b % 2)) half
    ∙ omega (arith, rest, shift)

pub bit_or_above : (n a b : ℕ) → a ≤ n → b ≤ bit_or a b
bit_or_above n zero b h = omega (arith, bit_or_left b)
bit_or_above zero (suc a) b h = absurd (omega (arith, h))
bit_or_above (suc n) (suc a) b h =
    let rest = bit_or_above n (suc a / 2) (b / 2) (omega (arith, h)) in
    omega (arith, bit_or_lowest (suc a) b, rest)

same_order_upto : (n a b : ℕ) → a ≤ n → b ≤ n → bit_or a b ≡ bit_or b a
same_order_upto zero a b h k =
    let a_zero : a ≡ 0 = omega (arith, h) in
    let b_zero : b ≡ 0 = omega (arith, k) in rw (a_zero, b_zero) refl
same_order_upto (suc n) zero b h k = bit_or_left b ∙ sym (bit_or_right b b (omega arith))
same_order_upto (suc n) (suc a) zero h k =
    bit_or_right (suc a) (suc a) (omega arith) ∙ sym (bit_or_left (suc a))
same_order_upto (suc n) (suc a) (suc b) h k = omega (
  arith,
  bit_or_lowest (suc a) (suc b),
  bit_or_lowest (suc b) (suc a),
  same_order_upto n (suc a / 2) (suc b / 2) (omega (arith, h)) (omega (arith, k)),
)

pub bit_or_comm : (a b : ℕ) → bit_or a b ≡ bit_or b a
bit_or_comm a b = same_order_upto (a + b) a b (omega arith) (omega arith)
