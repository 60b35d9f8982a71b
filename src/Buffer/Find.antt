-- ===== src/Buffer/Find.antt =====
-- `find_flag_and_return_slice` of zedio/io/buf/buffer.hpp. A character is a number; the overload for
-- one character is the one for a string of length one.
use zedlibs.Prelude.{
  ℕ, suc, ◌+◌, ◌≤◌, ◌≡◌, refl, sym, ap, ◌∙◌, List, [], ◌∷◌, ◌++◌, length, take, Option, none, some,
  Bool, true, false, ◌==◌, ◌&&◌, if◌then◌else◌, Bool-cases, inl, inr, arith,
}
use zedlibs.Buffer.{StreamBuffer, r_slice}

unfoldable pub starts_with : List ℕ → List ℕ → Bool
starts_with [] s = true
starts_with (c ∷ flag) [] = false
starts_with (c ∷ flag) (x ∷ s) = (x == c) && starts_with flag s

abbrev pub shift : Option ℕ → Option ℕ
shift none = none
shift (some pos) = some (suc pos)

-- `std::string_view::find`, `none` being `npos`.
unfoldable pub find : List ℕ → List ℕ → Option ℕ
find [] [] = some 0
find [] (c ∷ flag) = none
find (x ∷ s) flag =
    let later = find s flag in if starts_with flag (x ∷ s) then some 0 else shift later

-- The front of the text up to the end of the flag, if it was found.
abbrev pub cut : List ℕ → List ℕ → Option ℕ → List ℕ
cut s flag none = []
cut s flag (some pos) = take (pos + length flag) s

unfoldable pub find_flag_and_return_slice : StreamBuffer ℕ → List ℕ → List ℕ
find_flag_and_return_slice b flag = cut (r_slice b) flag (find (r_slice b) flag)

-- The text has no `c`.
abbrev pub Absent : ℕ → List ℕ → Type 0
Absent c s = find s (c ∷ []) ≡ none

-- The text ends with its only `c`.
pub record EndsAt (c : ℕ) (s : List ℕ) : Type 0 where
  pub line : List ℕ
  pub ends : s ≡ line ++ c ∷ []
  pub first : Absent c line

abbrev head_is : ℕ → ℕ → List ℕ → Bool
head_is c x s = (x == c) && starts_with [] s

find_here : (c x : ℕ) (s : List ℕ) → (x == c) ≡ true → find (x ∷ s) (c ∷ []) ≡ some 0
unfolding find starts_with
find_here c x s e = rw e refl

find_later :
    (c x : ℕ) (s : List ℕ) → (x == c) ≡ false → find (x ∷ s) (c ∷ []) ≡ shift (find s (c ∷ []))
unfolding find starts_with
find_later c x s e = rw e refl

shift-none : (o : Option ℕ) → shift o ≡ none → o ≡ none
shift-none none e = refl
shift-none (some pos) e = absurd (grind (arith, e))

-- A text with no `c` has none in front or behind.
pub Absent-cons : (c x : ℕ) (s : List ℕ) → Absent c (x ∷ s) → ((x == c) ≡ false) × Absent c s
Absent-cons c x s h = elim (Bool-cases (x == c)) [
  | inl e ↦ absurd (grind (arith, h, find_here c x s e))
  | inr e ↦ (e, shift-none (find s (c ∷ [])) (sym (find_later c x s e) ∙ h))
]

pub cons-Absent : (c x : ℕ) (s : List ℕ) → (x == c) ≡ false → Absent c s → Absent c (x ∷ s)
cons-Absent c x s e h = find_later c x s e ∙ ap shift h

pub append-Absent : (c : ℕ) (s t : List ℕ) → Absent c s → Absent c t → Absent c (s ++ t)
append-Absent c [] t h k = k
append-Absent c (x ∷ s) t h k =
    let (e, rest) = Absent-cons c x s h in cons-Absent c x (s ++ t) e (append-Absent c s t rest k)

some-head :
    (c x : ℕ) (s : List ℕ) (pos : ℕ)
    → x ≡ c
    → pos ≡ 0
    → EndsAt c (take (pos + 1) (x ∷ s)) × (pos + 1 ≤ suc (length s))
unfolding find
some-head c x s pos e zero_pos =
    let front : take (pos + 1) (x ∷ s) ≡ c ∷ [] =
      ap (λ k. take (k + 1) (x ∷ s)) zero_pos ∙ ap (λ y. y ∷ []) e in
    (record { line = []; ends = front; first = refl }, omega (arith, zero_pos))

some-tail :
    (c x : ℕ) (s : List ℕ) (p pos : ℕ)
    → (x == c) ≡ false
    → pos ≡ suc p
    → EndsAt c (take (p + 1) s) × (p + 1 ≤ length s)
    → EndsAt c (take (pos + 1) (x ∷ s)) × (pos + 1 ≤ suc (length s))
some-tail c x s p pos e next (l, few) = (
  record {
    line = x ∷ l.line;
    ends =
        ap (λ k. take k (x ∷ s)) {x = pos + 1} {y = suc (p + 1)} (omega (arith, next))
        ∙ ap (◌∷◌ x) l.ends;
    first = cons-Absent c x l.line e l.first;
  },
  omega (arith, next, few),
)

some_inj : (p q : ℕ) → some p ≡ some q → p ≡ q
some_inj p q e = grind (arith, e)

shift-some : (o : Option ℕ) (pos : ℕ) → shift o ≡ some pos → (p : ℕ) × (o ≡ some p) × (pos ≡ suc p)
shift-some none pos e = absurd (grind (arith, e))
shift-some (some p) pos e = (p, refl, some_inj pos (suc p) (sym e))

-- What is found is where the first `c` stands.
pub find-EndsAt :
    (c : ℕ) (s : List ℕ) (pos : ℕ)
    → find s (c ∷ []) ≡ some pos
    → EndsAt c (take (pos + 1) s) × (pos + 1 ≤ length s)
unfolding find
find-EndsAt c [] pos h = absurd (grind (arith, h))
find-EndsAt c (x ∷ s) pos h = elim (Bool-cases (x == c)) [
  | inl e ↦ some-head c x s pos (ground (arith, e)) (some_inj pos 0 (sym h ∙ find_here c x s e))
  | inr e ↦
      let (p, there, next) = shift-some (find s (c ∷ [])) pos (sym (find_later c x s e) ∙ h) in
      some-tail c x s p pos e next (find-EndsAt c s p there)
]
