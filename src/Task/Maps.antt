-- ===== src/Task/Maps.antt =====
-- Maps with one entry changed.
use zedlibs.Prelude.{
  ℕ, ◌≡◌, refl, sym, ap, ◌∙◌, Option, none, some, true, false, ◌==◌, ◌⊎◌, inl, inr, Bool-cases,
  arith,
}
use zedlibs.Task.Object.{update}

-- Where an entry of an updated map comes from.
pub from :
    (f : ℕ → Option ℕ) (i : ℕ) (v : Option ℕ) (k g : ℕ)
    → update f i v k ≡ some g
    → ((k ≡ i) × (v ≡ some g)) ⊎ (((k == i) ≡ false) × (f k ≡ some g))
from f i v k g e = elim (Bool-cases (k == i)) [
  | inl same ↦ inl (ground (arith, same), ground (arith, same, e))
  | inr other ↦ inr (other, ground (arith, other, e))
]

pub from_none :
    (f : ℕ → Option ℕ) (i k g : ℕ)
    → update f i none k ≡ some g
    → ((k == i) ≡ false) × (f k ≡ some g)
from_none f i k g e = elim (from f i none k g e) [
  | inl (a, b) ↦ absurd (grind (arith, b))
  | inr found ↦ found
]

pub to_other :
    (f : ℕ → Option ℕ) (i : ℕ) (v : Option ℕ) (k : ℕ) → (k == i) ≡ false → update f i v k ≡ f k
to_other f i v k e = rw e refl

pub to_none : (f : ℕ → Option ℕ) (i k : ℕ) → f k ≡ none → update f i none k ≡ none
to_none f i k e = elim (Bool-cases (k == i)) [ inl same ↦ rw same refl | inr other ↦ rw other e ]

-- The entry `i` has the value of the entry `j`.
pub moved_from :
    (f : ℕ → Option ℕ) (i j k g : ℕ)
    → update (update f i (f j)) j none k ≡ some g
    → ((k ≡ i) × (f j ≡ some g)) ⊎ (((k == i) ≡ false) × ((k == j) ≡ false) × (f k ≡ some g))
moved_from f i j k g e =
    let (other, at) = from_none (update f i (f j)) j k g e in
    elim (from f i (f j) k g at) [
      | inl taken ↦ inl taken
      | inr (differ, stays) ↦ inr (differ, other, stays)
    ]

pub moved_to :
    (f : ℕ → Option ℕ) (i j k g : ℕ)
    → f i ≡ none
    → f k ≡ some g
    → (k' : ℕ) × (update (update f i (f j)) j none k' ≡ some g)
moved_to f i j k g empty at = elim (Bool-cases (k == j)) [
  | inl same ↦
      let eq : j ≡ k = ground (arith, same) in
      elim (Bool-cases (i == j)) [
        | inr differ ↦
            let self : (i == i) ≡ true = ground arith in (i, rw (differ, self) (ap f eq ∙ at))
        | inl both ↦
            let eq' : k ≡ i = ground (arith, same, both) in
            let clash : some g ≡ none = sym at ∙ ap f eq' ∙ empty in absurd (grind (arith, clash))
      ]
  | inr other ↦ elim (Bool-cases (k == i)) [
    | inl same ↦
        let eq : k ≡ i = ground (arith, same) in
        let both : some g ≡ none = sym at ∙ ap f eq ∙ empty in absurd (grind (arith, both))
    | inr rest ↦ (k, rw (other, rest) at)
  ]
]
