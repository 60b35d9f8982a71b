-- ===== src/Prelude/Perms.antt =====
-- Permutations and the native length.
use Prim.Native.Nat.{suc}
use mathlib.Core.Path.{◌≡◌, refl, sym, ap, subst, ◌∙◌}
use mathlib.Core.List.{
  List, [], ◌∷◌, ◌++◌, Perm, perm_middle, perm_append_comm, append-nil, append_assoc,
}
use mathlib.Core.List
use mathlib.Core.List.Perm
use native.Mathlib.Bridge.{from_ℕ}
use zedlibs.Prelude.Lists.{length}

module _ {ℓ} {A : Type ℓ} where
  length-from_ℕ : (l : List A) → length l ≡ from_ℕ (List.length l)
  length-from_ℕ [] = refl
  length-from_ℕ (x ∷ l) = ap (λ n. suc n) (length-from_ℕ l)

  pub length-Perm : {l m : List A} → Perm l m → length l ≡ length m
  length-Perm {l} {m} p = length-from_ℕ l ∙ ap from_ℕ (Perm.length-eq p) ∙ sym (length-from_ℕ m)

  -- One element that stands before or behind two lists, or between them.
  pub perm_between : (l m : List A) (x : A) → Perm ((l ++ x ∷ []) ++ m) (x ∷ (l ++ m))
  perm_between l m x =
      subst (λ t. Perm t (x ∷ (l ++ m))) (sym (append_assoc l (x ∷ []) m)) (perm_middle l m)

  pub perm_last : (l : List A) (x : A) → Perm (l ++ x ∷ []) (x ∷ l)
  perm_last l x = subst (λ t. Perm (l ++ x ∷ []) (x ∷ t)) (append-nil l) (perm_middle l [])

  pub perm_behind : (l m : List A) (x : A) → Perm (l ++ (m ++ x ∷ [])) (x ∷ (l ++ m))
  perm_behind l m x =
      subst (λ t. Perm t (x ∷ (l ++ m))) (append_assoc l m (x ∷ [])) (perm_last (l ++ m) x)

  -- The front of a list goes behind another list, and an element after it.
  pub perm_moved :
      (front back m : List A) (x : A)
      → Perm (back ++ (m ++ (front ++ x ∷ []))) (x ∷ ((front ++ back) ++ m))
  perm_moved front back m x =
      let behind =
        subst (λ t. Perm (back ++ t) (x ∷ (back ++ (m ++ front)))) (append_assoc m front (x ∷ []))
          (perm_behind back (m ++ front) x) in
      let front_first =
        subst (λ t. Perm t (front ++ (back ++ m))) (append_assoc back m front)
          (perm_append_comm (back ++ m) front) in
      Perm.trans behind (
        Perm.cons x (
          subst (λ t. Perm (back ++ (m ++ front)) t) (sym (append_assoc front back m)) front_first))
