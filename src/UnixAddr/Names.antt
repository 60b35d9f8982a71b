-- ===== src/UnixAddr/Names.antt =====
-- Which paths are read back.
use zedlibs.Prelude.{
  ◌⊎◌, ℕ, zero, suc, ◌+◌, ◌-◌, ◌≤◌, ◌<◌, ◌≡◌, refl, ap, ◌∙◌, List, [], ◌∷◌, ◌++◌, length, drop,
  replicate, Option, none, some, false, ◌==◌, leb, Bool-cases, inl, inr, arith,
}
use zedlibs.UnixAddr.{
  SocketAddr, path_size, c_string, make, parse, has_pathname, pathname, addr_length,
}

-- No character of the path is zero.
unfoldable pub HasNoZero : List ℕ → Type 0
HasNoZero [] = Unit
HasNoZero (x ∷ l) = (0 < x) × HasNoZero l

drop-replicate : (n m : ℕ) → drop {A = ℕ} n (replicate m 0) ≡ replicate (m - n) 0
drop-replicate zero m = ap (λ k. replicate k 0) {x = m} (omega arith)
drop-replicate (suc n) zero = ap (λ k. replicate k 0) {x = 0} {y = 0 - suc n} (omega arith)
drop-replicate (suc n) (suc m) =
    drop-replicate n m ∙ ap (λ k. replicate k 0) {x = m - n} {y = suc m - suc n} (omega arith)

c_string-zeros : (n : ℕ) → c_string (replicate n 0) ≡ []
unfolding c_string
c_string-zeros zero = refl
c_string-zeros (suc n) = refl

c_string-append : (path : List ℕ) (n : ℕ) → HasNoZero path → c_string (path ++ replicate n 0) ≡ path
unfolding c_string HasNoZero
c_string-append [] n h = c_string-zeros n
c_string-append (x ∷ path) n h =
    let not_zero : (x == 0) ≡ false = ground (arith, h.0) in
    rw not_zero (ap (◌∷◌ x) (c_string-append path n h.1))

-- What is kept of the path, whose characters are not zero.
make-c_string : (path : List ℕ) → HasNoZero path → c_string (make path).sun_path ≡ path
unfolding make
make-c_string path h =
    ap (λ l. c_string (path ++ l)) (drop-replicate (length path) path_size)
    ∙ c_string-append path (path_size - length path) h

pub data Parsed (path : List ℕ) (out : Option SocketAddr) : Type 0 where
  refused : out ≡ none → (path ≡ []) ⊎ (path_size ≤ length path) → Parsed path out
  accepted :
      (s : SocketAddr)
      → out ≡ some s
      → pathname s ≡ path
      → addr_length s ≡ length path + 2
      → addr_length s ≤ 109
      → has_pathname s ≡ false
      → Parsed path out

empty_of_length : (path : List ℕ) → length path ≡ 0 → path ≡ []
empty_of_length [] e = refl
empty_of_length (x ∷ path) e = absurd (omega (arith, e))

not_first :
    (path : List ℕ) → HasNoZero path → (length path == 0) ≡ false → has_pathname (make path) ≡ false
unfolding has_pathname make HasNoZero
not_first [] h e = e
not_first (x ∷ path) h e = ground (arith, h.0)

-- `parse` of a path without zeros: an empty path, and one that does not fit with a zero behind it, are
-- refused. Every other one is the `pathname` of the address, whose length is that of the path and the
-- size of the family; and `has_pathname` says that the address has none.
pub parse-Parsed : (path : List ℕ) → HasNoZero path → Parsed path (parse path)
unfolding parse pathname addr_length
parse-Parsed path h = elim (Bool-cases (leb path_size (length path))) [
  | inl long ↦ rw long (refused refl (inr (ground (arith, long))))
  | inr short ↦ elim (Bool-cases (length path == 0)) [
    | inl none_there ↦
        rw (short, none_there)
          (refused refl (inl (empty_of_length path (ground (arith, none_there)))))
    | inr some_there ↦
        let read = make-c_string path h in
        let size : length (c_string (make path).sun_path) + 2 ≡ length path + 2 =
          ap (λ l. length l + 2) read in
        rw (short, some_there)
          (accepted (make path) refl read size (ground (arith, size, short))
            (not_first path h some_there))
  ]
]
