-- ===== src/BufWrite/Accept.antt =====
-- What it means that a front of the data has been accepted.
use zedlibs.Prelude.{
  ℕ, zero, suc, ◌+◌, ◌-◌, ◌≤◌, ◌≡◌, refl, sym, ap, ap₂, ◌∙◌, min, List, [], ◌∷◌, ◌++◌, append-nil,
  append_assoc, length, length-drop, take, drop, take-drop, Option, some, Bool, false, arith,
}
use zedlibs.Buffer.{StreamBuffer, w_remaining}
use zedlibs.Buffer.Bytes.{IsValid, held, read_from-Filled}
use zedlibs.BufWrite.{write_rest}
use zedlibs.BufWrite.System.{File, Promises, Failure, Outcome, done, failed}

abbrev pub value_of : Outcome ℕ → ℕ
value_of (done n) = n
value_of (failed e) = 0

module _ {ℓ} {A : Type ℓ} where
  drop_nil : (k : ℕ) → ◌≡◌ {A = List A} (drop k []) []
  drop_nil zero = refl
  drop_nil (suc k) = refl

  -- What stays of two lists when `k` have been taken from their front.
  pub split_taken :
      (h buf : List A) (k : ℕ)
      → take k (h ++ buf) ++ drop (min k (length h)) h ≡ h ++ take (k - min k (length h)) buf
  split_taken [] buf k =
      ap (λ l. take k buf ++ l) (drop_nil (min k 0))
      ∙ append-nil (take k buf)
      ∙ ap (λ m. take m buf) {x = k} (omega arith)
  split_taken (x ∷ h) buf zero =
      let none_gone : min zero (suc (length h)) ≡ 0 = omega arith in
      rw none_gone (sym (append-nil (x ∷ h)))
  split_taken (x ∷ h) buf (suc k) =
      let both : min (suc k) (suc (length h)) ≡ suc (min k (length h)) = omega arith in
      let less : suc k - suc (min k (length h)) ≡ k - min k (length h) = omega arith in
      rw both (rw less (ap (λ l. x ∷ l) (split_taken h buf k)))

module _ {ℓ} {F A : Type ℓ} (file : File F A) (contents : F → List A)
    (os : Promises file contents) where
  -- A front of the data has been accepted: of as many as are returned, or, with an error, of some.
  -- Those that came to the file and those in the buffer are, in order, those that were there before
  -- and the accepted ones.
  pub record Accepted (once : Bool) (f : F) (b : StreamBuffer A) (buf : List A) (before : ℕ)
      (out : Option (F × StreamBuffer A × Outcome ℕ)) : Type ℓ where
    pub f' : F
    pub b' : StreamBuffer A
    pub ret : Outcome ℕ
    pub accepted : ℕ
    pub returns : out ≡ some (f', b', ret)
    pub good : IsValid b'
    pub few : accepted ≤ length buf
    pub order : contents f' ++ held b' ≡ contents f ++ (held b ++ take accepted buf)
    pub number : (n : ℕ) → ret ≡ done n → n ≡ before + accepted
    pub all_of_it : (n : ℕ) → ret ≡ done n → once ≡ false → accepted ≡ length buf

  pub write_rest-Accepted :
      (once : Bool) (f : F) (b : StreamBuffer A) (buf : List A) (result : ℕ)
      → IsValid b
      → (once ≡ false → length buf ≤ w_remaining b)
      → Accepted once f b buf result (write_rest file f b buf result)
  unfolding write_rest
  write_rest-Accepted once f b buf result v fits =
      let filled = read_from-Filled b buf v in
      rw (filled.found, write_rest)
        (record {
          f' = f;
          b' = filled.after;
          ret = done (result + filled.len);
          accepted = filled.len;
          returns = refl;
          good = filled.good;
          few = omega (arith, filled.most);
          order = ap (λ l. contents f ++ l) filled.appended;
          number = λ n e. sym (ap value_of e);
          all_of_it = λ n e once_false. omega (arith, filled.most, fits once_false);
        })

  -- The first `rest` data of `buf` have been accepted.
  pub extend :
      (once : Bool) (f f' : F) (b b2 : StreamBuffer A) (buf : List A) (result rest : ℕ)
      (out : Option (F × StreamBuffer A × Outcome ℕ))
      → rest ≤ length buf
      → contents f' ++ held b2 ≡ contents f ++ (held b ++ take rest buf)
      → Accepted once f' b2 (drop rest buf) (result + rest) out
      → Accepted once f b buf result out
  extend once f f' b b2 buf result rest out h same later = record {
    f' = later.f';
    b' = later.b';
    ret = later.ret;
    accepted = rest + later.accepted;
    returns = later.returns;
    good = later.good;
    few = omega (arith, later.few, length-drop rest buf, h);
    order =
        later.order
        ∙ sym (append_assoc (contents f') (held b2) (take later.accepted (drop rest buf)))
        ∙ ap (λ l. l ++ take later.accepted (drop rest buf)) same
        ∙ append_assoc (contents f) (held b ++ take rest buf) (take later.accepted (drop rest buf))
        ∙ ap (λ l. contents f ++ l)
            (append_assoc (held b) (take rest buf) (take later.accepted (drop rest buf))
              ∙ ap (λ l. held b ++ l) (take-drop rest later.accepted buf));
    number = λ n e. omega (arith, later.number n e);
    all_of_it =
        λ n e once_false. omega (arith, later.all_of_it n e once_false, length-drop rest buf, h);
  }

  pub refused :
      (once : Bool) (f f' : F) (b : StreamBuffer A) (buf : List A) (result : ℕ) (e : Failure)
      → IsValid b
      → contents f' ≡ contents f
      → Accepted once f b buf result (some (f', b, failed e))
  refused once f f' b buf result e v same = record {
    f' = f';
    b' = b;
    ret = failed e;
    accepted = 0;
    returns = refl;
    good = v;
    few = omega arith;
    order = ap₂ (λ c h. c ++ h) same (sym (append-nil (held b)));
    number = λ n h. absurd (no_number n h);
    all_of_it = λ n h once_false. absurd (no_number n h);
  }
    where
      no_number : (n : ℕ) → failed e ≡ done n → ⊥
      no_number n h = cc
