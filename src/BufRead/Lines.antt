-- ===== src/BufRead/Lines.antt =====
-- What `read_until` gives, when the flag is one character.
use zedlibs.Prelude.{
  ℕ, zero, suc, ◌+◌, ◌≤◌, ◌<◌, ◌≡◌, refl, sym, ap, ap₂, subst, ◌∙◌, List, [], ◌∷◌, ◌++◌,
  append_assoc, length, length-append, length-take, take, drop, take-append-drop, none, some,
  Option-cases, inl, inr, arith,
}
use zedlibs.Prelude.Slices.{slice_empty}
use zedlibs.Buffer.{StreamBuffer, r_slice, r_increase, reset_pos, w_remaining}
use zedlibs.Buffer.Bytes.{IsValid, held, r_slice-held}
use zedlibs.Buffer.Find.{
  find, cut, find_flag_and_return_slice, Absent, EndsAt, append-Absent, find-EndsAt,
}
use zedlibs.BufWrite.System.{Failure, Outcome, done, failed}
use zedlibs.BufWrite.Advance.{r_increase-Advanced}
use zedlibs.BufRead.{fill}
use zedlibs.BufRead.Source.{Input, Gives, Promises}
use zedlibs.BufRead.Fill.{fill-Grown}
use zedlibs.BufRead.Until.{Until, refill, round, read_until}

module _ {F : Type 0} (file : Input F ℕ) (coming : F → List ℕ) (os : Promises file coming) where
  -- The text `text` goes to the end of `buf`, and what was held and was still to come is that text and
  -- what is held and still to come afterwards.
  pub record Moved (f : F) (b : StreamBuffer ℕ) (text : List ℕ) (f' : F) (b' : StreamBuffer ℕ)
      : Type 0 where
    pub good : IsValid b'
    pub split : held b ++ coming f ≡ text ++ (held b' ++ coming f')

  pub data Lined (c : ℕ) (f : F) (b : StreamBuffer ℕ) (buf : List ℕ) (out : Until F) : Type 0 where
    found :
        (f' : F) (b' : StreamBuffer ℕ) (text : List ℕ)
        → out ≡ some (f', b', buf ++ text, done (length (buf ++ text)))
        → Moved f b text f' b'
        → EndsAt c text
        → Lined c f b buf out
    ended :
        (f' : F) (b' : StreamBuffer ℕ) (text : List ℕ)
        → out ≡ some (f', b', buf ++ text, done (length (buf ++ text)))
        → Moved f b text f' b'
        → Absent c text
        → held b' ≡ []
        → (g : F) × (file.read g (w_remaining (reset_pos b')) ≡ (f', done []))
        → Lined c f b buf out
    broken :
        (f' : F) (b' : StreamBuffer ℕ) (text : List ℕ) (e : Failure)
        → out ≡ some (f', b', buf ++ text, failed e)
        → Moved f b text f' b'
        → Absent c text
        → held b' ≡ []
        → (g : F) × (file.read g (w_remaining (reset_pos b')) ≡ (f', failed e))
        → Lined c f b buf out

  emptied : (b : StreamBuffer ℕ) → IsValid b → IsValid (reset_pos b) × (held (reset_pos b) ≡ [])
  unfolding reset_pos
  emptied b v = (
    record { ordered = omega arith; inside = omega arith; addressable = v.addressable },
    slice_empty b.buf 0 0 (omega arith),
  )

  -- What the search leaves of the data that are held.
  data Searched (c : ℕ) (b : StreamBuffer ℕ) : Type 0 where
    nowhere : Absent c (held b) → find_flag_and_return_slice b (c ∷ []) ≡ [] → Searched c b
    there :
        (x : ℕ) (l : List ℕ) (b' : StreamBuffer ℕ)
        → find_flag_and_return_slice b (c ∷ []) ≡ x ∷ l
        → EndsAt c (x ∷ l)
        → r_increase b (length (x ∷ l)) ≡ some b'
        → IsValid b'
        → held b ≡ x ∷ l ++ held b'
        → Searched c b

  -- A slice that ends with the flag is not empty.
  taken :
      (c : ℕ) (b : StreamBuffer ℕ) (front : List ℕ)
      → IsValid b
      → find_flag_and_return_slice b (c ∷ []) ≡ front
      → EndsAt c front
      → front ++ drop (length front) (held b) ≡ held b
      → length front ≤ length (held b)
      → Searched c b
  taken c b [] v e ends whole few =
      absurd (grind (arith, ends.ends, length-append ends.line (c ∷ [])))
  taken c b (x ∷ l) v e ends whole few =
      let a = r_increase-Advanced b (length (x ∷ l)) v few in
      there x l a.b' e ends a.returns a.good (sym whole ∙ ap (λ k. x ∷ l ++ k) (sym a.rest))

  search : (c : ℕ) (b : StreamBuffer ℕ) → IsValid b → Searched c b
  unfolding find_flag_and_return_slice
  search c b v =
      let same = r_slice-held b v in
      elim (Option-cases (find (r_slice b) (c ∷ []))) [
        | inl absent ↦
            nowhere (ap (λ s. find s (c ∷ [])) (sym same) ∙ absent)
              (ap (cut (r_slice b) (c ∷ [])) absent)
        | inr (pos, at) ↦
            let front = take (pos + 1) (r_slice b) in
            let (ends, few) = find-EndsAt c (r_slice b) pos at in
            let size : length front ≡ pos + 1 =
              omega (arith, length-take (pos + 1) (r_slice b), few) in
            taken c b front v (ap (cut (r_slice b) (c ∷ [])) at) ends
              (ap (λ k. front ++ drop k (held b)) size
                ∙ ap (λ s. front ++ drop (pos + 1) s) (sym same)
                ∙ take-append-drop (pos + 1) (r_slice b)
                ∙ same)
              (omega (arith, size, few, ap length same))
      ]

  Moved-prepend :
      (f f' f'' : F) (b b' b'' : StreamBuffer ℕ) (front text : List ℕ)
      → held b ++ coming f ≡ front ++ (held b' ++ coming f')
      → Moved f' b' text f'' b''
      → Moved f b (front ++ text) f'' b''
  Moved-prepend f f' f'' b b' b'' front text split m = record {
    good = m.good;
    split =
        split
        ∙ ap (λ l. front ++ l) m.split
        ∙ sym (append_assoc front text (held b'' ++ coming f''));
  }

  regrouped :
      (f : F) (b : StreamBuffer ℕ) (buf front text : List ℕ) (ret : List ℕ → Outcome ℕ)
      (out : Until F)
      → out ≡ some (f, b, buf ++ front ++ text, ret (buf ++ front ++ text))
      → out ≡ some (f, b, buf ++ (front ++ text), ret (buf ++ (front ++ text)))
  regrouped f b buf front text ret out e =
      e ∙ ap (λ l. some (f, b, l, ret l)) (append_assoc buf front text)

  -- What is left to do after a read, the text `front` being the one that was held before.
  prepend :
      (c : ℕ) (f f' : F) (b b' : StreamBuffer ℕ) (buf front : List ℕ) (out : Until F)
      → held b ++ coming f ≡ front ++ (held b' ++ coming f')
      → Absent c front
      → Lined c f' b' (buf ++ front) out
      → Lined c f b buf out
  prepend c f f' b b' buf front out split absent (found f'' b'' text e m ends) =
      found f'' b'' (front ++ text) (regrouped f'' b'' buf front text (λ l. done (length l)) out e)
        (Moved-prepend f f' f'' b b' b'' front text split m)
        (record {
          line = front ++ ends.line;
          ends = ap (λ l. front ++ l) ends.ends ∙ sym (append_assoc front ends.line (c ∷ []));
          first = append-Absent c front ends.line absent ends.first;
        })
  prepend c f f' b b' buf front out split absent (ended f'' b'' text e m none_there empty last) =
      ended f'' b'' (front ++ text) (regrouped f'' b'' buf front text (λ l. done (length l)) out e)
        (Moved-prepend f f' f'' b b' b'' front text split m)
        (append-Absent c front text absent none_there) empty last
  prepend c f f' b b' buf front out split absent
        (broken f'' b'' text failure e m none_there empty last) =
      broken f'' b'' (front ++ text) failure
        (regrouped f'' b'' buf front text (λ l. failed failure) out e)
        (Moved-prepend f f' f'' b b' b'' front text split m)
        (append-Absent c front text absent none_there) empty last

  -- The round after the search has found nothing, with what the read gave.
  after_read :
      (c rounds : ℕ) (f : F) (b : StreamBuffer ℕ) (buf : List ℕ)
      → ((f' : F) (b' : StreamBuffer ℕ) (buf' : List ℕ)
          → IsValid b'
          → length (coming f') < rounds
          → Lined c f' b' buf' (read_until file rounds (c ∷ []) f' b' buf'))
      → IsValid b
      → length (coming f) < suc rounds
      → Absent c (held b)
      → (f' : F) (ret : Outcome (List ℕ)) → file.read f (w_remaining (reset_pos b)) ≡ (f', ret)
      → Gives coming f (w_remaining (reset_pos b)) f' ret
      → Lined c f b buf (elim ret [
        | failed e ↦ some (f', reset_pos b, buf ++ held b, failed e)
        | done [] ↦ some (f', reset_pos b, buf ++ held b, done (length (buf ++ held b)))
        | done (x ∷ l) ↦ elim (fill (reset_pos b) (x ∷ l)) [
          | none ↦ none
          | some b' ↦ read_until file rounds (c ∷ []) f' b' (buf ++ held b)
        ]
      ])
  unfolding reset_pos
  after_read c rounds f b buf ih v total absent f' (failed e) last gives =
      let (good, empty) = emptied b v in
      broken f' (reset_pos b) (held b) e refl
        (record { good = good; split = ap₂ (λ l k. held b ++ (l ++ k)) (sym empty) (sym gives) })
        absent empty (f, last)
  after_read c rounds f b buf ih v total absent f' (done []) last gives =
      let (good, empty) = emptied b v in
      ended f' (reset_pos b) (held b) refl
        (record { good = good; split = ap₂ (λ l k. held b ++ (l ++ k)) (sym empty) gives.1 }) absent
        empty (f, last)
  after_read c rounds f b buf ih v total absent f' (done (x ∷ l)) last gives =
      let (good, empty) = emptied b v in
      let g = fill-Grown (reset_pos b) (x ∷ l) good gives.0 in
      let split =
        ap (λ k. held b ++ k)
          (gives.1 ∙ ap (λ k. k ++ coming f') (ap (λ k. k ++ x ∷ l) (sym empty) ∙ sym g.more)) in
      rw (g.returns) (
        prepend c f f' b g.b' buf (held b) _ split absent (
          ih f' g.b' (buf ++ held b) g.good
            (omega (arith, total, ap length gives.1, length-append (x ∷ l) (coming f')))))

  not_found :
      (c rounds : ℕ) (f : F) (b : StreamBuffer ℕ) (buf : List ℕ)
      → ((f' : F) (b' : StreamBuffer ℕ) (buf' : List ℕ)
          → IsValid b'
          → length (coming f') < rounds
          → Lined c f' b' buf' (read_until file rounds (c ∷ []) f' b' buf'))
      → IsValid b
      → length (coming f) < suc rounds
      → Absent c (held b)
      → Lined c f b buf (round file (read_until file rounds (c ∷ [])) [] f b buf)
  unfolding round refill
  not_found c rounds f b buf ih v total absent =
      let n = w_remaining (reset_pos b) in
      rw (r_slice-held b v) (
        after_read c rounds f b buf ih v total absent (file.read f n).0 (file.read f n).1 refl
          (os.on_read f n))

  was_found :
      (c : ℕ) (f : F) (b : StreamBuffer ℕ) (buf : List ℕ)
      (next : F → StreamBuffer ℕ → List ℕ → Until F) (x : ℕ) (l : List ℕ) (b' : StreamBuffer ℕ)
      → EndsAt c (x ∷ l)
      → r_increase b (length (x ∷ l)) ≡ some b'
      → IsValid b'
      → held b ≡ x ∷ l ++ held b'
      → Lined c f b buf (round file next (x ∷ l) f b buf)
  unfolding round
  was_found c f b buf next x l b' ends returns good whole =
      rw (returns, round)
        (found f b' (x ∷ l) refl
          (record {
            good = good;
            split = ap (λ k. k ++ coming f) whole ∙ append_assoc (x ∷ l) (held b') (coming f);
          })
          ends)

  -- `read_until` with one character and `read_line`, over a file that keeps the operating system's
  -- promises, with a valid buffer: one round more than there are characters still to come is enough,
  -- and no assertion fails. A text is appended to `buf`; it is the oldest of what the buffer held and
  -- what was still to come, and the rest is still there, in order. If the call succeeds, its value is
  -- the length of `buf`, and the text ends with the character, which stands nowhere before, or the
  -- last call, a read into the whole, emptied buffer, has given nothing, and the text does not have the
  -- character. If the call fails, its failure is that of its last call, such a read, and the text does
  -- not have the character either.
  pub read_until-Lined :
      (c rounds : ℕ) (f : F) (b : StreamBuffer ℕ) (buf : List ℕ)
      → IsValid b
      → length (coming f) < rounds
      → Lined c f b buf (read_until file rounds (c ∷ []) f b buf)
  unfolding read_until
  read_until-Lined c zero f b buf v total = absurd (omega (arith, total))
  read_until-Lined c (suc rounds) f b buf v total = elim (search c b v) [
    | nowhere absent e ↦
        subst (λ s. Lined c f b buf (round file (read_until file rounds (c ∷ [])) s f b buf))
          (sym e) (not_found c rounds f b buf (read_until-Lined c rounds) v total absent)
    | there x l b' e ends returns good whole ↦
        subst (λ s. Lined c f b buf (round file (read_until file rounds (c ∷ [])) s f b buf))
          (sym e)
          (was_found c f b buf (read_until file rounds (c ∷ [])) x l b' ends returns good whole)
  ]
