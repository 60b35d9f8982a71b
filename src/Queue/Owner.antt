-- ===== src/Queue/Owner.antt =====
-- The operations of a LocalQueue's own worker: `pop` and `push_back_or_overflow`.
use zedlibs.Prelude.{
  ℕ, ◌+◌, ◌-◌, ◌^◌, ◌≤◌, ◌<◌, ◌≡◌, ◌≢◌, refl, sym, ap, ◌∙◌, subst, ◌⊎◌, inl, inr, List, [], ◌∷◌,
  Option, none, some, true, false, ◌==◌, arith, ℕ_discrete,
}
use zedlibs.Queue.Local.{LocalQueue, plus32, minus32, masked, capacity, unpack, pack, pop}
use zedlibs.Queue.Words.{
  unpack_steal, unpack_real, unpack-pack, minus32_pos, minus32_self, minus32-step_stay,
  minus32-plus32, masked-plus32, read, read-masked, read-split,
}

module _ {ℓ} {A : Type ℓ} where
  abbrev pub steal_of : LocalQueue A → ℕ
  steal_of q = (unpack q.head).0

  abbrev pub real_of : LocalQueue A → ℕ
  real_of q = (unpack q.head).1

  -- The tasks that wait, and those that a thief has marked.
  abbrev pub waiting : LocalQueue A → List A
  waiting q = read q.buffer (real_of q) (minus32 q.tail (real_of q))

  abbrev pub marked : LocalQueue A → List A
  marked q = read q.buffer (steal_of q) (minus32 (real_of q) (steal_of q))

  -- The waiting and the marked tasks fit into the buffer.
  pub record IsValid (q : LocalQueue A) : Type ℓ where
    pub packed : q.head ≡ pack (steal_of q) (real_of q)
    pub tail_small : q.tail < 2 ^ 32
    pub room : minus32 (real_of q) (steal_of q) + minus32 q.tail (real_of q) ≤ capacity

  -- A head that is packed from two positions.
  pub IsValid-pack :
      (tail steal real : ℕ) (buffer : ℕ → A)
      → tail < 2 ^ 32
      → steal < 2 ^ 32
      → real < 2 ^ 32
      → minus32 real steal + minus32 tail real ≤ capacity
      → IsValid (record { head = pack steal real; tail = tail; buffer = buffer })
  IsValid-pack tail steal real buffer t s r room =
      let both = unpack-pack steal real s r in
      record {
        packed = ap (λ p. pack p.0 p.1) (sym both);
        tail_small = t;
        room = subst (λ p. minus32 p.1 p.0 + minus32 tail p.1 ≤ capacity) (sym both) room;
      }

  pub waiting-pack :
      (tail steal real : ℕ) (buffer : ℕ → A)
      → steal < 2 ^ 32
      → real < 2 ^ 32
      → waiting (record { head = pack steal real; tail = tail; buffer = buffer })
        ≡ read buffer real (minus32 tail real)
  waiting-pack tail steal real buffer s r =
      ap (λ p. read buffer p.1 (minus32 tail p.1)) (unpack-pack steal real s r)

  -- A task that `pop` took: it is the oldest one. The slots are as before, and a thief's mark stays.
  pub record Popped (q q' : LocalQueue A) (x : A) : Type ℓ where
    pub good : IsValid q'
    pub oldest : waiting q ≡ x ∷ waiting q'
    pub slots : q'.buffer ≡ q.buffer
    pub mark : steal_of q ≢ real_of q → steal_of q' ≡ steal_of q

  pub data PopOutcome (q : LocalQueue A) (out : LocalQueue A × Option A) : Type ℓ where
    nothing : waiting q ≡ [] → out ≡ (q, none) → PopOutcome q out
    taken : (q' : LocalQueue A) (x : A) → out ≡ (q', some x) → Popped q q' x → PopOutcome q out

  -- The head after a pop, which leaves the tail and the slots.
  Popped-pack :
      (q : LocalQueue A) (steal : ℕ)
      → IsValid q
      → real_of q ≢ q.tail
      → steal < 2 ^ 32
      → (steal ≡ steal_of q) ⊎ ((steal ≡ plus32 (real_of q) 1) × (steal_of q ≡ real_of q))
      → Popped q
          (record q { head = pack steal (plus32 (real_of q) 1) })
          (q.buffer (masked (real_of q)))
  Popped-pack q steal good some_task s which =
      let real : ℕ = real_of q in
      let next : ℕ = plus32 real 1 in
      let r : real < 2 ^ 32 = unpack_real q.head in
      let t = good.tail_small in
      let n : ℕ = minus32 q.tail real in
      let pos : 0 < n = minus32_pos q.tail real t r some_task in
      let fewer : minus32 q.tail next ≡ n - 1 = minus32-plus32 q.tail real 1 t r pos in
      let next_small : next < 2 ^ 32 = omega arith in
      let room : minus32 next steal + minus32 q.tail next ≤ capacity = elim which [
        | inl same ↦
            subst (λ k. minus32 next steal + k ≤ capacity) (sym fewer)
              (minus32-step_stay real steal n r s pos
                (subst (λ k. minus32 real k + n ≤ capacity) (sym same) good.room))
        | inr (follows, e) ↦
            omega (arith, good.room, fewer, ap (minus32 next) follows, minus32_self next)
      ] in
      let stays : steal_of q ≢ real → steal ≡ steal_of q =
        λ ne. elim which [ inl same ↦ same | inr (follows, e) ↦ absurd (ne e) ] in
      record {
        good = IsValid-pack q.tail steal next q.buffer t s next_small room;
        oldest =
            read-split q.buffer real 1 (n - 1) n (omega arith)
            ∙ ap (λ l. q.buffer (masked real) ∷ l)
                (read-masked q.buffer (real + 1) next (n - 1) (sym (masked-plus32 real 1))
                  ∙ ap (read q.buffer next) (sym fewer)
                  ∙ sym (waiting-pack q.tail steal next q.buffer s next_small));
        slots = refl;
        mark = λ ne. ap (λ p. p.0) (unpack-pack steal next s next_small) ∙ stays ne;
      }

  -- `pop` of a valid queue returns nothing and changes nothing if no task waits; else it takes the
  -- oldest waiting task, leaves the others in order and every slot as it was, does not move a thief's
  -- mark, and leaves the queue valid.
  pub pop-PopOutcome : (q : LocalQueue A) → IsValid q → PopOutcome q (pop q)
  unfolding pop
  pop-PopOutcome q good = elim (ℕ_discrete (real_of q) q.tail) [
    | yes e ↦
        let none_waits : waiting q ≡ [] =
          ap (read q.buffer (real_of q)) (ap (minus32 q.tail) e ∙ minus32_self q.tail) in
        let test : (real_of q == q.tail) ≡ true = ground arith in nothing none_waits (rw test refl)
    | no ne ↦
        let next_small : plus32 (real_of q) 1 < 2 ^ 32 = omega arith in
        let test : (real_of q == q.tail) ≡ false = ground arith in
        elim (ℕ_discrete (steal_of q) (real_of q)) [
          | yes same ↦
              let free : (steal_of q == real_of q) ≡ true = ground arith in
              taken _ _ (rw test (rw free refl))
                (Popped-pack q (plus32 (real_of q) 1) good ne next_small (inr (refl, same)))
          | no apart ↦
              let busy : (steal_of q == real_of q) ≡ false = ground arith in
              taken _ _ (rw test (rw busy refl))
                (Popped-pack q (steal_of q) good ne (unpack_steal q.head) (inl refl))
        ]
  ]
