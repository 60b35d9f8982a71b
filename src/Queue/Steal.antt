-- ===== src/Queue/Steal.antt =====
-- `steal_into`: a thief takes the older half of another worker's tasks.
use zedlibs.Prelude.{
  ℕ, ◌+◌, ◌-◌, ◌/◌, ◌≤◌, ◌<◌, ◌≡◌, ◌≢◌, refl, sym, ap, ap₂, ◌∙◌, subst, List, [], ◌∷◌, ◌++◌, length,
  Option, none, some, true, false, not, ◌==◌, ltb, if◌then◌else◌, arith, ℕ_discrete, dec_lt,
}
use zedlibs.Queue.Local.{
  LocalQueue, plus32, minus32, masked, pack, copy, reserve, release, steal_into2, steal_into,
}
use zedlibs.Queue.Words.{
  unpack_steal, unpack_real, unpack-pack, minus32_self, minus32_pos, minus32-plus32, plus32-minus32,
  minus32-span, masked-plus32, masked-minus32, read, read-masked, read-split, length-read,
}
use zedlibs.Queue.Copy.{copy_other, copy_at, read-same}
use zedlibs.Queue.Owner.{steal_of, real_of, waiting, marked, IsValid, IsValid-pack, waiting-pack}

module _ {ℓ} {A : Type ℓ} where
  -- What a theft leaves: the tasks `moved` wait for the thief, which runs `x` first.
  pub record Stolen (src dst src' dst' : LocalQueue A) (x : A) : Type ℓ where
    pub src_good : IsValid src'
    pub dst_good : IsValid dst'
    pub moved : List A
    pub half : length moved + 1 ≡ length (waiting src) - length (waiting src) / 2
    pub from_src : waiting src ≡ (moved ++ x ∷ []) ++ waiting src'
    pub to_dst : waiting dst' ≡ waiting dst ++ moved
    pub src_free : marked src' ≡ []
    pub dst_marked : marked dst' ≡ marked dst

  pub data StealOutcome (src dst : LocalQueue A) (out : LocalQueue A × LocalQueue A × Option A)
      : Type ℓ where
    crowded :
        128 < length (marked dst) + length (waiting dst)
        → out ≡ (src, dst, none)
        → StealOutcome src dst out
    contended :
        length (marked dst) + length (waiting dst) ≤ 128
        → 0 < length (marked src)
        → out ≡ (src, dst, none)
        → StealOutcome src dst out
    idle :
        length (marked dst) + length (waiting dst) ≤ 128
        → marked src ≡ []
        → waiting src ≡ []
        → out ≡ (src, dst, none)
        → StealOutcome src dst out
    stolen :
        (src' dst' : LocalQueue A) (x : A)
        → length (marked dst) + length (waiting dst) ≤ 128
        → marked src ≡ []
        → 0 < length (waiting src)
        → out ≡ (src', dst', some x)
        → Stolen src dst src' dst' x
        → StealOutcome src dst out

  -- The theft of `k + 1` tasks.
  module _ (src dst : LocalQueue A) (s : IsValid src) (d : IsValid dst) (k : ℕ)
      (alone : steal_of src ≡ real_of src) (few : k + 1 ≤ 128)
      (enough : k + 1 ≤ minus32 src.tail (real_of src))
      (exact : k + 1 ≡ minus32 src.tail (real_of src) - minus32 src.tail (real_of src) / 2)
      (room : minus32 (real_of dst) (steal_of dst) + minus32 dst.tail (real_of dst) ≤ 128) where
    abbrev real : ℕ
    real = real_of src

    abbrev next : ℕ
    next = plus32 real (k + 1)

    abbrev left_src : LocalQueue A
    left_src = record src { head = pack next next }

    abbrev slots : ℕ → A
    slots = copy src.buffer dst.buffer real dst.tail 0 (k + 1)

    abbrev filled_dst : LocalQueue A
    filled_dst = record dst { buffer = slots; tail = plus32 dst.tail k }

    fewer : minus32 src.tail next ≡ minus32 src.tail real - (k + 1)
    fewer = minus32-plus32 src.tail real (k + 1) s.tail_small (unpack_real src.head) enough

    src_good : IsValid left_src
    src_good =
        IsValid-pack src.tail next next src.buffer s.tail_small (omega arith) (omega arith)
          (omega (arith, minus32_self next, fewer, s.room))

    more : minus32 (plus32 dst.tail k) (real_of dst) ≡ minus32 dst.tail (real_of dst) + k
    more =
        plus32-minus32 dst.tail (real_of dst) k d.tail_small (unpack_real dst.head)
          (omega (arith, room, few))

    dst_good : IsValid filled_dst
    dst_good = record {
      packed = d.packed;
      tail_small = omega arith;
      room = omega (arith, more, room, few);
    }

    abbrev m : ℕ
    m = minus32 (real_of dst) (steal_of dst)

    abbrev n : ℕ
    n = minus32 dst.tail (real_of dst)

    span : minus32 dst.tail (steal_of dst) ≡ m + n
    span =
        minus32-span dst.tail (real_of dst) (steal_of dst) d.tail_small (unpack_real dst.head)
          (unpack_steal dst.head) (omega (arith, room))

    -- The slots of the tasks that were there are not written.
    old_slots :
        (i c : ℕ)
        → masked (i + c) ≡ masked dst.tail
        → c + (k + 1) ≤ 256
        → (j : ℕ) → j < c
        → slots (masked (i + j)) ≡ dst.buffer (masked (i + j))
    old_slots i c e b j p =
        copy_other src.buffer dst.buffer real dst.tail 0 (k + 1) (masked (i + j))
          (λ j' q r e'. absurd (omega (arith, e, b, e')))

    new_slots : (j : ℕ) → j < k + 1 → slots (masked (dst.tail + j)) ≡ src.buffer (masked (real + j))
    new_slots j p =
        copy_at src.buffer dst.buffer real dst.tail 0 (k + 1) j (omega arith) (omega arith)
          (omega (arith, few))

    dst_marked : marked filled_dst ≡ marked dst
    dst_marked = read-same slots dst.buffer (steal_of dst) (steal_of dst) m (λ j p.
        old_slots (steal_of dst) (m + n)
          (ap (λ c. masked (steal_of dst + c)) (sym span)
            ∙ masked-minus32 dst.tail (steal_of dst) d.tail_small (unpack_steal dst.head))
          (omega (arith, room, few)) j (omega arith))

    at_tail : masked (real_of dst + n) ≡ masked dst.tail
    at_tail = masked-minus32 dst.tail (real_of dst) d.tail_small (unpack_real dst.head)

    to_dst : waiting filled_dst ≡ waiting dst ++ read src.buffer real k
    to_dst =
        ap (read slots (real_of dst)) more
        ∙ read-split slots (real_of dst) n k (n + k) refl
        ∙ ap₂ (λ l l'. l ++ l')
            (read-same slots dst.buffer (real_of dst) (real_of dst) n
              (old_slots (real_of dst) n at_tail (omega (arith, room, few))))
            (read-masked slots (real_of dst + n) dst.tail k at_tail
              ∙ read-same slots src.buffer dst.tail real k (λ j p. new_slots j (omega arith)))

    abbrev last : A
    last = slots (masked (plus32 dst.tail k))

    last_lem : last ≡ src.buffer (masked (real + k))
    last_lem = ap slots (masked-plus32 dst.tail k) ∙ new_slots k (omega arith)

    from_src : waiting src ≡ (read src.buffer real k ++ last ∷ []) ++ waiting left_src
    from_src =
        read-split src.buffer real (k + 1) (minus32 src.tail real - (k + 1)) (minus32 src.tail real)
          (omega (arith, enough))
        ∙ ap₂ (λ l l'. l ++ l')
            (read-split src.buffer real k 1 (k + 1) refl
              ∙ ap (λ y. read src.buffer real k ++ y ∷ []) (sym last_lem))
            (read-masked src.buffer (real + (k + 1)) next (minus32 src.tail real - (k + 1))
                (sym (masked-plus32 real (k + 1)))
              ∙ ap (read src.buffer next) (sym fewer)
              ∙ sym (waiting-pack src.tail next next src.buffer (omega arith) (omega arith)))

    src_free : marked left_src ≡ []
    src_free =
        ap (λ p. read src.buffer p.0 (minus32 p.1 p.0))
          (unpack-pack next next (omega arith) (omega arith))
        ∙ ap (read src.buffer next) (minus32_self next)

    theft : Stolen src dst left_src filled_dst last
    theft = record {
      src_good = src_good;
      dst_good = dst_good;
      moved = read src.buffer real k;
      half = omega (
        arith,
        length-read src.buffer real k,
        length-read src.buffer real (minus32 src.tail real),
        exact,
      );
      from_src = from_src;
      to_dst = to_dst;
      src_free = src_free;
      dst_marked = dst_marked;
    }

    -- The theft as the code computes it.
    steal_into2-left :
        reserve src ≡ some (k + 1, pack (steal_of src) next)
        → steal_into2 src dst dst.tail ≡ (left_src, record dst { buffer = slots }, k + 1)
    unfolding steal_into2 release
    steal_into2-left found =
        let both = unpack-pack (steal_of src) next (unpack_steal src.head) (omega arith) in
        rw (found, steal_into2)
          (ap
            (λ p. (
              record src { head = pack p.1 p.1 },
              record dst { buffer = copy src.buffer dst.buffer p.0 dst.tail 0 (k + 1) },
              k + 1,
            ))
            (both ∙ ap (λ i. (i, next)) alone))

    steal_into-left :
        reserve src ≡ some (k + 1, pack (steal_of src) next)
        → steal_into src dst ≡ (left_src, filled_dst, some last)
    unfolding steal_into
    steal_into-left found =
        let test : ltb 128 (minus32 dst.tail (steal_of dst)) ≡ false = ground (arith, span, room) in
        let some_task : (k + 1 == 0) ≡ false = ground arith in
        let before : k + 1 - 1 ≡ k = omega arith in
        let new_tail : (if ltb 0 k then plus32 dst.tail k else dst.tail) ≡ plus32 dst.tail k =
          ground (arith, d.tail_small) in
        rw (test, steal_into2-left found) (rw some_task (rw before (rw new_tail refl)))

  -- What a thief finds.
  module _ (src : LocalQueue A) where
    abbrev half_of : ℕ
    half_of = minus32 src.tail (real_of src) - minus32 src.tail (real_of src) / 2

    reserve-busy : steal_of src ≢ real_of src → reserve src ≡ none
    unfolding reserve
    reserve-busy apart =
        let test : not (steal_of src == real_of src) ≡ true = ground arith in rw test refl

    reserve-none : half_of ≡ 0 → reserve src ≡ none
    unfolding reserve
    reserve-none e = let test : (half_of == 0) ≡ true = ground arith in rw test (ground arith)

    reserve-some :
        steal_of src ≡ real_of src
        → half_of ≢ 0
        → reserve src ≡ some (half_of, pack (steal_of src) (plus32 (real_of src) half_of))
    unfolding reserve
    reserve-some alone some_task =
        let free : not (steal_of src == real_of src) ≡ false = ground arith in
        let test : (half_of == 0) ≡ false = ground arith in rw free (rw test refl)

    nobody_steals : steal_of src ≡ real_of src → marked src ≡ []
    nobody_steals alone =
        ap (λ i. read src.buffer i (minus32 (real_of src) i)) alone
        ∙ ap (read src.buffer (real_of src)) (minus32_self (real_of src))

    steal_into-none :
        (dst : LocalQueue A)
        → minus32 dst.tail (steal_of dst) ≤ 128
        → reserve src ≡ none
        → steal_into src dst ≡ (src, dst, none)
    unfolding steal_into steal_into2
    steal_into-none dst room found =
        let test : ltb 128 (minus32 dst.tail (steal_of dst)) ≡ false = ground arith in
        rw (test, found, steal_into2) refl

  -- `steal_into` between two valid queues that no other thread changes meanwhile. It takes nothing
  -- and changes nothing if more than half of the thief's buffer is in use, if another thief is at
  -- work at the source, or if no task waits there. Else it takes the older half, rounded up, of the
  -- tasks that wait at the source: the last of them is returned, the others wait at the thief behind
  -- those that waited, the rest waits at the source, all in order, and both queues stay valid.
  pub steal_into-StealOutcome :
      (src dst : LocalQueue A)
      → IsValid src
      → IsValid dst
      → StealOutcome src dst (steal_into src dst)
  unfolding steal_into
  steal_into-StealOutcome src dst s d =
      let across =
        minus32-span dst.tail (real_of dst) (steal_of dst) d.tail_small (unpack_real dst.head)
          (unpack_steal dst.head) d.room in
      let m_dst = length-read dst.buffer (steal_of dst) (minus32 (real_of dst) (steal_of dst)) in
      let n_dst = length-read dst.buffer (real_of dst) (minus32 dst.tail (real_of dst)) in
      let full_test = dec_lt 128 (minus32 dst.tail (steal_of dst)) in
      elim full_test [
        | yes full ↦
            let test : ltb 128 (minus32 dst.tail (steal_of dst)) ≡ true = ground arith in
            crowded (omega (arith, across, m_dst, n_dst, full)) (rw test refl)
        | no free ↦
            let half_free : length (marked dst) + length (waiting dst) ≤ 128 =
              omega (arith, across, m_dst, n_dst, free) in
            elim (ℕ_discrete (steal_of src) (real_of src)) [
              | no apart ↦
                  contended half_free
                    (subst (λ i. 0 < i) (sym (length-read src.buffer (steal_of src) _))
                      (minus32_pos (real_of src) (steal_of src) (unpack_real src.head)
                        (unpack_steal src.head) apart))
                    (steal_into-none src dst (omega arith) (reserve-busy src apart))
              | yes alone ↦ elim (ℕ_discrete (half_of src) 0) [
                | yes e ↦
                    let nobody : minus32 src.tail (real_of src) ≡ 0 = omega (arith, e) in
                    idle half_free (nobody_steals src alone)
                      (ap (read src.buffer (real_of src)) nobody)
                      (steal_into-none src dst (omega arith) (reserve-none src e))
                | no some_task ↦
                    let k : ℕ = half_of src - 1 in
                    let back : k + 1 ≡ half_of src = omega (arith, some_task) in
                    let few : k + 1 ≤ 128 = omega (arith, s.room, back) in
                    let enough : k + 1 ≤ minus32 src.tail (real_of src) = omega (arith, back) in
                    let room : minus32 (real_of dst) (steal_of dst) + minus32 dst.tail (real_of dst)
                        ≤ 128 =
                      omega (arith, across, free) in
                    stolen _ _ _ half_free (nobody_steals src alone)
                      (subst (λ i. 0 < i)
                        (sym
                          (length-read src.buffer (real_of src) (minus32 src.tail (real_of src))))
                        (omega (arith, enough)))
                      (steal_into-left src dst s d k alone few enough back room (
                        subst
                          (λ c.
                            reserve src ≡ some (c, pack (steal_of src) (plus32 (real_of src) c)))
                          (sym back) (reserve-some src alone some_task)))
                      (theft src dst s d k alone few enough back room)
              ]
            ]
      ]
