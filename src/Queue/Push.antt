-- ===== src/Queue/Push.antt =====
-- `push_back_or_overflow`: into the queue, to the shared queue, or half of the queue to the shared
-- queue.
use zedlibs.Prelude.{
  ℕ, zero, suc, ◌+◌, ◌<◌, ◌≡◌, refl, sym, ap, ap₂, ◌∙◌, subst, List, [], ◌∷◌, ◌++◌, length, take,
  drop, Option, some, true, false, not, ◌==◌, ltb, arith, ℕ_discrete, dec_lt,
}
use zedlibs.Queue.Global.{GlobalQueue}
use zedlibs.Queue.Global
use zedlibs.Queue.Local.{
  LocalQueue, plus32, minus32, masked, capacity, pack, write, collect, push_overflow,
  push_back_or_overflow,
}
use zedlibs.Queue.Words.{
  unpack_steal, unpack_real, unpack-pack, minus32_self, minus32_pos, minus32-plus32, plus32-minus32,
  minus32-span, masked-plus32, masked-minus32, read, read-masked, read-split, read-write_other,
  read-write_end, length-read,
}
use zedlibs.Queue.Owner.{steal_of, real_of, waiting, marked, IsValid, IsValid-pack, waiting-pack}

module _ {ℓ} {A : Type ℓ} where
  collect-read :
      (buffer : ℕ → A) (head i n : ℕ) → collect buffer head i n ≡ read buffer (head + i) n
  unfolding collect
  collect-read buffer head i zero = refl
  collect-read buffer head i (suc n) =
      let next : head + suc i ≡ suc (head + i) = omega arith in
      ap₂ (λ k l. buffer k ∷ l) (masked-plus32 head i)
        (collect-read buffer head (suc i) n ∙ ap (λ k. read buffer k n) next)

  take-read : (buffer : ℕ → A) (i m n : ℕ) → take m (read buffer i (m + n)) ≡ read buffer i m
  take-read buffer i m n =
      ap (take m) (read-split buffer i m n (m + n) refl)
      ∙ front m (read buffer i m) (length-read buffer i m)
    where
      front : (k : ℕ) (l : List A) → length l ≡ k → take k (l ++ read buffer (i + m) n) ≡ l
      front zero [] h = refl
      front (suc k) [] h = absurd (omega arith)
      front zero (x ∷ l) h = absurd (omega arith)
      front (suc k) (x ∷ l) h = ap (λ t. x ∷ t) (front k l (omega arith))

  drop-read : (buffer : ℕ → A) (i m n : ℕ) → drop m (read buffer i (m + n)) ≡ read buffer (i + m) n
  drop-read buffer i m n =
      ap (drop m) (read-split buffer i m n (m + n) refl)
      ∙ back m (read buffer i m) (length-read buffer i m)
    where
      back :
          (k : ℕ) (l : List A)
          → length l ≡ k
          → drop k (l ++ read buffer (i + m) n) ≡ read buffer (i + m) n
      back zero [] h = refl
      back (suc k) [] h = absurd (omega arith)
      back zero (x ∷ l) h = absurd (omega arith)
      back (suc k) (x ∷ l) h = back k l (omega arith)

  -- Where a pushed task goes.
  pub data PushOutcome (q : LocalQueue A) (task : A) (global : GlobalQueue A)
      (out : Option (LocalQueue A × GlobalQueue A)) : Type ℓ where
    queued :
        length (marked q) + length (waiting q) < capacity
        → (q' : LocalQueue A) → out ≡ some (q', global)
        → IsValid q'
        → waiting q' ≡ waiting q ++ task ∷ []
        → marked q' ≡ marked q
        → PushOutcome q task global out
    shared :
        length (marked q) + length (waiting q) ≡ capacity
        → 0 < length (marked q)
        → out ≡ some (q, Global.push global task)
        → PushOutcome q task global out
    overflowed :
        length (waiting q) ≡ capacity
        → (q' : LocalQueue A)
        → out ≡ some (q', Global.push_batch global (take 128 (waiting q) ++ task ∷ []) 129)
        → IsValid q'
        → waiting q' ≡ drop 128 (waiting q)
        → marked q' ≡ []
        → PushOutcome q task global out

  module _ (q : LocalQueue A) (task : A) (good : IsValid q) where
    abbrev pub m : ℕ
    m = minus32 (real_of q) (steal_of q)

    abbrev pub n : ℕ
    n = minus32 q.tail (real_of q)

    span : minus32 q.tail (steal_of q) ≡ m + n
    span =
        minus32-span q.tail (real_of q) (steal_of q) good.tail_small (unpack_real q.head)
          (unpack_steal q.head) good.room

    abbrev pub put : LocalQueue A
    put = record q { buffer = write q.buffer (masked q.tail) task; tail = plus32 q.tail 1 }

    module _ (free : m + n < capacity) where
      longer : minus32 (plus32 q.tail 1) (real_of q) ≡ n + 1
      longer =
          plus32-minus32 q.tail (real_of q) 1 good.tail_small (unpack_real q.head) (omega arith)

      pub put-IsValid : IsValid put
      put-IsValid = record {
        packed = good.packed;
        tail_small = omega arith;
        room = omega (arith, longer, free);
      }

      pub put-waiting : waiting put ≡ waiting q ++ task ∷ []
      put-waiting =
          let slot = masked-minus32 q.tail (real_of q) good.tail_small (unpack_real q.head) in
          ap (read put.buffer (real_of q)) longer
          ∙ ap (λ k. read (write q.buffer k task) (real_of q) (n + 1)) (sym slot)
          ∙ read-write_end q.buffer (real_of q) n task (omega (arith, free))

      pub put-marked : marked put ≡ marked q
      put-marked =
          let slot = masked-minus32 q.tail (steal_of q) good.tail_small (unpack_steal q.head) in
          read-write_other q.buffer (steal_of q) m (masked q.tail) task
            (λ j p e. absurd (omega (arith, slot, span, free, e)))

    -- Half of a full queue goes: the head moves on by 128.
    module _ (alone : steal_of q ≡ real_of q) (full : n ≡ 128 + 128) where
      abbrev next : ℕ
      next = plus32 (real_of q) 128

      abbrev halved : LocalQueue A
      halved = record q { head = pack next next }

      half_left : minus32 q.tail next ≡ 128
      half_left = omega (
        arith,
        minus32-plus32 q.tail (real_of q) 128 good.tail_small (unpack_real q.head)
            (omega (arith, full)),
        full,
      )

      halved-IsValid : IsValid halved
      halved-IsValid =
          IsValid-pack q.tail next next q.buffer good.tail_small (omega arith) (omega arith)
            (omega (arith, minus32_self next, half_left))

      waiting_halves : waiting q ≡ read q.buffer (real_of q) (128 + 128)
      waiting_halves = ap (read q.buffer (real_of q)) full

      halved-waiting : waiting halved ≡ drop 128 (waiting q)
      halved-waiting =
          waiting-pack q.tail next next q.buffer (omega arith) (omega arith)
          ∙ ap (read q.buffer next) half_left
          ∙ read-masked q.buffer next (real_of q + 128) 128 (masked-plus32 (real_of q) 128)
          ∙ sym (ap (drop 128) waiting_halves ∙ drop-read q.buffer (real_of q) 128 128)

      halved-marked : marked halved ≡ []
      halved-marked =
          ap (λ p. read q.buffer p.0 (minus32 p.1 p.0))
            (unpack-pack next next (omega arith) (omega arith))
          ∙ ap (read q.buffer next) (minus32_self next)

      halved-collect : collect q.buffer (real_of q) 0 128 ≡ take 128 (waiting q)
      halved-collect =
          let start : real_of q + 0 ≡ real_of q = omega arith in
          collect-read q.buffer (real_of q) 0 128
          ∙ ap (λ k. read q.buffer k 128) start
          ∙ sym (ap (take 128) waiting_halves ∙ take-read q.buffer (real_of q) 128 128)

  push_overflow-halves :
      (q : LocalQueue A) (task : A) (global : GlobalQueue A) (good : IsValid q)
      → (alone : steal_of q ≡ real_of q) → (full : minus32 q.tail (real_of q) ≡ 128 + 128)
      → push_overflow q task (real_of q) q.tail global
        ≡ some (record {
          pushed = true;
          local = halved q task good alone full;
          global = Global.push_batch global (take 128 (waiting q) ++ task ∷ []) 129;
        })
  unfolding push_overflow
  push_overflow-halves q task global good alone full =
      let span_test : not (minus32 q.tail (real_of q) == capacity) ≡ false = ground (arith, full) in
      let same : q.head ≡ pack (real_of q) (real_of q) =
        good.packed ∙ ap (λ s. pack s (real_of q)) alone in
      let head_test : (q.head == pack (real_of q) (real_of q)) ≡ true = ground (arith, same) in
      rw span_test (
        rw head_test (
          ap
            (λ l. some (record {
              pushed = true;
              local = halved q task good alone full;
              global = Global.push_batch global (l ++ task ∷ []) 129;
            }))
            (halved-collect q task good alone full)))

  -- `push_back_or_overflow` on a valid queue that no other thread changes meanwhile: the first round
  -- returns, and no assertion fails. If there is room the task is the last of those that wait, and
  -- the marked tasks stay as they are; in a full queue with a thief at work the task goes to the
  -- shared queue; in any other full queue the older half of the tasks goes there, and then the task.
  pub push_back_or_overflow-PushOutcome :
      (rounds : ℕ) (q : LocalQueue A) (task : A) (global : GlobalQueue A)
      → IsValid q
      → PushOutcome q task global (push_back_or_overflow (suc rounds) q task global)
  unfolding push_back_or_overflow
  push_back_or_overflow-PushOutcome rounds q task global good =
      let total : length (marked q) + length (waiting q) ≡ m q task good + n q task good =
        ap₂ (λ i j. i + j) (length-read q.buffer (steal_of q) _)
          (length-read q.buffer (real_of q) _) in
      let across = span q task good in
      elim (dec_lt (m q task good + n q task good) capacity) [
        | yes free ↦
            let test : ltb (minus32 q.tail (steal_of q)) capacity ≡ true = ground (arith, across) in
            queued (omega (arith, total, free)) (put q task good) (rw test refl)
              (put-IsValid q task good free) (put-waiting q task good free)
              (put-marked q task good free)
        | no full ↦
            let test : ltb (minus32 q.tail (steal_of q)) capacity ≡ false =
              ground (arith, across) in
            elim (ℕ_discrete (steal_of q) (real_of q)) [
              | no apart ↦
                  let busy : not (steal_of q == real_of q) ≡ true = ground arith in
                  shared (omega (arith, total, good.room, full))
                    (subst (λ k. 0 < k) (sym (length-read q.buffer (steal_of q) _))
                      (minus32_pos (real_of q) (steal_of q) (unpack_real q.head)
                        (unpack_steal q.head) apart))
                    (rw test (rw busy refl))
              | yes alone ↦
                  let idle : not (steal_of q == real_of q) ≡ false = ground arith in
                  let no_marked : m q task good ≡ 0 =
                    ap (minus32 (real_of q)) alone ∙ minus32_self (real_of q) in
                  let whole : n q task good ≡ 128 + 128 =
                    omega (arith, good.room, full, no_marked) in
                  overflowed (length-read q.buffer (real_of q) _ ∙ whole)
                    (halved q task good alone whole)
                    (rw test
                      (rw idle (rw (push_overflow-halves q task global good alone whole) refl)))
                    (halved-IsValid q task good alone whole)
                    (halved-waiting q task good alone whole) (halved-marked q task good alone whole)
            ]
      ]
