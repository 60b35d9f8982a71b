-- ===== src/Latch/Race.antt =====
-- Counts that come between the two accesses of await_suspend, and one that counts nothing.
use zedlibs.Prelude.{
  ℕ, ◌+◌, ◌-◌, ◌≤◌, ◌<◌, ◌≡◌, refl, subst, ap, ap₂, ◌∙◌, List, [], ◌∷◌, ◌++◌, append-nil, Bool,
  true, false, not, ◌==◌, if◌then◌else◌, ℕ_discrete, arith,
}
use zedlibs.Prelude.Ints.{pos}
use zedlibs.Latch.{
  Latch, try_wait, fetch_sub, notify_all, count_down, count_all, enqueue, await_suspend,
  await_suspend_amid,
}
use zedlibs.Latch.Once.{latch_of}

-- Each count is at least one, and together they do not exceed what is missing.
abbrev pub AreCounts : ℕ → List ℕ → Type 0
AreCounts missing [] = Unit {0}
AreCounts missing (n ∷ counts) = (0 < n) × (n ≤ missing) × AreCounts (missing - n) counts

abbrev pub total : List ℕ → ℕ
total [] = 0
total (n ∷ counts) = n + total counts

-- What the calls of await_suspend and of count_down do together.
pub data Awaited (missing : ℕ) (waiting : List ℕ) (handle : ℕ) (counts : List ℕ)
    (out : Latch × List ℕ × Bool) : Type 0 where
  opened :
      missing ≡ 0
      → out ≡ (latch_of 0 (handle ∷ waiting), [], false)
      → Awaited missing waiting handle counts out
  opens :
      0 < missing
      → total counts ≡ missing
      → out ≡ (latch_of 0 (handle ∷ waiting), handle ∷ waiting, false)
      → Awaited missing waiting handle counts out
  waits :
      total counts < missing
      → out ≡ (latch_of (missing - total counts) (handle ∷ waiting), [], true)
      → Awaited missing waiting handle counts out

one_count :
    (k : ℕ) (l : List ℕ) (n : ℕ)
    → 0 < n
    → n ≤ k
    → count_down (latch_of k l) n ≡ (latch_of (k - n) l, if n == k then l else [])
unfolding count_down fetch_sub notify_all
one_count k l n p q = ground (arith, p, q)

no_counts : (counts : List ℕ) → AreCounts 0 counts → counts ≡ []
no_counts [] w = refl
no_counts (n ∷ counts) (p, q, w) = absurd (omega (arith, p, q))

-- The counts open the latch and schedule the list, or leave it closed.
data Counted (k : ℕ) (l counts : List ℕ) : Type 0 where
  reached :
      total counts ≡ k → count_all counts (latch_of k l) ≡ (latch_of 0 l, l) → Counted k l counts
  short :
      total counts < k
      → count_all counts (latch_of k l) ≡ (latch_of (k - total counts) l, [])
      → Counted k l counts

after_one :
    (k : ℕ) (l : List ℕ) (n : ℕ) (counts : List ℕ) (woken : List ℕ)
    → count_down (latch_of k l) n ≡ (latch_of (k - n) l, woken)
    → count_all (n ∷ counts) (latch_of k l) ≡ (
      (count_all counts (latch_of (k - n) l)).0,
      woken ++ (count_all counts (latch_of (k - n) l)).1,
    )
unfolding count_all
after_one k l n counts woken e =
    ap (λ r. ((count_all counts r.0).0, r.1 ++ (count_all counts r.0).1)) e

count_all-Counted :
    (counts : List ℕ) (k : ℕ) (l : List ℕ) → 0 < k → AreCounts k counts → Counted k l counts
unfolding count_all
count_all-Counted [] k l some_left w = short some_left (ap (λ i. (latch_of i l, [])) (omega arith))
count_all-Counted (n ∷ counts) k l some_left (p, q, w) =
    let one = one_count k l n p q in
    elim (ℕ_discrete n k) [
      | yes last ↦
          let test : (n == k) ≡ true = ground (arith, last) in
          let zero_left : k - n ≡ 0 = omega (arith, last) in
          let none_more = no_counts counts (subst (λ i. AreCounts i counts) zero_left w) in
          reached (ap (λ c. n + total c) none_more ∙ omega (arith, last)) (
            after_one k l n counts l
              (one ∙ ap (λ b. (latch_of (k - n) l, if b then l else [])) test)
            ∙ ap
                (λ c.
                  ((count_all c (latch_of (k - n) l)).0, l ++ (count_all c (latch_of (k - n) l)).1))
                none_more
            ∙ ap₂ (λ i m. (latch_of i l, m)) zero_left (append-nil l))
      | no more ↦
          let test : (n == k) ≡ false = ground (arith, more) in
          let goes =
            after_one k l n counts []
              (one ∙ ap (λ b. (latch_of (k - n) l, if b then l else [])) test) in
          elim (count_all-Counted counts (k - n) l (omega (arith, q, more)) w) [
            | reached e r ↦ reached (omega (arith, e, q)) (goes ∙ r)
            | short e r ↦
                short (omega (arith, e, q)) (goes ∙ r ∙ ap (λ i. (latch_of i l, [])) (omega arith))
          ]
    ]

amid :
    (latch latch' : Latch) (woken : List ℕ) (handle : ℕ) (counts : List ℕ)
    → count_all counts (enqueue latch handle) ≡ (latch', woken)
    → await_suspend_amid latch handle counts ≡ (latch', woken, not (try_wait latch'))
unfolding await_suspend_amid
amid latch latch' woken handle counts e = ap (λ r. (r.0, r.1, not (try_wait r.0))) e

-- A coroutine calls await_suspend, and between its two accesses other threads count, each at least one
-- and together no more than what is missing. If nothing was missing before, it goes on and nobody is
-- scheduled. If what is missing is counted meanwhile, it goes on and is scheduled as well, the first of
-- all that wait. If something is still missing, it is suspended, is the first on the list and nobody is
-- scheduled.
pub await_suspend_amid-Awaited :
    (missing : ℕ) (waiting : List ℕ) (handle : ℕ) (counts : List ℕ)
    → AreCounts missing counts
    → Awaited missing waiting handle counts
        (await_suspend_amid (latch_of missing waiting) handle counts)
unfolding enqueue try_wait count_all
await_suspend_amid-Awaited k l h counts w = elim (ℕ_discrete k 0) [
  | yes open_already ↦
      let none_more = no_counts counts (subst (λ i. AreCounts i counts) open_already w) in
      opened open_already (
        amid (latch_of k l) (latch_of 0 (h ∷ l)) [] h counts
          (ap₂ (λ c i. count_all c (latch_of i (h ∷ l))) none_more open_already))
  | no some_left ↦ elim (count_all-Counted counts k (h ∷ l) (omega (arith, some_left)) w) [
    | reached e r ↦
        opens (omega (arith, some_left)) e
          (amid (latch_of k l) (latch_of 0 (h ∷ l)) (h ∷ l) h counts r)
    | short e r ↦
        let test : not (k - total counts == 0) ≡ true = ground (arith, e) in
        waits e (
          amid (latch_of k l) (latch_of (k - total counts) (h ∷ l)) [] h counts r
          ∙ ap (λ b. (latch_of (k - total counts) (h ∷ l), [], b)) test)
  ]
]

-- With no count between them the accesses are those of await_suspend alone.
await_suspend_amid-nil :
    (latch : Latch) (handle : ℕ)
    → await_suspend_amid latch handle []
      ≡ ((await_suspend latch handle).0, [], (await_suspend latch handle).1)
unfolding await_suspend_amid await_suspend count_all
await_suspend_amid-nil latch handle = refl

-- A call count_down(0) on an open latch schedules again all that are on its list.
count_down-zero : (latch : Latch) → latch.expected ≡ pos 0 → (count_down latch 0).1 ≡ latch.head
unfolding count_down fetch_sub notify_all
count_down-zero latch e = ground (arith, e)
