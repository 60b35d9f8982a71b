-- ===== src/Poller/Submits.antt =====
-- How often the requests are submitted, and the time that the ring waits for.
use zedlibs.Prelude.{
  ℕ, zero, suc, ◌+◌, ◌*◌, ◌%◌, ◌^◌, ◌<◌, ◌≡◌, refl, ap, ◌∙◌, ◌==◌, Bool-cases, inl, inr, arith,
}
use zedlibs.Poller.{Poller, force_submit, submit, submit_times, timespec}

-- The ring as the number of submissions.
abbrev pub counted : ℕ → ℕ
counted n = n + 1

pub record IsTicking (p : Poller ℕ) : Type 0 where
  pub below : p.submit_tick < p.submit_interval
  pub small : p.submit_interval < 2 ^ 32

-- What holds after so many calls.
pub record Ticked (n : ℕ) (p p' : Poller ℕ) : Type 0 where
  pub ticking : IsTicking p'
  pub interval : p'.submit_interval ≡ p.submit_interval
  pub total :
      p'.ring * p.submit_interval + p'.submit_tick ≡ p.ring * p.submit_interval + p.submit_tick + n

submit-Ticked : (p : Poller ℕ) → IsTicking p → Ticked 1 p (submit counted p)
unfolding submit force_submit
submit-Ticked p v =
    let next : (p.submit_tick + 1) % 2 ^ 32 ≡ p.submit_tick + 1 = omega (arith, v.below, v.small) in
    elim (Bool-cases (p.submit_tick + 1 == p.submit_interval)) [
      | inl due ↦
          rw (next, due)
            (record {
              ticking = record { below = omega (arith, v.below); small = v.small };
              interval = refl;
              total = ground (arith, due);
            })
      | inr early ↦
          rw (next, early)
            (record {
              ticking = record { below = ground (arith, early, v.below); small = v.small };
              interval = refl;
              total = omega arith;
            })
    ]

-- From a tick below the interval, which a uint32_t holds, any number of suspensions leaves a tick below
-- the interval, and the submissions are as many as the interval fits into the ticks: after so many
-- suspensions as the interval counts there has been one more.
pub submit_times-Ticked :
    (n : ℕ) (p : Poller ℕ) → IsTicking p → Ticked n p (submit_times counted n p)
unfolding submit_times
submit_times-Ticked zero p v = record { ticking = v; interval = refl; total = omega arith }
submit_times-Ticked (suc n) p v =
    let one = submit-Ticked p v in
    let rest = submit_times-Ticked n (submit counted p) one.ticking in
    let p' = submit_times counted n (submit counted p) in
    let same : p'.ring * (submit counted p).submit_interval ≡ p'.ring * p.submit_interval =
      ap (λ k. p'.ring * k) one.interval in
    let same_ring : (submit counted p).ring * (submit counted p).submit_interval
        ≡ (submit counted p).ring * p.submit_interval =
      ap (λ k. (submit counted p).ring * k) one.interval in
    record {
      ticking = rest.ticking;
      interval = rest.interval ∙ one.interval;
      total = omega (arith, same, same_ring, one.total, rest.total);
    }

-- The time for the kernel is the time that was asked for, and its nanoseconds are less than a second.
pub timespec-exact :
    (timeout : ℕ)
    → ((timespec timeout).0 * 1000000000 + (timespec timeout).1 ≡ timeout * 1000000)
      × ((timespec timeout).1 < 1000000000)
unfolding timespec
timespec-exact timeout = (omega arith, omega arith)
