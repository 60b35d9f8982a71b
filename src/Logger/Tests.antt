-- ===== src/Logger/Tests.antt =====
-- FileLogger with buffers of four characters and files of at most three.
use zedlibs.Prelude.{ℕ, ◌+◌, ◌≡◌, refl, List, [], ◌∷◌, ◌++◌, length, none, some, true, arith}
use Prim.{tt}
use zedlibs.Logger.{
  LogBuffer, LogFile, FileLogger, Step, logs, hands_over, writes_out, new_buffer, finish, write_out,
  write_all, hand_over, run, step, log,
}
use zedlibs.Logger.Pending.{gathered, pending, messages, Short, Ready, AllSized, IsValid}
use zedlibs.Logger.Order.{run-finish}
use zedlibs.Logger.Spare.{IsSpare, run-IsSpare}

abbrev started : FileLogger ℕ
started = record {
  file = record {
    closed = [];
    ofs = [];
    max_file_size = 3;
    cur_file_size = 0;
    last_roll_second = 0;
  };
  current_buffer = new_buffer 0 4;
  empty_buffers = new_buffer 0 4 ∷ [];
  full_buffers = [];
  running = true;
  cerr = [];
}

started-IsValid : IsValid 4 started
unfolding Ready AllSized
started-IsValid = record {
  current = record { inside = omega arith; sized = refl };
  full = tt;
  ready = (record { inside = omega arith; sized = refl }, refl, tt);
  on = refl;
}

-- The second text does not fit behind the first one.
abbrev life : List (Step ℕ)
life =
    logs (1 ∷ 2 ∷ [])
    ∷ logs (3 ∷ 4 ∷ 5 ∷ [])
    ∷ hands_over
    ∷ writes_out (λ n. n + 1)
    ∷ logs (6 ∷ [])
    ∷ []

life-Short : Short 4 life
unfolding Short
life-Short = (omega arith, (omega arith, (omega arith, tt)))

run-finish_example :
    (s' : FileLogger ℕ) × (run 0 4 life started ≡ some s')
    × (length s'.cerr ≡ 0 → gathered (finish (λ n. 9) s') ≡ pending started ++ messages life)
run-finish_example = run-finish 0 4 life (λ n. 9) started started-IsValid life-Short

-- A text that is as long as a buffer fails the assertion.
too_long : run 0 4 (logs (1 ∷ 2 ∷ 3 ∷ 4 ∷ []) ∷ []) started ≡ none
unfolding run step log write_out hand_over zedlibs.Logger.next_buffer zedlibs.Logger.write
    zedlibs.Logger.writable_bytes zedlibs.Logger.size
too_long = refl

started-IsSpare : IsSpare started
unfolding IsSpare
started-IsSpare = omega arith

abbrev full_round : List (Step ℕ)
full_round = logs (1 ∷ 2 ∷ []) ∷ hands_over ∷ writes_out (λ n. n + 1) ∷ []

after_round : FileLogger ℕ
unfolding run step log write_out hand_over zedlibs.Logger.next_buffer zedlibs.Logger.write
    zedlibs.Logger.writable_bytes zedlibs.Logger.size
after_round = elim (run 0 4 full_round started) [ none ↦ started | some s ↦ s ]

full_round-returns : run 0 4 full_round started ≡ some after_round
unfolding run step log write_out hand_over zedlibs.Logger.next_buffer zedlibs.Logger.write
    zedlibs.Logger.writable_bytes zedlibs.Logger.size after_round
full_round-returns = refl

run-IsSpare_example : IsSpare after_round
run-IsSpare_example =
    run-IsSpare 0 4 full_round started after_round started-IsSpare full_round-returns
